-- ===== src/File/Disk.antt =====
-- Where the pages of a file stand on disk (pagePosition, src/file.h).
use hit_database_exp3p2_cpp.Base.{ℕ, ◌+◌, ◌≤◌, ◌<◌, ◌^◌, arith}
use hit_database_exp3p2_cpp.File.Stream.{page_index, page_position, file_header_size}
use hit_database_exp3p2_cpp.Page.{size}

-- The pages of two numbers stand apart, in the order of the numbers, behind the file's header.
page_position_apart :
    (m n : ℕ)
    → 0 < m
    → m < n
    → n < 2 ^ 32
    → (file_header_size ≤ page_position m) × (page_position m + size ≤ page_position n)
unfolding page_position page_index
page_position_apart m n a b c = omega arith
