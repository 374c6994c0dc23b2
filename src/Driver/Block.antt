-- ===== src/Driver/Block.antt =====
-- The end of the block of main() in src/main.cpp that works on a file: a record is added to the page that
-- the loop before has kept the number of. The loops in between, over the records of all pages, take
-- iterators into pages that `*iter` returns by value and that are gone at once, so that what they read
-- is undefined; they change nothing.
pub mod Adds
pub mod Whole
use hit_database_exp3p2_cpp.Base.{ℕ, List}
use hit_database_exp3p2_cpp.Page.{insert_record, get_record}
use hit_database_exp3p2_cpp.File.{read_page, write_page}
use hit_database_exp3p2_cpp.File.Stream.{M, ◌>>=◌, ◌>>◌}
use hit_database_exp3p2_cpp.File.Records.{on_page}

-- A record is added to the page, and read from it.
unfoldable pub add_and_read : ℕ → List ℕ → M (List ℕ)
add_and_read page_number record_data = do
  third_page ← read_page page_number
  (changed, rid) ← on_page (insert_record third_page record_data)
  write_page changed
  on_page (get_record changed rid)
