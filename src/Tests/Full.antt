-- ===== src/Tests/Full.antt =====
-- A file with all the page numbers that 32 bits allow, and allocatePage in it.
use hit_database_exp3p2_cpp.Base.{
  ℕ, ◌+◌, ◌≤◌, ◌≡◌, ◌^◌, List, [], ◌∷◌, none, refl, arith, length, zero, suc, ap,
}
use hit_database_exp3p2_cpp.Result.{ok, throws}
use hit_database_exp3p2_cpp.Result.Exceptions.{invalid_page}
use hit_database_exp3p2_cpp.Page.{Page, page_number}
use hit_database_exp3p2_cpp.File.{allocate_page, read_page}
use hit_database_exp3p2_cpp.File.Stream.{File}
use hit_database_exp3p2_cpp.File.Links.{IsFile}
use hit_database_exp3p2_cpp.File.Fill.Loop.{upto}
use hit_database_exp3p2_cpp.File.Fill.Rounds.{fill_lem}
use hit_database_exp3p2_cpp.File.Reached.{empty_file, start}
use hit_database_exp3p2_cpp.File.Reached.Represented.{Reached-Represents, num_pages-IsFile}
use hit_database_exp3p2_cpp.File.Append.Wraps.{allocate_page_wraps}

length-upto : (k n : ℕ) → length (upto k n) ≡ n
length-upto k zero = refl
length-upto k (suc n) = ap suc (length-upto (k + 1) n)

-- What the loop over a new file leaves after n rounds.
filled_file :
    (n : ℕ)
    → n + 2 ≡ 2 ^ 32
    → (f : File) × (used : List ℕ) × IsFile f used []
      × (f.file_header.num_pages + 1 ≡ 2 ^ 32)
      × (length used ≤ n)
filled_file n most =
    let (f, m, ran, reached, same, has) =
      fill_lem (7 ∷ []) (omega arith) (omega arith) n n (empty_file "pages.db") [] (λ _. none)
        (start "pages.db") (omega arith) (omega arith) in
    let is = (Reached-Represents reached).is in
    let count = num_pages-IsFile is in
    let l = length-upto 1 n in (f, upto 1 n, is, omega arith, omega arith)

full_file :
    (f : File) × (used : List ℕ) × IsFile f used []
    × (f.file_header.num_pages + 1 ≡ 2 ^ 32)
    × (length used ≤ 4294967294)
full_file = filled_file 4294967294 refl

allocate_page_wraps_example :
    (p : Page) × (f' : File) × (allocate_page 4294967294 full_file.0 ≡ (ok p, f'))
    × (page_number p ≡ full_file.0.file_header.num_pages)
    × (f'.file_header.num_pages ≡ 0)
    × (read_page 1 f'
        ≡ (throws (invalid_page (record { page_number = 1; filename = f'.filename })), f'))
allocate_page_wraps_example =
    allocate_page_wraps 4294967294 full_file.0 full_file.1 1 full_file.2 full_file.3 full_file.4
