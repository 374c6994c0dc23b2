-- ===== src/Tests/Calls.antt =====
-- A run of the calls of a file, and the theorem on any calls applied to it.
use hit_database_exp3p2_cpp.Base.{ℕ, ◌≡◌, refl, none, some, List, [], ◌∷◌, arith, inl}
use hit_database_exp3p2_cpp.Page.{Page, insert_record}
use hit_database_exp3p2_cpp.File.{
  allocate_page, append_page, reuse_page, walk, delete_page, unlink_page, write_page, read_page,
  read_page_or_free,
}
use hit_database_exp3p2_cpp.File.Stream.{
  File, fetch, page_index, read_header, write_header, read_raw, read_page_header, write_page_at,
}
use hit_database_exp3p2_cpp.File.Links.{IsFile}
use hit_database_exp3p2_cpp.File.Sorted.{insert_sorted}
use hit_database_exp3p2_cpp.File.Reached.{
  Pages, assign, content, blank, empty_file, Reached, start, appended, reused, deleted, written,
}
use hit_database_exp3p2_cpp.File.Refines.{Answers, read_page-Reached}
use hit_database_exp3p2_cpp.Tests.Pages.{value, nowhere, program}
use hit_database_exp3p2_cpp.Tests.Files.{world}

-- The names that a run computes with.
unfoldable files : Unit {0}
unfolding program allocate_page append_page reuse_page walk delete_page unlink_page write_page
    read_page read_page_or_free fetch page_index read_header write_header read_raw read_page_header
    write_page_at
files = tt

abbrev f0 : File
f0 = empty_file "pages.db"

abbrev f1 : File
f1 = (allocate_page 2 f0).1

abbrev f2 : File
f2 = (allocate_page 2 f1).1

-- Page 1 with a record.
abbrev filled : Page
filled = (value (insert_record (blank 1) world) nowhere).0

abbrev f3 : File
f3 = (write_page filled f2).1

abbrev f4 : File
f4 = (delete_page 2 2 f3).1

abbrev f5 : File
f5 = (allocate_page 2 f4).1

abbrev m5 : Pages
m5 =
    assign
      (assign
        (assign (assign (assign (λ _. none) 1 (some (blank 1))) 2 (some (blank 2))) 1
          (some (content filled)))
        2 none)
      2 (some (blank 2))

abbrev one : List ℕ
one = 1 ∷ []

one-some : ¬ (one ≡ [])
one-some = ground arith

f5-Reached : Reached f5 (1 ∷ 2 ∷ []) [] m5
unfolding files insert_sorted
f5-Reached =
    reused {p = blank 2}
      (deleted 2 one []
        (written filled [] (2 ∷ [])
          (appended {p = blank 2}
            (appended {p = blank 1} (start "pages.db") 2 (omega arith) (omega arith) refl) 2
            (omega arith) (omega arith) refl)
          refl)
        2 (omega arith) refl)
      2 (inl one-some) (omega arith) refl

read_page-Reached_example : IsFile f5 (1 ∷ 2 ∷ []) [] × Answers f5 1 (some (content filled))
unfolding files
read_page-Reached_example = read_page-Reached f5-Reached 1 (omega arith)
