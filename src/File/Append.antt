-- ===== src/File/Append.antt =====
-- allocatePage when no page is free: the file grows by a page (src/file.cpp).
pub mod Lists
pub mod Runs
pub mod Wraps
use hit_database_exp3p2_cpp.Base.{
  ℕ, ◌+◌, ◌≤◌, ◌<◌, ◌≡◌, ◌^◌, ◌%◌, refl, sym, subst, ◌∙◌, ap, some, List, [], ◌∷◌, ◌++◌, arith,
  length, ltb, ◌==◌, if◌then◌else◌, ==-ne,
}
use hit_database_exp3p2_cpp.Result.{ok}
use hit_database_exp3p2_cpp.Page.{
  Page, page_number, next_page_number, set_page_number, set_next_page_number, initialize,
}
use hit_database_exp3p2_cpp.File.{allocate_page, append_page, reuse_page, Allocation}
use hit_database_exp3p2_cpp.File.Stream.{File, FileHeader, fetch}
use hit_database_exp3p2_cpp.File.Access.{
  with_page, fetch-with_page_self, fetch-with_page_ne, length-with_page_in, length-with_page_end,
}
use hit_database_exp3p2_cpp.File.Links.{
  Links, Ascending, IsFile, own, NotIn-top, IsFile-with_header,
}
use hit_database_exp3p2_cpp.File.Relink.{
  Ascending-Distinct, Links-at, Links-pos, snoc, length-snoc, assoc,
}
use hit_database_exp3p2_cpp.File.Kept.{Keeps, Keeps-one, Keeps-then, fetch-one, fetch-then}
use hit_database_exp3p2_cpp.File.Written.{Links-with_page, Links-with_page_in}
use hit_database_exp3p2_cpp.File.Relink.{Ascending-snoc}
use hit_database_exp3p2_cpp.File.Walks.{Passes-tail, walk_split}
use hit_database_exp3p2_cpp.File.Allocate.{allocate_page_lem, written}
use Runs.{by_used}

pub allocate_page_appended :
    (fuel : ℕ) (f : File) (used : List ℕ)
    → IsFile f used []
    → f.file_header.num_pages + 1 < 2 ^ 32
    → length used ≤ fuel
    → (p : Page) × (f' : File) × (allocate_page fuel f ≡ (ok p, f'))
      × (page_number p ≡ f.file_header.num_pages)
      × IsFile f' (used ++ f.file_header.num_pages ∷ []) []
      × Keeps f f' f.file_header.num_pages
      × (p ≡ set_page_number initialize f.file_header.num_pages)
      × (fetch f' f.file_header.num_pages ≡ some p)
allocate_page_appended fuel f used is room enough = by_used f used is room fuel used refl enough

-- In a well-formed file with no free page and room for another page number, allocatePage returns a
-- page with the next number, and the file is well-formed again: its used pages are those it had and
-- the new one as the last, and no page is free. Fuel for each used page is enough.
pub allocate_page_append :
    (fuel : ℕ) (f : File) (used : List ℕ)
    → IsFile f used []
    → f.file_header.num_pages + 1 < 2 ^ 32
    → length used ≤ fuel
    → (p : Page) × (f' : File) × (allocate_page fuel f ≡ (ok p, f'))
      × (page_number p ≡ f.file_header.num_pages)
      × IsFile f' (used ++ f.file_header.num_pages ∷ []) []
allocate_page_append fuel f used is room enough =
    let (p, f', run, number, is', keeps, same, at) =
      allocate_page_appended fuel f used is room enough in
    (p, f', run, number, is')
