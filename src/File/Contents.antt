-- ===== src/File/Contents.antt =====
-- What allocatePage and deletePage leave on the pages that they do not give or take (src/file.cpp).
use hit_database_exp3p2_cpp.Base.{
  ℕ, ◌+◌, ◌≤◌, ◌<◌, ◌≡◌, ◌^◌, ap, ◌∙◌, ◌⊎◌, some, List, [], ◌∷◌, ◌++◌, arith, length,
}
use hit_database_exp3p2_cpp.Result.{ok}
use hit_database_exp3p2_cpp.Page.{Page, page_number, set_next_page_number}
use hit_database_exp3p2_cpp.File.{allocate_page, delete_page}
use hit_database_exp3p2_cpp.File.Stream.{File, fetch}
use hit_database_exp3p2_cpp.File.Links.{IsFile}
use hit_database_exp3p2_cpp.File.Append.{allocate_page_appended}
use hit_database_exp3p2_cpp.File.Reused.{allocate_page_reused}
use hit_database_exp3p2_cpp.File.Remove.{delete_page_freed}

-- The files in which allocatePage keeps the lists: there is a number left for a new page, or a
-- free page is not left alone with others.
abbrev pub CanAllocate : File → List ℕ → List ℕ → Type 0
CanAllocate f used [] = f.file_header.num_pages + 1 < 2 ^ 32
CanAllocate f used (n ∷ free) = (¬ (used ≡ [])) ⊎ (free ≡ [])

-- In a well-formed file in which allocatePage keeps the lists, each used page stays on disk as it is, but
-- for its pointer, and is not the page that allocatePage returns. Fuel for each used page is enough.
allocate_page_keeps :
    (fuel : ℕ) (f : File) (used free : List ℕ) (x : ℕ) (q : Page)
    → IsFile f used free
    → CanAllocate f used free
    → length used ≤ fuel
    → 0 < x
    → x < f.file_header.num_pages
    → fetch f x ≡ some q
    → page_number q ≡ x
    → (p : Page) × (f' : File) × (k : ℕ) × (allocate_page fuel f ≡ (ok p, f'))
      × (fetch f' x ≡ some (set_next_page_number q k))
      × (¬ (page_number p ≡ x))
allocate_page_keeps fuel f used [] x q is room enough pos below here num =
    let (p, f', run, number, is', keeps, same, at) =
      allocate_page_appended fuel f used is room enough in
    let (k, there) = keeps x q pos below (omega arith) here in (p, f', k, run, there, omega arith)
allocate_page_keeps fuel f used (n ∷ free) x q is either enough pos below here num =
    let (p, f', run, number, is', keeps, fp', there', same, at) =
      allocate_page_reused fuel f used n free is either enough in
    let (a, pos_n, below_n, fp, at_n, unused, rest) = is.free_links in
    let ne : ¬ (n ≡ x) = λ e.
      let same : fetch f n ≡ some q = ap (fetch f) e ∙ here in
      let fq : fp ≡ q = cc in let both = ap (λ (r : Page). page_number r) fq in omega arith in
    let (k, there) = keeps x q pos below ne here in (p, f', k, run, there, omega arith)

-- In a well-formed file, each page but the used one that deletePage deletes stays on disk as it is, but
-- for its pointer. Fuel for each used page before the deleted one is enough.
pub delete_page_keeps :
    (fuel : ℕ) (f : File) (n : ℕ) (xs ys free : List ℕ) (x : ℕ) (q : Page)
    → IsFile f (xs ++ n ∷ ys) free
    → length xs ≤ fuel
    → 0 < x
    → x < f.file_header.num_pages
    → ¬ (n ≡ x)
    → fetch f x ≡ some q
    → (f' : File) × (k : ℕ) × (delete_page fuel n f ≡ (ok tt, f'))
      × (fetch f' x ≡ some (set_next_page_number q k))
delete_page_keeps fuel f n xs ys free x q is enough pos below ne here =
    let (f', run, is', keeps, at) = delete_page_freed fuel f n xs ys free is enough in
    let (k, there) = keeps x q pos below ne here in (f', k, run, there)
