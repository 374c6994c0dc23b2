-- ===== src/File/Reached.antt =====
-- The files that calls of allocatePage, deletePage and writePage lead to, and the map from page numbers to
-- pages that goes through the same calls (src/file.cpp).
pub mod Represented
use hit_database_exp3p2_cpp.Base.{
  ℕ, String, ◌+◌, ◌≤◌, ◌<◌, ◌≡◌, ◌^◌, refl, sym, ◌∙◌, ap, subst, Option, none, some, true, List, [],
  ◌∷◌, ◌++◌, arith, length, inl, inr, ◌⊎◌, ◌==◌, if◌then◌else◌, Bool-cases, ==-ne,
}
use hit_database_exp3p2_cpp.Result.{Result, ok, ok-injective}
use hit_database_exp3p2_cpp.Page.{
  Page, page_number, next_page_number, set_next_page_number, set_page_number, initialize,
}
use hit_database_exp3p2_cpp.File.{allocate_page, delete_page, write_page}
use hit_database_exp3p2_cpp.File.Stream.{File, fetch}
use hit_database_exp3p2_cpp.File.Links.{IsFile, own}
use hit_database_exp3p2_cpp.File.Relink.{Links-at, length-snoc, length-middle}
use hit_database_exp3p2_cpp.File.Kept.{Keeps}
use hit_database_exp3p2_cpp.File.Sorted.{insert_sorted, length-insert_sorted}
use hit_database_exp3p2_cpp.File.Append.{allocate_page_appended}
use hit_database_exp3p2_cpp.File.Reused.{allocate_page_reused}
use hit_database_exp3p2_cpp.File.Remove.{delete_page_freed}
use hit_database_exp3p2_cpp.File.Store.{write_page_written}

abbrev pub Pages : Type 0
Pages = ℕ → Option Page

abbrev pub assign : Pages → ℕ → Option Page → Pages
assign m n o i = if i == n then o else m i

-- A page without its pointer.
abbrev pub content : Page → Page
content p = set_next_page_number p 0

abbrev pub blank : ℕ → Page
blank n = set_page_number initialize n

-- A file without pages, with the header that create() writes.
abbrev pub empty_file : String → File
empty_file name = record {
  filename = name;
  good = true;
  file_header = record {
    num_pages = 1;
    first_used_page = 0;
    num_free_pages = 0;
    first_free_page = 0;
  };
  pages = [];
}

-- The files that calls lead to, each with the numbers of its used and of its free pages and with what a
-- map holds after the same calls. A page is allocated where a number is left for it or a free page is
-- not left alone with others; pages are deleted and written under the numbers of used ones.
pub data Reached : File → List ℕ → List ℕ → Pages → Type 0 where
  start : (name : String) → Reached (empty_file name) [] [] (λ _. none)
  appended :
      {f f' : File} {used : List ℕ} {m : Pages} {p : Page}
      → Reached f used [] m
      → (fuel : ℕ) → f.file_header.num_pages + 1 < 2 ^ 32
      → length used ≤ fuel
      → allocate_page fuel f ≡ (ok p, f')
      → Reached f'
          (used ++ f.file_header.num_pages ∷ [])
          []
          (assign m (page_number p) (some (blank (page_number p))))
  reused :
      {f f' : File} {used free : List ℕ} {n : ℕ} {m : Pages} {p : Page}
      → Reached f used (n ∷ free) m
      → (fuel : ℕ) → (¬ (used ≡ [])) ⊎ (free ≡ [])
      → length used ≤ fuel
      → allocate_page fuel f ≡ (ok p, f')
      → Reached f'
          (insert_sorted n used)
          free
          (assign m (page_number p) (some (blank (page_number p))))
  deleted :
      {f f' : File} {free : List ℕ} {m : Pages}
      → (n : ℕ) (xs ys : List ℕ) → Reached f (xs ++ n ∷ ys) free m
      → (fuel : ℕ) → length xs ≤ fuel
      → delete_page fuel n f ≡ (ok tt, f')
      → Reached f' (xs ++ ys) (n ∷ free) (assign m n none)
  written :
      {f f' : File} {free : List ℕ} {m : Pages}
      → (q : Page) (xs ys : List ℕ) → Reached f (xs ++ page_number q ∷ ys) free m
      → write_page q f ≡ (ok tt, f')
      → Reached f' (xs ++ page_number q ∷ ys) free (assign m (page_number q) (some (content q)))

-- What the map has for a page on disk.
abbrev pub Shows : ℕ → Page → Option Page → Type 0
Shows n p none = (page_number p ≡ 0) × (content p ≡ initialize)
Shows n p (some q) = (page_number p ≡ n) × (content p ≡ q)

abbrev pub Stands : File → Pages → ℕ → Type 0
Stands f m n = (p : Page) × (fetch f n ≡ some p) × Shows n p (m n)

pub record Represents (f : File) (used free : List ℕ) (m : Pages) : Type 0 where
  pub is : IsFile f used free
  pub stands : (n : ℕ) → 0 < n → n < f.file_header.num_pages → Stands f m n
  pub beyond : (n : ℕ) → f.file_header.num_pages ≤ n → m n ≡ none
