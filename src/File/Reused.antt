-- ===== src/File/Reused.antt =====
-- allocatePage when a page is free (src/file.cpp).
use hit_database_exp3p2_cpp.Base.{ℕ, ◌≤◌, ◌≡◌, refl, sym, subst, some, List, [], ◌∷◌, length, ◌⊎◌}
use hit_database_exp3p2_cpp.Result.{ok}
use hit_database_exp3p2_cpp.Page.{
  Page, page_number, next_page_number, set_next_page_number, set_page_number,
}
use hit_database_exp3p2_cpp.File.{allocate_page}
use hit_database_exp3p2_cpp.File.Stream.{File, fetch}
use hit_database_exp3p2_cpp.File.Links.{IsFile}
use hit_database_exp3p2_cpp.File.Kept.{Keeps}
use hit_database_exp3p2_cpp.File.Sorted.{insert_sorted}
use hit_database_exp3p2_cpp.File.Reuse.Runs.{by_used}

by_head :
    (fuel : ℕ) (f : File) (used free : List ℕ)
    → IsFile f used (f.file_header.first_free_page ∷ free)
    → (¬ (used ≡ [])) ⊎ (free ≡ [])
    → length used ≤ fuel
    → (p : Page) × (f' : File) × (allocate_page fuel f ≡ (ok p, f'))
      × (page_number p ≡ f.file_header.first_free_page)
      × IsFile f' (insert_sorted f.file_header.first_free_page used) free
      × Keeps f f' f.file_header.first_free_page
      × (fp : Page) × (fetch f f.file_header.first_free_page ≡ some fp)
      × (p
          ≡ set_next_page_number
              (set_page_number fp f.file_header.first_free_page)
              (next_page_number p))
      × (fetch f' f.file_header.first_free_page ≡ some p)
by_head fuel f used free is either enough =
    let (a, pos, below, p, here, num, l) = is.free_links in
    let (q, f', run, number, is', keeps, same, at) =
      by_used f used free is p pos below here num l fuel used refl either enough in
    (q, f', run, number, is', keeps, p, here, same, at)

pub allocate_page_reused :
    (fuel : ℕ) (f : File) (used : List ℕ) (n : ℕ) (free : List ℕ)
    → IsFile f used (n ∷ free)
    → (¬ (used ≡ [])) ⊎ (free ≡ [])
    → length used ≤ fuel
    → (p : Page) × (f' : File) × (allocate_page fuel f ≡ (ok p, f'))
      × (page_number p ≡ n)
      × IsFile f' (insert_sorted n used) free
      × Keeps f f' n
      × (fp : Page) × (fetch f n ≡ some fp)
      × (p ≡ set_next_page_number (set_page_number fp n) (next_page_number p))
      × (fetch f' n ≡ some p)
allocate_page_reused fuel f used n free is either enough =
    let e : f.file_header.first_free_page ≡ n = is.free_links.0 in
    subst
      (λ k.
        (p : Page) × (f' : File) × (allocate_page fuel f ≡ (ok p, f'))
        × (page_number p ≡ k)
        × IsFile f' (insert_sorted k used) free
        × Keeps f f' k
        × (fp : Page) × (fetch f k ≡ some fp)
        × (p ≡ set_next_page_number (set_page_number fp k) (next_page_number p))
        × (fetch f' k ≡ some p))
      e (by_head fuel f used free (subst (λ k. IsFile f used (k ∷ free)) (sym e) is) either enough)

-- In a well-formed file in which a page is free, if some page is used or no other page is free,
-- allocatePage returns the first free page under its number, and the file is well-formed again: the
-- number is put in its place among the used pages, which stay in the order of their numbers, and is
-- no longer free. Fuel for each used page is enough.
pub allocate_page_reuse :
    (fuel : ℕ) (f : File) (used : List ℕ) (n : ℕ) (free : List ℕ)
    → IsFile f used (n ∷ free)
    → (¬ (used ≡ [])) ⊎ (free ≡ [])
    → length used ≤ fuel
    → (p : Page) × (f' : File) × (allocate_page fuel f ≡ (ok p, f'))
      × (page_number p ≡ n)
      × IsFile f' (insert_sorted n used) free
allocate_page_reuse fuel f used n free is either enough =
    let (p, f', run, number, is', keeps, fp, there, same, at) =
      allocate_page_reused fuel f used n free is either enough in
    (p, f', run, number, is')
