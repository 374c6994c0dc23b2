-- ===== src/File/Leak.antt =====
-- allocatePage when no page is used and several are free: the page keeps the pointer that it has in
-- the free list (src/file.cpp).
use hit_database_exp3p2_cpp.Base.{
  ℕ, ◌<◌, ◌≡◌, ◌^◌, refl, sym, subst, ◌∙◌, ap, some, List, [], ◌∷◌, arith,
}
use hit_database_exp3p2_cpp.Result.{ok, throws}
use hit_database_exp3p2_cpp.Result.Exceptions.{invalid_page}
use hit_database_exp3p2_cpp.Page.{Page, next_page_number, initialize}
use hit_database_exp3p2_cpp.File.{allocate_page, read_page}
use hit_database_exp3p2_cpp.File.Stream.{File, fetch}
use hit_database_exp3p2_cpp.File.Access.{
  with_page, fetch-with_page_self, fetch-with_page_ne, fetch-with_header, read_page_unused,
}
use hit_database_exp3p2_cpp.File.Links.{IsFile}
use hit_database_exp3p2_cpp.File.Reuse.{taken, reused, at_head, reuse_first}
use hit_database_exp3p2_cpp.File.Reuse.Lists.{small, near}
use hit_database_exp3p2_cpp.File.Reuse.Runs.{to_reuse}

leak :
    (fuel : ℕ) (f : File) (m : ℕ) (free : List ℕ)
    → IsFile f [] (f.file_header.first_free_page ∷ m ∷ free)
    → (p : Page) × (f' : File) × (allocate_page fuel f ≡ (ok p, f'))
      × (f'.file_header.first_used_page ≡ f.file_header.first_free_page)
      × (fetch f' f.file_header.first_free_page ≡ some p)
      × (next_page_number p ≡ m)
      × (read_page m f'
          ≡ (throws (invalid_page (record { page_number = m; filename = f.filename })), f'))
unfolding initialize
leak fuel f m free is =
    let (a, pos, below, fp, here, num, l) = is.free_links in
    let s = is.small in
    let n = f.file_header.first_free_page in
    let small = small f [] (m ∷ free) is fp pos below here num l in
    let near = near f [] (m ∷ free) is fp pos below here num l in
    let q = reused f (m ∷ free) fp is.good here l is.counted in
    let h' = taken f (m ∷ free) fp is.good here l is.counted n in
    let (next, pos_m, below_m, r, there, unused, rest) = l in
    let small_m : m < 2 ^ 32 = omega arith in
    let f' : File = record (with_page f n q) { file_header = h' } in
    let there' : fetch f' m ≡ some r =
      ap (λ g. g m) (fetch-with_header (with_page f n q) h')
      ∙ fetch-with_page_ne f is.good n q pos small near m pos_m small_m is.distinct.0.0
      ∙ there in
    (
      q,
      f',
      to_reuse f [] (m ∷ free) is fp pos below here num l fuel
          (at_head f (m ∷ free) fp is.good here l is.counted q)
          (reuse_first f (m ∷ free) fp is.good here l is.counted fuel is.used_links),
      refl,
      ap (λ g. g n) (fetch-with_header (with_page f n q) h')
          ∙ fetch-with_page_self f is.good n q pos small,
      next,
      read_page_unused f' is.good m r there' below_m unused,
    )

-- In a well-formed file with no used page and at least two free pages, allocatePage
-- returns the first free page with its old pointer: the used list goes on from it to the second
-- free page, which readPage refuses with an InvalidPageException.
pub allocate_page_leaks :
    (fuel : ℕ) (f : File) (n m : ℕ) (free : List ℕ)
    → IsFile f [] (n ∷ m ∷ free)
    → (p : Page) × (f' : File) × (allocate_page fuel f ≡ (ok p, f'))
      × (f'.file_header.first_used_page ≡ n)
      × (fetch f' n ≡ some p)
      × (next_page_number p ≡ m)
      × (read_page m f'
          ≡ (throws (invalid_page (record { page_number = m; filename = f.filename })), f'))
allocate_page_leaks fuel f n m free is =
    let is' = subst (λ k. IsFile f [] (k ∷ m ∷ free)) (sym is.free_links.0) is in
    subst
      (λ k.
        (p : Page) × (f' : File) × (allocate_page fuel f ≡ (ok p, f'))
        × (f'.file_header.first_used_page ≡ k)
        × (fetch f' k ≡ some p)
        × (next_page_number p ≡ m)
        × (read_page m f'
            ≡ (throws (invalid_page (record { page_number = m; filename = f.filename })), f')))
      is.free_links.0 (leak fuel f m free is')
