-- ===== src/File/Cycle.antt =====
-- deletePage and allocatePage one after the other (src/file.cpp).
use hit_database_exp3p2_cpp.Base.{
  ℕ, ◌≤◌, ◌<◌, ◌≡◌, ap, ◌∙◌, subst, ◌⊎◌, List, [], ◌∷◌, ◌++◌, arith, length, refl,
}
use hit_database_exp3p2_cpp.Result.{ok}
use hit_database_exp3p2_cpp.Page.{
  Page, set_page_number, set_next_page_number, initialize, next_page_number,
}
use hit_database_exp3p2_cpp.File.{allocate_page, delete_page}
use hit_database_exp3p2_cpp.File.Stream.{File}
use hit_database_exp3p2_cpp.File.Links.{IsFile, Ascending}
use hit_database_exp3p2_cpp.File.Relink.{length-append_le}
use hit_database_exp3p2_cpp.File.Sorted.{insert_sorted}
use hit_database_exp3p2_cpp.File.Reused.{allocate_page_reused}
use hit_database_exp3p2_cpp.File.Remove.{delete_page_freed}

above : (lo n : ℕ) (xs ys : List ℕ) → Ascending lo (xs ++ n ∷ ys) → lo < n
above lo n [] ys a = a.0
above lo n (x ∷ xs) ys a = let h = above x n xs ys a.1 in let l = a.0 in omega arith

-- A number taken out of numbers that ascend goes back to its place.
insert_sorted-append :
    (lo n : ℕ) (xs ys : List ℕ)
    → Ascending lo (xs ++ n ∷ ys)
    → insert_sorted n (xs ++ ys) ≡ xs ++ n ∷ ys
unfolding insert_sorted
insert_sorted-append lo n [] [] a = refl
insert_sorted-append lo n [] (y ∷ ys) a = let h = a.1.0 in ground arith
insert_sorted-append lo n (x ∷ xs) ys a =
    let less = above x n xs ys a.1 in let rest = insert_sorted-append x n xs ys a.1 in ground arith

-- In a well-formed file, allocatePage after deletePage of a used page, if another page is used or no
-- page was free, returns an empty page with the number of the deleted one; the used pages, in their order,
-- and the free pages are again those before deletePage. Fuel for each other used page is enough.
pub allocate_page-delete_page :
    (fuel : ℕ) (f : File) (n : ℕ) (xs ys free : List ℕ)
    → IsFile f (xs ++ n ∷ ys) free
    → (¬ (xs ++ ys ≡ [])) ⊎ (free ≡ [])
    → length (xs ++ ys) ≤ fuel
    → (f₁ f₂ : File) × (p : Page) × (delete_page fuel n f ≡ (ok tt, f₁))
      × (allocate_page fuel f₁ ≡ (ok p, f₂))
      × (p ≡ set_next_page_number (set_page_number initialize n) (next_page_number p))
      × IsFile f₂ (xs ++ n ∷ ys) free
allocate_page-delete_page fuel f n xs ys free is either enough =
    let le = length-append_le xs ys in
    let (f₁, del, is₁, keeps₁, cleared) = delete_page_freed fuel f n xs ys free is (omega arith) in
    let (p, f₂, alloc, number, is₂, keeps₂, fp, there, same, at) =
      allocate_page_reused fuel f₁ (xs ++ ys) n free is₁ either enough in
    let back : insert_sorted n (xs ++ ys) ≡ xs ++ n ∷ ys =
      insert_sorted-append 0 n xs ys is.ascending in
    let e : fp ≡ set_next_page_number initialize f.file_header.first_free_page = cc in
    (
      f₁,
      f₂,
      p,
      del,
      alloc,
      same ∙ ap (λ (r : Page). set_next_page_number (set_page_number r n) (next_page_number p)) e,
      subst (λ us. IsFile f₂ us free) back is₂,
    )
