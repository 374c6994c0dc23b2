-- ===== src/File/Written.antt =====
-- The lists after pages are written (allocatePage and deletePage, src/file.cpp).
use hit_database_exp3p2_cpp.Base.{
  ℕ, ◌+◌, ◌≤◌, ◌<◌, ◌≡◌, ◌^◌, ◌∙◌, some, List, ◌∷◌, ◌++◌, arith, length, true,
}
use hit_database_exp3p2_cpp.Page.{Page, page_number, next_page_number}
use hit_database_exp3p2_cpp.File.Stream.{File, fetch}
use hit_database_exp3p2_cpp.File.Access.{with_page, fetch-with_page_self, fetch-with_page_ne}
use hit_database_exp3p2_cpp.File.Links.{Links, NotIn, Distinct, own, NotIn-append, Links-frame}
use hit_database_exp3p2_cpp.File.Relink.{link_in, link_out, NotIn-middle}

-- A write to one page of a file whose pages lie below `top`.
module _ (f : File) (good : f.good ≡ true) (top z : ℕ) (q : Page) (pos : 0 < z) (small : z < 2 ^ 32)
    (narrow : top ≤ 2 ^ 32) (near : z ≤ length f.pages + 1) where
  others : (x : ℕ) → 0 < x → x < top → ¬ (z ≡ x) → fetch (with_page f z q) x ≡ fetch f x
  others x a b ne = fetch-with_page_ne f good z q pos small near x a (omega arith) ne

  -- A list without the page stays.
  pub Links-with_page :
      (tag : ℕ → ℕ) (top' n : ℕ) (xs : List ℕ)
      → top ≤ top'
      → NotIn z xs
      → Links (fetch f) tag top n xs
      → Links (fetch (with_page f z q)) tag top' n xs
  Links-with_page tag top' n xs h out l =
      Links-frame (fetch f) (fetch (with_page f z q)) tag top top' n xs z h others out l

  -- The list gets a page behind the one whose pointer is changed to it.
  pub Links-with_page_in :
      (n y : ℕ) (p r : Page) (xs ys : List ℕ)
      → fetch f z ≡ some p
      → page_number q ≡ page_number p
      → Links (fetch f) own top n (xs ++ z ∷ ys)
      → Distinct (xs ++ z ∷ ys)
      → 0 < y
      → y < top
      → ¬ (z ≡ y)
      → fetch f y ≡ some r
      → page_number r ≡ y
      → next_page_number r ≡ next_page_number p
      → next_page_number q ≡ y
      → Links (fetch (with_page f z q)) own top n (xs ++ z ∷ y ∷ ys)
  Links-with_page_in n y p r xs ys before number l distinct py by ne here num onward pointer =
      link_in (fetch f) (fetch (with_page f z q)) top z p q others before
        (fetch-with_page_self f good z q pos small) number n y r xs ys l distinct py by
        (others y py by ne ∙ here) num onward pointer
        (NotIn-append z xs ys (NotIn-middle xs z ys distinct)).1

  -- The list loses the page behind the one whose pointer is moved on.
  pub Links-with_page_out :
      (n y : ℕ) (p r : Page) (xs ys : List ℕ)
      → fetch f z ≡ some p
      → page_number q ≡ page_number p
      → Links (fetch f) own top n (xs ++ z ∷ y ∷ ys)
      → Distinct (xs ++ z ∷ y ∷ ys)
      → fetch f y ≡ some r
      → next_page_number q ≡ next_page_number r
      → Links (fetch (with_page f z q)) own top n (xs ++ z ∷ ys)
  Links-with_page_out n y p r xs ys before number l distinct here pointer =
      link_out (fetch f) (fetch (with_page f z q)) top z p q others before
        (fetch-with_page_self f good z q pos small) number n y xs ys l distinct r here pointer
        ((NotIn-append z xs (y ∷ ys) (NotIn-middle xs z (y ∷ ys) distinct)).1).1
