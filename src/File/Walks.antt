-- ===== src/File/Walks.antt =====
-- The loops over the used pages in allocatePage and deletePage (src/file.cpp).
use hit_database_exp3p2_cpp.Base.{
  ℕ, zero, suc, ◌<◌, ◌≡◌, refl, ◌∙◌, ap, Bool, true, false, Option, some, List, [], ◌∷◌, ◌++◌,
  arith, length, ◌==◌, ==-ne,
}
use hit_database_exp3p2_cpp.Result.{Result, ok}
use hit_database_exp3p2_cpp.Page.{Page, PageHeader, page_number, next_page_number}
use hit_database_exp3p2_cpp.File.{Walk, walk}
use hit_database_exp3p2_cpp.File.Stream.{File, M, return, continue, ◌>>=◌, fetch, read_page_header}
use hit_database_exp3p2_cpp.File.Access.{read_page_lem, read_page_header_lem}
use hit_database_exp3p2_cpp.File.Relink.{Links-at}
use hit_database_exp3p2_cpp.File.Links.{Links, own}

-- The loop's test fails at the pages of `xs`, whose pointers lead on through `xs` and then to `y`.
abbrev pub Passes : (ℕ → Bool) → List ℕ → ℕ → Type 0
Passes t [] y = Unit {0}
Passes t (a ∷ []) y = t y ≡ false
Passes t (a ∷ b ∷ xs) y = (t b ≡ false) × Passes t (b ∷ xs) y

-- No page of a list but the last has a pointer 0.
pub Passes-tail :
    (disk : ℕ → Option Page) (top n : ℕ) (xs : List ℕ) (y : ℕ) (ys : List ℕ)
    → Links disk own top n (xs ++ y ∷ ys)
    → Passes (λ k. k == 0) xs y
Passes-tail disk top n [] y ys l = tt
Passes-tail disk top n (x ∷ []) y ys (a, b, c, q, d, t, l) =
    let pos = (Links-at disk own top (next_page_number q) [] y ys l).0 in ==-ne y 0 (omega arith)
Passes-tail disk top n (x ∷ z ∷ xs) y ys (a, b, c, q, d, t, l) =
    let pos = (Links-at disk own top (next_page_number q) [] z (xs ++ y ∷ ys) l).0 in
    (==-ne z 0 (omega arith), Passes-tail disk top (next_page_number q) (z ∷ xs) y ys l)

module _ (f : File) (good : f.good ≡ true) (t : ℕ → Bool) where
  abbrev test : Page → Bool
  test p = t (next_page_number p)

  abbrev LinksTo : ℕ → List ℕ → Type 0
  LinksTo n xs = Links (fetch f) own f.file_header.num_pages n xs

  -- What follows the test at page `x`.
  abbrev after : ℕ → ℕ → Page → Bool → M Walk
  after fuel x p true = return (record { last = p; found = true })
  after fuel x p false = do header ← read_page_header x; walk fuel test header.next_page_number p

  module _ (fuel x : ℕ) (last p : Page) (pos : 0 < x) (below : x < f.file_header.num_pages) where
    module _ (here : fetch f x ≡ some p) (own_number : page_number p ≡ x) where
      round : walk (suc fuel) test x last f ≡ after fuel x p (t (next_page_number p)) f
      unfolding walk
      round =
          rw (==-ne x 0 (omega arith), walk)
            (rw (read_page_lem f good x p here below (omega arith))
              (by_case (t (next_page_number p))))
        where
          by_case :
              (b : Bool)
              → (elim b as (λ _. M Walk) [
                | true ↦ return (record { last = p; found = true })
                | false ↦ do header ← read_page_header x; walk fuel test header.next_page_number p
              ])
                  f
                ≡ after fuel x p b f
          by_case true = refl
          by_case false = refl

      walk_on :
          t (next_page_number p) ≡ false
          → walk (suc fuel) test x last f ≡ walk fuel test (next_page_number p) p f
      walk_on off =
          round
          ∙ ap (λ b. after fuel x p b f) off
          ∙ ap
              (λ (r : Result PageHeader × File).
                continue r.0 r.1 (λ header. walk fuel test header.next_page_number p))
              (read_page_header_lem f good x p here)

      walk_found :
          t (next_page_number p) ≡ true
          → walk (suc fuel) test x last f ≡ (ok (record { last = p; found = true }), f)
      walk_found on = round ∙ ap (λ b. after fuel x p b f) on

  -- The loop stops at the first page that passes the test.
  pub walk_split :
      (fuel n : ℕ) (last : Page) (xs : List ℕ) (y : ℕ) (ys : List ℕ) (p : Page)
      → LinksTo n (xs ++ y ∷ ys)
      → Passes t xs y
      → fetch f y ≡ some p
      → t (next_page_number p) ≡ true
      → length xs < fuel
      → walk fuel test n last f ≡ (ok (record { last = p; found = true }), f)
  walk_split zero n last xs y ys p l ps e on enough = absurd (omega arith)
  walk_split (suc fuel) n last [] y ys p (a, b, c, q, d, num, l) ps e on enough =
      let same : p ≡ q = cc in
      rw a (walk_found fuel y last p b c e (ap (λ (r : Page). page_number r) same ∙ num) on)
  walk_split (suc fuel) n last (x ∷ []) y ys p (a, b, c, q, d, num, l) ps e on enough =
      let off : t (next_page_number q) ≡ false = ap t l.0 ∙ ps in
      rw a (
        walk_on fuel x last q b c d num off
        ∙ walk_split fuel (next_page_number q) q [] y ys p l tt e on (omega arith))
  walk_split (suc fuel) n last (x ∷ z ∷ xs) y ys p (a, b, c, q, d, num, l) ps e on enough =
      let off : t (next_page_number q) ≡ false = ap t l.0 ∙ ps.0 in
      rw a (
        walk_on fuel x last q b c d num off
        ∙ walk_split fuel (next_page_number q) q (z ∷ xs) y ys p l ps.1 e on (omega arith))
