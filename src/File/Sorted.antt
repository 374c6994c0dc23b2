-- ===== src/File/Sorted.antt =====
-- The place of a page among used pages in the order of their numbers (allocatePage, src/file.cpp).
use hit_database_exp3p2_cpp.Base.{
  ℕ, ◌+◌, ◌<◌, ◌≡◌, refl, sym, ◌∙◌, ap, Option, List, [], ◌∷◌, ◌++◌, arith, length, true, false,
  Bool, ltb, ◌==◌, ◌||◌, if◌then◌else◌, Bool-cases, inl, inr,
}
use hit_database_exp3p2_cpp.Page.{Page}
use hit_database_exp3p2_cpp.File.Links.{Links, Ascending, NotIn}
use hit_database_exp3p2_cpp.File.Walks.{Passes}

-- A page's number put in its place among numbers that ascend.
unfoldable pub insert_sorted : ℕ → List ℕ → List ℕ
insert_sorted n [] = n ∷ []
insert_sorted n (x ∷ xs) = if ltb n x then n ∷ x ∷ xs else x ∷ insert_sorted n xs

pub length-insert_sorted : (n : ℕ) (xs : List ℕ) → length (insert_sorted n xs) ≡ length xs + 1
unfolding insert_sorted
length-insert_sorted n [] = refl
length-insert_sorted n (x ∷ xs) =
    let e = length-insert_sorted n xs in
    elim (Bool-cases (ltb n x)) [
      | inl less ↦ rw less (omega arith)
      | inr more ↦ rw more (omega arith)
    ]

pub insert_sorted-Ascending :
    (lo n : ℕ) (xs : List ℕ)
    → lo < n
    → NotIn n xs
    → Ascending lo xs
    → Ascending lo (insert_sorted n xs)
unfolding insert_sorted
insert_sorted-Ascending lo n [] h out a = (h, tt)
insert_sorted-Ascending lo n (x ∷ xs) h out a = elim (Bool-cases (ltb n x)) [
  | inl less ↦ rw less (h, (ground arith, a.1))
  | inr more ↦
      rw more (a.0, insert_sorted-Ascending x n xs (let ne = out.0 in ground arith) out.1 a.1)
]

-- What the pointer to a list holds.
abbrev pub head : List ℕ → ℕ
head [] = 0
head (x ∷ xs) = x

pub Links-head :
    (disk : ℕ → Option Page) (tag : ℕ → ℕ) (top k : ℕ) (xs : List ℕ)
    → Links disk tag top k xs
    → k ≡ head xs
Links-head disk tag top k [] l = l
Links-head disk tag top k (x ∷ xs) l = l.0

-- The loop's test at a page with pointer `k`.
abbrev pub stops : ℕ → ℕ → Bool
stops n k = ltb n k || k == 0

Passes-cons :
    (t : ℕ → Bool) (x z : ℕ) (zs xs : List ℕ) (y : ℕ) (ys : List ℕ)
    → z ∷ zs ≡ xs ++ y ∷ ys
    → t z ≡ false
    → Passes t xs y
    → Passes t (x ∷ xs) y
Passes-cons t x z zs [] y ys e off ps = ap (λ us. t (head us)) (sym e) ∙ off
Passes-cons t x z zs (b ∷ xs) y ys e off ps = (ap (λ us. t (head us)) (sym e) ∙ off, ps)

-- The page behind which `n` goes.
abbrev pub Place : ℕ → List ℕ → Type 0
Place n used =
    (xs : List ℕ) × (y : ℕ) × (ys : List ℕ) × (used ≡ xs ++ y ∷ ys)
    × Passes (stops n) xs y
    × (stops n (head ys) ≡ true)
    × (insert_sorted n used ≡ xs ++ y ∷ n ∷ ys)

pub place : (n x : ℕ) (xs : List ℕ) → Ascending 0 (x ∷ xs) → ltb n x ≡ false → Place n (x ∷ xs)
unfolding insert_sorted
place n x [] a off = ([], x, [], refl, tt, ground arith, rw off refl)
place n x (z ∷ zs) a off = elim (Bool-cases (ltb n z)) [
  | inl less ↦ ([], x, z ∷ zs, refl, tt, rw less refl, rw (off, less) refl)
  | inr more ↦
      let (xs, y, ys, e, ps, on, ins) = place n z zs (omega arith, a.1.1) more in
      (
        x ∷ xs,
        y,
        ys,
        ap (λ us. x ∷ us) e,
        Passes-cons (stops n) x z zs xs y ys e (ground arith) ps,
        on,
        rw off (ap (λ us. x ∷ us) ins),
      )
]
