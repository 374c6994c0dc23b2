-- ===== src/File/Relink.antt =====
-- The used list after the pointer of one of its pages is changed (allocatePage and deletePage,
-- src/file.cpp).
use hit_database_exp3p2_cpp.Base.{
  ℕ, ◌+◌, ◌≤◌, ◌<◌, ◌≡◌, refl, sym, subst, ◌∙◌, ap, Option, some, List, [], ◌∷◌, ◌++◌, arith,
  length,
}
use hit_database_exp3p2_cpp.Page.{Page, page_number, next_page_number}
use hit_database_exp3p2_cpp.File.Links.{
  Links, Ascending, NotIn, Distinct, own, NotIn-above, NotIn-append, Links-frame,
}

-- A list that is not empty has a last element.
pub snoc : (x : ℕ) (xs : List ℕ) → (ys : List ℕ) × (y : ℕ) × (x ∷ xs ≡ ys ++ y ∷ [])
snoc x [] = ([], x, refl)
snoc x (z ∷ xs) = let (ys, y, e) = snoc z xs in (x ∷ ys, y, ap (λ zs. x ∷ zs) e)

pub length-snoc : (xs : List ℕ) (y : ℕ) → length (xs ++ y ∷ []) ≡ length xs + 1
length-snoc [] y = refl
length-snoc (x ∷ xs) y = let e = length-snoc xs y in omega arith

pub assoc : (xs : List ℕ) (y : ℕ) (zs : List ℕ) → (xs ++ y ∷ []) ++ zs ≡ xs ++ y ∷ zs
assoc [] y zs = refl
assoc (x ∷ xs) y zs = ap (λ ys. x ∷ ys) (assoc xs y zs)

-- The length of a list with one more in the middle.
pub length-middle :
    (xs : List ℕ) (n : ℕ) (ys : List ℕ) → length (xs ++ n ∷ ys) ≡ length (xs ++ ys) + 1
length-middle [] n ys = omega arith
length-middle (x ∷ xs) n ys = let e = length-middle xs n ys in omega arith

pub length-append_le : (xs ys : List ℕ) → length xs ≤ length (xs ++ ys)
length-append_le [] ys = omega arith
length-append_le (x ∷ xs) ys = let rest = length-append_le xs ys in omega arith

pub Ascending-Distinct : (lo : ℕ) (xs : List ℕ) → Ascending lo xs → Distinct xs
Ascending-Distinct lo [] a = tt
Ascending-Distinct lo (x ∷ xs) a =
    (NotIn-above x x xs (omega arith) a.1, Ascending-Distinct x xs a.1)

pub Ascending-weaken : (lo lo' : ℕ) (xs : List ℕ) → lo' ≤ lo → Ascending lo xs → Ascending lo' xs
Ascending-weaken lo lo' [] h a = tt
Ascending-weaken lo lo' (x ∷ xs) h a = (omega arith, a.1)

pub Ascending-remove :
    (lo : ℕ) (xs : List ℕ) (z : ℕ) (ys : List ℕ)
    → Ascending lo (xs ++ z ∷ ys)
    → Ascending lo (xs ++ ys)
Ascending-remove lo [] z ys a = Ascending-weaken z lo ys (omega arith) a.1
Ascending-remove lo (x ∷ xs) z ys a = (a.0, Ascending-remove x xs z ys a.1)

pub Ascending-snoc :
    (lo : ℕ) (disk : ℕ → Option Page) (top n : ℕ) (xs : List ℕ)
    → lo < top
    → Links disk own top n xs
    → Ascending lo xs
    → Ascending lo (xs ++ top ∷ [])
Ascending-snoc lo disk top n [] h l a = (h, tt)
Ascending-snoc lo disk top n (x ∷ xs) h (_, _, c, q, _, _, l) a =
    (a.0, Ascending-snoc x disk top (next_page_number q) xs c l a.1)

-- What stands in the middle of a list without repetition stands nowhere else.
pub NotIn-middle :
    (xs : List ℕ) (z : ℕ) (ys : List ℕ) → Distinct (xs ++ z ∷ ys) → NotIn z (xs ++ ys)
NotIn-middle [] z ys d = d.0
NotIn-middle (x ∷ xs) z ys d =
    (λ e. (NotIn-append x xs (z ∷ ys) d.0).1.0 (sym e), NotIn-middle xs z ys d.1)

-- The pages of a list are there.
pub Links-at :
    (disk : ℕ → Option Page) (tag : ℕ → ℕ) (top n : ℕ) (xs : List ℕ) (y : ℕ) (ys : List ℕ)
    → Links disk tag top n (xs ++ y ∷ ys)
    → (0 < y)
      × (y < top)
      × (p : Page) × (disk y ≡ some p)
      × (page_number p ≡ tag y)
      × Links disk tag top (next_page_number p) ys
Links-at disk tag top n [] y ys (a, b, c, q, d, t, l) = (b, c, q, d, t, l)
Links-at disk tag top n (x ∷ xs) y ys (a, b, c, q, d, t, l) =
    Links-at disk tag top (next_page_number q) xs y ys l

pub Links-pos :
    (disk : ℕ → Option Page) (tag : ℕ → ℕ) (top n : ℕ) (xs : List ℕ) (y : ℕ) (ys : List ℕ)
    → Links disk tag top n (xs ++ y ∷ ys)
    → 0 < n
Links-pos disk tag top n [] y ys (a, b, c, q, d, t, l) = omega arith
Links-pos disk tag top n (x ∷ xs) y ys (a, b, c, q, d, t, l) = omega arith

module _ (disk disk' : ℕ → Option Page) (top y : ℕ) (p p' : Page)
    (same : (x : ℕ) → 0 < x → x < top → ¬ (y ≡ x) → disk' x ≡ disk x) (before : disk y ≡ some p)
    (after : disk' y ≡ some p') (number : page_number p' ≡ page_number p) where
  -- A list whose page `y` gets a pointer from which `zs` is reached.
  pub relink :
      (n : ℕ) (xs ys zs : List ℕ)
      → Links disk own top n (xs ++ y ∷ ys)
      → Distinct (xs ++ y ∷ ys)
      → (Links disk own top (next_page_number p) ys → Links disk' own top (next_page_number p') zs)
      → Links disk' own top n (xs ++ y ∷ zs)
  relink n [] ys zs (a, b, c, q, d, t, l) distinct tail =
      let pq : q ≡ p = cc in
      (
        a,
        b,
        c,
        p',
        after,
        number ∙ ap (λ (r : Page). page_number r) (sym pq) ∙ t,
        tail (subst (λ r. Links disk own top (next_page_number r) ys) pq l),
      )
  relink n (x ∷ xs) ys zs (a, b, c, q, d, t, l) distinct tail =
      let ne : ¬ (y ≡ x) = λ e. (NotIn-append x xs (y ∷ ys) distinct.0).1.0 (sym e) in
      (a, b, c, q, same x b c ne ∙ d, t, relink (next_page_number q) xs ys zs l distinct.1 tail)

  -- A page is linked in behind `y`.
  pub link_in :
      (n z : ℕ) (q : Page) (xs ys : List ℕ)
      → Links disk own top n (xs ++ y ∷ ys)
      → Distinct (xs ++ y ∷ ys)
      → 0 < z
      → z < top
      → disk' z ≡ some q
      → page_number q ≡ z
      → next_page_number q ≡ next_page_number p
      → next_page_number p' ≡ z
      → NotIn y ys
      → Links disk' own top n (xs ++ y ∷ z ∷ ys)
  link_in n z q xs ys l distinct pos below here num onward pointer out =
      relink n xs ys (z ∷ ys) l distinct (λ rest. (
        pointer,
        pos,
        below,
        q,
        here,
        num,
        subst (λ k. Links disk' own top k ys) (sym onward)
            (Links-frame disk disk' own top top (next_page_number p) ys y (omega arith) same out
              rest),
      ))

  -- The page behind `y` is taken out.
  pub link_out :
      (n z : ℕ) (xs ys : List ℕ)
      → Links disk own top n (xs ++ y ∷ z ∷ ys)
      → Distinct (xs ++ y ∷ z ∷ ys)
      → (q : Page) → disk z ≡ some q
      → next_page_number p' ≡ next_page_number q
      → NotIn y ys
      → Links disk' own top n (xs ++ y ∷ ys)
  link_out n z xs ys l distinct q here pointer out =
      relink n xs (z ∷ ys) ys l distinct (λ (a, b, c, r, d, t, rest).
        let rq : r ≡ q = cc in
        subst (λ k. Links disk' own top k ys)
          (ap (λ (s : Page). next_page_number s) rq ∙ sym pointer)
          (Links-frame disk disk' own top top (next_page_number r) ys y (omega arith) same out
            rest))
