-- ===== src/Page/Stacked/Records.antt =====
-- The records of a page slot by slot, and what insertRecord of src/page.cpp does to them.
use hit_database_exp3p2_cpp.Base.{
  ℕ, ◌+◌, ◌<◌, ◌≡◌, refl, ◌∙◌, List, [], ◌∷◌, ◌++◌, arith, length, get_or, zero, suc, subst,
}
use hit_database_exp3p2_cpp.Page.{Page, set_next_page_number}
use hit_database_exp3p2_cpp.Page.Valid.{Holds, record_of}
use hit_database_exp3p2_cpp.Page.InsertInSlot.{Inserted}
use hit_database_exp3p2_cpp.Page.Iterator.{records_from}

-- The slots from `i` on hold the records, in order.
abbrev pub Lists : Page → ℕ → List (List ℕ) → Type 0
Lists p i [] = Unit {0}
Lists p i (r ∷ rs) = Holds p i × (record_of p i ≡ r) × Lists p (i + 1) rs

pub Lists-Inserted :
    {p q : Page} {k : ℕ} {r : List ℕ}
    → Inserted p k r q
    → (rs : List (List ℕ)) (i : ℕ) → Lists p i rs
    → Lists q i rs
Lists-Inserted inserted [] i l = tt
Lists-Inserted inserted (s ∷ rs) i (h, e, l) =
    let (h', e') = inserted.keeps i h in (h', e' ∙ e, Lists-Inserted inserted rs (i + 1) l)

pub Lists-snoc :
    (q : Page) (rs : List (List ℕ)) (i k : ℕ) (r : List ℕ)
    → Lists q i rs
    → i + length rs ≡ k
    → Holds q k
    → record_of q k ≡ r
    → Lists q i (rs ++ r ∷ [])
Lists-snoc q [] i k r l e h read =
    let e' : k ≡ i = omega arith in
    (subst (λ n. Holds q n) e' h, subst (λ n. record_of q n ≡ r) e' read, tt)
Lists-snoc q (s ∷ rs) i k r (h0, e0, l) e h read =
    (h0, e0, Lists-snoc q rs (i + 1) k r l (omega arith) h read)

pub Lists-records_from :
    (p : Page) (rs : List (List ℕ)) (i : ℕ) → Lists p i rs → records_from p (length rs) i ≡ rs
Lists-records_from p [] i l = refl
Lists-records_from p (r ∷ rs) i (h, e, l) = rw (h.2, e, Lists-records_from p rs (i + 1) l) refl

pub Lists-at :
    (p : Page) (rs : List (List ℕ)) (i j : ℕ)
    → Lists p i rs
    → j < length rs
    → Holds p (i + j) × (record_of p (i + j) ≡ get_or rs j [])
Lists-at p [] i j l below = absurd (omega arith)
Lists-at p (r ∷ rs) i zero (h, e, l) below =
    let same : i ≡ i + 0 = omega arith in
    (subst (λ n. Holds p n) same h, subst (λ n. record_of p n ≡ r) same e)
Lists-at p (r ∷ rs) i (suc j) (h, e, l) below =
    let same : i + 1 + j ≡ i + suc j = omega arith in
    let (h', e') = Lists-at p rs (i + 1) j l (omega arith) in
    (subst (λ n. Holds p n) same h', subst (λ n. record_of p n ≡ get_or rs j []) same e')

-- The pointer to the next page has no part in the records.
pub Lists-pointer :
    (q : Page) (k : ℕ) (rs : List (List ℕ)) (i : ℕ)
    → Lists q i rs
    → Lists (set_next_page_number q k) i rs
Lists-pointer q k [] i l = tt
Lists-pointer q k (r ∷ rs) i (h, e, l) = (h, e, Lists-pointer q k rs (i + 1) l)
