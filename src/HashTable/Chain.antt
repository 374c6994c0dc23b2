-- ===== src/HashTable/Chain.antt =====
-- One chain of the hash table: the loops of src/bufHashTbl.cpp over it.
use hit_database_exp3p2_cpp.Base.{
  ℕ, ◌≡◌, refl, Bool, ◌&&◌, none, some, List, [], ◌∷◌, arith, inl, inr, if◌then◌else◌, ◌==◌,
  Bool-cases, Option-cases,
}
use hit_database_exp3p2_cpp.HashTable.{FileRef, HashBucket, fits, find, unlink}

-- No two buckets of the chain have one key.
abbrev pub Unique : List HashBucket → Type 0
Unique [] = Unit {0}
Unique (b ∷ bs) = (find b.file b.page_no bs ≡ none) × Unique bs

-- Two keys of which the first is that of a bucket: the other fits it just when the keys fit.
pub find_congr :
    (f g : FileRef) (p q : ℕ) (bs : List HashBucket)
    → f.address ≡ g.address
    → p ≡ q
    → find f p bs ≡ find g q bs
unfolding find fits
find_congr f g p q [] a e = refl
find_congr f g p q (b ∷ bs) a e = ground (arith, find_congr f g p q bs)

-- Whether two keys are one.
abbrev pub same_key : FileRef → ℕ → FileRef → ℕ → Bool
same_key f p g q = f.address == g.address && p == q

pub unlink-eq-none :
    (f : FileRef) (p : ℕ) (bs : List HashBucket) → find f p bs ≡ none → unlink f p bs ≡ none
unfolding find unlink
unlink-eq-none f p [] h = refl
unlink-eq-none f p (b ∷ bs) h = ground (arith, unlink-eq-none f p bs)

pub unlink_total :
    (f : FileRef) (p : ℕ) (bs : List HashBucket) (b : HashBucket)
    → find f p bs ≡ some b
    → (rest : List HashBucket) × (unlink f p bs ≡ some rest)
unfolding find unlink
unlink_total f p [] b h = cc
unlink_total f p (c ∷ bs) b h = elim (Bool-cases (fits f p c)) [
  | inl hit ↦ (bs, rw hit)
  | inr miss ↦ let (rest, e) = unlink_total f p bs b (rw miss at h) in (c ∷ rest, rw (miss, e))
]

pub find-unlink :
    (f g : FileRef) (p q : ℕ) (bs rest : List HashBucket)
    → Unique bs
    → unlink f p bs ≡ some rest
    → find g q rest ≡ (if same_key f p g q then none else find g q bs)
unfolding find unlink fits
find-unlink f g p q [] rest u e = cc
find-unlink f g p q (b ∷ bs) rest u e = elim (Option-cases (unlink f p bs)) [
  | inl gone ↦ ground (arith, find_congr b.file g b.page_no q bs)
  | inr (rest', e') ↦
      ground (arith, find_congr b.file g b.page_no q bs, find-unlink f g p q bs rest' u.1 e')
]

pub unlink-Unique :
    (f : FileRef) (p : ℕ) (bs rest : List HashBucket)
    → Unique bs
    → unlink f p bs ≡ some rest
    → Unique rest
unfolding unlink
unlink-Unique f p [] rest u e = cc
unlink-Unique f p (b ∷ bs) rest u e = elim (Bool-cases (fits f p b)) [
  | inl hit ↦ let e' : bs ≡ rest = ground arith in rw (← e') u.1
  | inr miss ↦ elim (Option-cases (unlink f p bs)) [
    | inl gone ↦ ground arith
    | inr (rest', e') ↦
        let e'' : b ∷ rest' ≡ rest = ground arith in
        rw (← e'') (
          ground (arith, find-unlink f b.file p b.page_no bs rest' u.1 e'),
          unlink-Unique f p bs rest' u.1 e',
        )
  ]
]
