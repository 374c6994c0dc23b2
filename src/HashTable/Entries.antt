-- ===== src/HashTable/Entries.antt =====
-- What the hash table of src/bufHashTbl.cpp promises: it is a finite map from (file, page) to frame.
use mathlib.Core.Path.{ap₂}
use hit_database_exp3p2_cpp.Base.{
  ℕ, ◌+◌, ◌%◌, ◌<◌, ◌≡◌, refl, ap, ◌∙◌, Option, none, some, List, [], arith, inl, inr, true,
  if◌then◌else◌, Option-cases, Bool-cases, ◌==◌, lt→ltb, ==-ne, length, get_or, set, length-set,
  get_or-set_self, get_or-set_ne, length-replicate, get_or-replicate,
}
use hit_database_exp3p2_cpp.Result.{ok, throws}
use hit_database_exp3p2_cpp.Result.Exceptions.{hash_not_found}
use hit_database_exp3p2_cpp.HashTable.{
  FileRef, HashBucket, BufHashTbl, new, hash, chain_at, find, lookup,
}
use hit_database_exp3p2_cpp.HashTable.Chain.{Unique, same_key, find_congr}

pub record IsValid (t : BufHashTbl) : Type 0 where
  pub sized : length t.ht ≡ t.htsize
  pub has_chain : 0 < t.htsize
  pub unique : (i : ℕ) → Unique (get_or t.ht i [])

abbrev pub home : BufHashTbl → FileRef → ℕ → ℕ
home t f p = (f.address + p) % t.htsize

-- The bucket that the table keeps for a key.
abbrev pub entry : BufHashTbl → FileRef → ℕ → Option HashBucket
entry t f p = find f p (get_or t.ht (home t f p) [])

module _ {t : BufHashTbl} (v : IsValid t) (f : FileRef) (p : ℕ) where
  pub home-lt : home t f p < length t.ht
  home-lt = omega (arith, v.sized, v.has_chain)

  pub hash-home : hash t f p ≡ ok (home t f p)
  unfolding hash
  hash-home = rw (==-ne t.htsize 0 (omega (arith, v.has_chain)))

  pub chain_at-home : chain_at t (home t f p) ≡ ok (get_or t.ht (home t f p) [])
  unfolding chain_at
  chain_at-home = rw (lt→ltb _ _ home-lt)

  pub lookup-none :
      entry t f p ≡ none
      → lookup t f p ≡ throws (hash_not_found (record { name = f.filename; page_no = p }))
  unfolding lookup
  lookup-none e = ground (arith, hash-home, chain_at-home)

  pub lookup-some : (b : HashBucket) → entry t f p ≡ some b → lookup t f p ≡ ok b.frame_no
  unfolding lookup
  lookup-some b e = ground (arith, hash-home, chain_at-home)

-- A table is read through `entry`: equal entries give equal answers.
pub lookup_congr :
    {t r : BufHashTbl} (v : IsValid t) (w : IsValid r) (g : FileRef) (q : ℕ)
    → entry r g q ≡ entry t g q
    → lookup r g q ≡ lookup t g q
lookup_congr {t} {r} v w g q e = elim (Option-cases (entry t g q)) [
  | inl gone ↦ rw (lookup-none v g q gone) (lookup-none w g q (e ∙ gone))
  | inr (b, here) ↦ rw (lookup-some v g q b here) (lookup-some w g q b (e ∙ here))
]

-- The table after a write of the home chain of a key.
abbrev pub write_home : BufHashTbl → FileRef → ℕ → List HashBucket → BufHashTbl
write_home t f p c = record t { ht = set t.ht (home t f p) c }

module _ {t : BufHashTbl} (v : IsValid t) (f : FileRef) (p : ℕ) (c : List HashBucket) where
  pub write_home-IsValid : Unique c → IsValid (write_home t f p c)
  write_home-IsValid u = record {
    sized = length-set t.ht _ c ∙ v.sized;
    has_chain = v.has_chain;
    unique = λ i. elim (Bool-cases (home t f p == i)) [
      | inl here ↦
          let e : home t f p ≡ i = ground arith in
          rw (← e) (rw (get_or-set_self t.ht (home t f p) c [] (home-lt v f p)) u)
      | inr away ↦ rw (get_or-set_ne t.ht (home t f p) i c [] (λ e. ground arith)) (v.unique i)
    ];
  }

  pub entry-write_home :
      (g : FileRef) (q : ℕ)
      → entry (write_home t f p c) g q
        ≡ (if home t f p == home t g q then find g q c else entry t g q)
  entry-write_home g q = ground (
    arith,
    get_or-set_self t.ht (home t f p) c [] (home-lt v f p),
    get_or-set_ne t.ht (home t f p) (home t g q) c [],
  )

-- Equal keys have one home and one entry.
pub same_key-entry :
    (t : BufHashTbl) (f g : FileRef) (p q : ℕ)
    → same_key f p g q ≡ true
    → (home t f p ≡ home t g q) × (entry t f p ≡ entry t g q)
same_key-entry t f g p q s =
    let a : f.address ≡ g.address = ground arith in
    let e : p ≡ q = ground arith in
    let h : home t f p ≡ home t g q = ap₂ (λ x y. (x + y) % t.htsize) a e in
    (
      h,
      find_congr f g p q (get_or t.ht (home t f p) []) a e
          ∙ ap (λ i. find g q (get_or t.ht i [])) h,
    )

-- A table made by the constructor holds no entry.
pub new-IsValid : (n : ℕ) → 0 < n → IsValid (new n)
unfolding new
new-IsValid n h = record {
  sized = length-replicate n [];
  has_chain = h;
  unique = λ i. rw (get_or-replicate {A = List HashBucket} n i []) tt;
}

-- A table that the constructor has made with at least one chain finds no key: `lookup` throws
-- HashNotFoundException with the file's name and the page.
pub lookup-new :
    (n : ℕ)
    → 0 < n
    → (f : FileRef) (p : ℕ)
    → lookup (new n) f p ≡ throws (hash_not_found (record { name = f.filename; page_no = p }))
unfolding new find
lookup-new n h f p =
    lookup-none (new-IsValid n h) f p
      (rw (get_or-replicate {A = List HashBucket} n (home (new n) f p) []) refl)
