-- ===== src/HashTable/Destroy.antt =====
-- The destructor of BufHashTbl (src/bufHashTbl.cpp).
use mathlib.Core.Path.{ap₂}
use mathlib.Core.List.{append-nil, append_assoc}
use hit_database_exp3p2_cpp.Base.{
  ℕ, ◌+◌, ◌≡◌, refl, sym, ◌∙◌, ap, List, [], ◌∷◌, ◌++◌, length, length-append, get_or, set,
  replicate,
}
use hit_database_exp3p2_cpp.HashTable.{
  HashBucket, BufHashTbl, delete_table, delete_chain, delete_chains,
}
use hit_database_exp3p2_cpp.HashTable.Entries.{IsValid}

-- The buckets of all chains, in order.
abbrev pub all_buckets : List (List HashBucket) → List HashBucket
all_buckets [] = []
all_buckets (c ∷ cs) = c ++ all_buckets cs

module _ {ℓ} {A : Type ℓ} where
  set_middle :
      (pre : List A) (a b : A) (rest : List A)
      → set (pre ++ a ∷ rest) (length pre) b ≡ pre ++ b ∷ rest
  set_middle [] a b rest = refl
  set_middle (x ∷ pre) a b rest = ap (λ xs. x ∷ xs) (set_middle pre a b rest)

  get_or-middle :
      (pre : List A) (a d : A) (rest : List A) → get_or (pre ++ a ∷ rest) (length pre) d ≡ a
  get_or-middle [] a d rest = refl
  get_or-middle (x ∷ pre) a d rest = get_or-middle pre a d rest

delete_chain_lem :
    (c : List HashBucket) (pre rest : List (List HashBucket)) (deleted : List HashBucket)
    → delete_chain (length pre) c (pre ++ c ∷ rest) deleted ≡ (pre ++ [] ∷ rest, deleted ++ c)
unfolding delete_chain
delete_chain_lem [] pre rest deleted =
    ap (λ (d : List HashBucket). (pre ++ [] ∷ rest, d)) (sym (append-nil deleted))
delete_chain_lem (b ∷ c) pre rest deleted = rw (set_middle pre (b ∷ c) c rest) (
    delete_chain_lem c pre rest (deleted ++ b ∷ [])
    ∙ ap (λ (d : List HashBucket). (pre ++ [] ∷ rest, d)) (append_assoc deleted (b ∷ []) c))

delete_chains_lem :
    (rest pre : List (List HashBucket)) (deleted : List HashBucket)
    → delete_chains (length rest) (length pre) (pre ++ rest) deleted
      ≡ (pre ++ replicate (length rest) [], deleted ++ all_buckets rest)
unfolding delete_chains replicate
delete_chains_lem [] pre deleted =
    ap (λ (d : List HashBucket). (pre ++ [], d)) (sym (append-nil deleted))
delete_chains_lem (c ∷ rest) pre deleted =
    let one : List (List HashBucket) = [] ∷ [] in
    let number : length pre + 1 ≡ length (pre ++ one) = sym (length-append pre one) in
    let step = delete_chains_lem rest (pre ++ one) (deleted ++ c) in
    ap
      (λ (s : List (List HashBucket) × List HashBucket).
        delete_chains (length rest) (length pre + 1) s.0 s.1)
      (ap (λ chain. delete_chain (length pre) chain (pre ++ c ∷ rest) deleted)
          (get_or-middle pre c [] rest)
        ∙ delete_chain_lem c pre rest deleted)
    ∙ ap₂ (λ (k : ℕ) (ht : List (List HashBucket)). delete_chains (length rest) k ht (deleted ++ c))
        number (sym (append_assoc pre one rest))
    ∙ step
    ∙ ap₂ (λ (ht : List (List HashBucket)) (d : List HashBucket). (ht, d))
        (append_assoc pre one (replicate (length rest) []))
        (append_assoc deleted c (all_buckets rest))

-- The destructor of a valid table deletes the buckets of all chains, each one once and chain by chain, and
-- leaves every chain empty.
pub delete_table-all_buckets :
    (t : BufHashTbl) → IsValid t → delete_table t ≡ (replicate t.htsize [], all_buckets t.ht)
unfolding delete_table
delete_table-all_buckets t v =
    ap (λ k. delete_chains k 0 t.ht []) (sym v.sized)
    ∙ delete_chains_lem t.ht [] []
    ∙ ap (λ k. (replicate k [], all_buckets t.ht)) v.sized
