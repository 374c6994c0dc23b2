-- ===== src/Tests/Tables.antt =====
-- The hash table of src/bufHashTbl.cpp with five chains; keys 8 and 3 share one.
use hit_database_exp3p2_cpp.Base.{
  ℕ, zero, suc, ◌≡◌, refl, List, [], ◌∷◌, none, arith, get_or, replicate,
}
use hit_database_exp3p2_cpp.Result.{ok}
use hit_database_exp3p2_cpp.HashTable.{
  FileRef, HashBucket, BufHashTbl, new, hash, chain_at, fits, find, insert, lookup, delete_table,
}
use hit_database_exp3p2_cpp.HashTable.Chain.{Unique}
use hit_database_exp3p2_cpp.HashTable.Entries.{IsValid, new-IsValid}
use hit_database_exp3p2_cpp.HashTable.Destroy.{all_buckets, delete_table-all_buckets}
use hit_database_exp3p2_cpp.HashTable.Refines.{
  Call, inserts, removes, done, refused, calls, applies, answer, calls-applies,
}

abbrev file : FileRef
file = record { address = 0; filename = "test.1" }

abbrev empty : BufHashTbl
empty = new 5

empty-IsValid : IsValid empty
empty-IsValid = new-IsValid 5 (omega arith)

abbrev entry_8 : HashBucket
entry_8 = record { file = file; page_no = 8; frame_no = 41 }

-- One entry, for page 8.
abbrev single : BufHashTbl
single = record {
  htsize = 5;
  ht = [] ∷ [] ∷ [] ∷ (record { file = file; page_no = 8; frame_no = 41 } ∷ []) ∷ [] ∷ [];
}

single-made : insert empty file 8 41 ≡ ok single
unfolding new insert hash chain_at find fits replicate
single-made = refl

single-Unique : (i : ℕ) → Unique (get_or single.ht i [])
unfolding find
single-Unique zero = tt
single-Unique (suc zero) = tt
single-Unique (suc (suc zero)) = tt
single-Unique (suc (suc (suc zero))) = (refl, tt)
single-Unique (suc (suc (suc (suc zero)))) = tt
single-Unique (suc (suc (suc (suc (suc i))))) = tt

single-IsValid : IsValid single
single-IsValid = record { sized = refl; has_chain = omega arith; unique = single-Unique }

-- An insertion, the same one again, a removal, and one of a page that is not there.
abbrev some_calls : List Call
some_calls = inserts file 8 41 ∷ inserts file 8 42 ∷ removes file 8 ∷ removes file 3 ∷ []

calls-applies_example :
    ((calls some_calls (new 5)).1 ≡ (applies some_calls (λ a p. none)).1)
    × (lookup (calls some_calls (new 5)).0 file 8
        ≡ answer file 8 ((applies some_calls (λ a p. none)).0 file.address 8))
calls-applies_example = calls-applies some_calls 5 file 8 (omega arith)

outcomes : (applies some_calls (λ a p. none)).1 ≡ done ∷ refused ∷ done ∷ refused ∷ []
unfolding applies
outcomes = refl

delete_table-all_buckets_example : delete_table single ≡ (replicate 5 [], all_buckets single.ht)
delete_table-all_buckets_example = delete_table-all_buckets single single-IsValid
