-- ===== src/HashTable.antt =====
-- The buffer pool's hash table: src/bufHashTbl.h and src/bufHashTbl.cpp.
-- A bucket's chain of `next` pointers is a list; a file pointer is an address with the name that the
-- file object there answers. Memory does not run out.
pub mod Chain
pub mod Entries
pub mod Writes
pub mod Refines
pub mod Destroy
use hit_database_exp3p2_cpp.Base.{
  ℕ, zero, suc, ◌+◌, ◌%◌, ◌≡◌, refl, String, Bool, true, false, ◌&&◌, Option, none, some, List, [],
  ◌∷◌, ◌++◌, arith, ◌==◌, ltb, if◌then◌else◌, length, get_or, set, replicate,
}
use hit_database_exp3p2_cpp.Result.{Result, ok, throws, undefined, ◌>>=◌}
use hit_database_exp3p2_cpp.Result.Exceptions.{hash_already_present, hash_not_found}

-- A `File::sptr`: the address of the file object and its `filename()`.
pub record FileRef : Type 0 where
  pub address : ℕ
  pub filename : String

pub record HashBucket : Type 0 where
  pub file : FileRef
  pub page_no : ℕ
  pub frame_no : ℕ

pub record BufHashTbl : Type 0 where
  pub htsize : ℕ
  pub ht : List (List HashBucket)

-- The constructor: every chain is empty.
unfoldable pub new : ℕ → BufHashTbl
new ht_size = record { htsize = ht_size; ht = replicate ht_size [] }

-- `(tmp + pageNo) % HTSIZE`; a remainder by zero is undefined.
unfoldable pub hash : BufHashTbl → FileRef → ℕ → Result ℕ
hash t file page_no = if t.htsize == 0 then undefined else ok ((file.address + page_no) % t.htsize)

-- `ht[index]`.
unfoldable pub chain_at : BufHashTbl → ℕ → Result (List HashBucket)
chain_at t i = if ltb i (length t.ht) then ok (get_or t.ht i []) else undefined

-- The test that the three loops make at each bucket.
unfoldable pub fits : FileRef → ℕ → HashBucket → Bool
fits file page_no b = b.file.address == file.address && b.page_no == page_no

-- The loop of `insert` and of `lookup`: the first bucket that fits.
unfoldable pub find : FileRef → ℕ → List HashBucket → Option HashBucket
find file page_no [] = none
find file page_no (b ∷ bs) = if fits file page_no b then some b else find file page_no bs

-- The loop of `remove`: the chain without the first bucket that fits.
unfoldable pub unlink : FileRef → ℕ → List HashBucket → Option (List HashBucket)
unlink file page_no [] = none
unlink file page_no (b ∷ bs) =
    if fits file page_no b
    then some bs
    else elim (unlink file page_no bs) [ none ↦ none | some rest ↦ some (b ∷ rest) ]

unfoldable pub insert : BufHashTbl → FileRef → ℕ → ℕ → Result BufHashTbl
insert t file page_no frame_no = do
  index ← hash t file page_no
  chain ← chain_at t index
  elim (find file page_no chain) [
    | some b ↦ throws (
        hash_already_present
          (record { name = b.file.filename; page_no = b.page_no; frame_no = b.frame_no }))
    | none ↦ ok (record t {
      ht = set t.ht index (record { file = file; page_no = page_no; frame_no = frame_no } ∷ chain);
    })
  ]

unfoldable pub lookup : BufHashTbl → FileRef → ℕ → Result ℕ
lookup t file page_no = do
  index ← hash t file page_no
  chain ← chain_at t index
  elim (find file page_no chain) [
    | some b ↦ ok b.frame_no
    | none ↦ throws (hash_not_found (record { name = file.filename; page_no = page_no }))
  ]

unfoldable pub remove : BufHashTbl → FileRef → ℕ → Result BufHashTbl
remove t file page_no = do
  index ← hash t file page_no
  chain ← chain_at t index
  elim (unlink file page_no chain) [
    | some rest ↦ ok (record t { ht = set t.ht index rest })
    | none ↦ throws (hash_not_found (record { name = file.filename; page_no = page_no }))
  ]

-- The destructor's `while (ht[i])`, with what is left of the chain, the array, and the buckets that
-- were deleted, in order.
unfoldable pub delete_chain :
    ℕ
    → List HashBucket
    → List (List HashBucket)
    → List HashBucket
    → List (List HashBucket) × List HashBucket
delete_chain i [] ht deleted = (ht, deleted)
delete_chain i (b ∷ next) ht deleted = delete_chain i next (set ht i next) (deleted ++ b ∷ [])

-- Its loop over the array, with the rounds left and `i`.
unfoldable pub delete_chains :
    ℕ → ℕ → List (List HashBucket) → List HashBucket → List (List HashBucket) × List HashBucket
delete_chains zero i ht deleted = (ht, deleted)
delete_chains (suc rounds) i ht deleted =
    let (ht', deleted') = delete_chain i (get_or ht i []) ht deleted in
    delete_chains rounds (i + 1) ht' deleted'

unfoldable pub delete_table : BufHashTbl → List (List HashBucket) × List HashBucket
delete_table t = delete_chains t.htsize 0 t.ht []
