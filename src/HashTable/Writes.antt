-- ===== src/HashTable/Writes.antt =====
-- `insert` and `remove` of src/bufHashTbl.cpp against the finite map that the table stands for.
use hit_database_exp3p2_cpp.Base.{
  ℕ, ◌≡◌, ◌∙◌, sym, ap, Option, none, some, List, [], ◌∷◌, arith, inl, inr, if◌then◌else◌,
  Option-cases, get_or,
}
use hit_database_exp3p2_cpp.Result.{Result, ok, throws, Returns}
use hit_database_exp3p2_cpp.Result.Exceptions.{hash_already_present, hash_not_found}
use hit_database_exp3p2_cpp.HashTable.{
  FileRef, HashBucket, BufHashTbl, find, fits, unlink, insert, lookup, remove,
}
use hit_database_exp3p2_cpp.HashTable.Chain.{
  same_key, unlink-eq-none, unlink_total, find-unlink, unlink-Unique,
}
use hit_database_exp3p2_cpp.HashTable.Entries.{
  IsValid, home, entry, hash-home, chain_at-home, lookup-none, lookup-some, write_home,
  write_home-IsValid, entry-write_home, same_key-entry,
}

-- The exception of a lookup that finds nothing.
abbrev pub not_found {ℓ} : {A : Type ℓ} → FileRef → ℕ → Result A
not_found f p = throws (hash_not_found (record { name = f.filename; page_no = p }))

-- What the table answers for a key, as the answer that an entry gives.
abbrev pub answer : FileRef → ℕ → Option HashBucket → Result ℕ
answer f p none = not_found f p
answer f p (some b) = ok b.frame_no

lookup-answer :
    {t : BufHashTbl} (v : IsValid t) (f : FileRef) (p : ℕ) → lookup t f p ≡ answer f p (entry t f p)
lookup-answer {t} v f p = elim (Option-cases (entry t f p)) [
  | inl e ↦ lookup-none v f p e ∙ sym (ap (answer f p) e)
  | inr (b, e) ↦ lookup-some v f p b e ∙ sym (ap (answer f p) e)
]

module _ {t : BufHashTbl} (v : IsValid t) (f : FileRef) (p n : ℕ) where
  abbrev new_bucket : HashBucket
  new_bucket = record { file = f; page_no = p; frame_no = n }

  abbrev grown : BufHashTbl
  grown = write_home t f p (new_bucket ∷ get_or t.ht (home t f p) [])

  insert-grown : entry t f p ≡ none → insert t f p n ≡ ok grown
  unfolding insert
  insert-grown e = ground (arith, hash-home v f p, chain_at-home v f p)

  grown-IsValid : entry t f p ≡ none → IsValid grown
  grown-IsValid e = write_home-IsValid v f p _ (e, v.unique (home t f p))

  entry-grown :
      (g : FileRef) (q : ℕ)
      → entry grown g q ≡ (if same_key f p g q then some new_bucket else entry t g q)
  unfolding find fits
  entry-grown g q =
      entry-write_home v f p (new_bucket ∷ get_or t.ht (home t f p) []) g q
      ∙ ground (arith, same_key-entry t f g p q)

  -- On a valid table with no entry for (file, page), `insert` succeeds; the table stays valid,
  -- the key is answered by the new frame, and every other key is answered as before.
  pub insert_absent :
      entry t f p ≡ none
      → Returns (insert t f p n) λ r.
        IsValid r
        × ((g : FileRef) (q : ℕ) → lookup r g q ≡ (if same_key f p g q then ok n else lookup t g q))
  insert_absent e = (
    grown,
    insert-grown e,
    (
      grown-IsValid e,
      λ g q.
          lookup-answer (grown-IsValid e) g q
          ∙ (rw (entry-grown g q) (ground (arith, lookup-answer v g q))),
    ),
  )

  -- On a valid table that has an entry for (file, page), `insert` throws
  -- HashAlreadyPresentException with the name, the page and the frame of that entry.
  pub insert_present :
      (b : HashBucket)
      → entry t f p ≡ some b
      → insert t f p n
        ≡ throws (
            hash_already_present
              (record { name = b.file.filename; page_no = b.page_no; frame_no = b.frame_no }))
  unfolding insert
  insert_present b e = ground (arith, hash-home v f p, chain_at-home v f p)

module _ {t : BufHashTbl} (v : IsValid t) (f : FileRef) (p : ℕ) where
  -- On a valid table with no entry for (file, page), `remove` throws HashNotFoundException.
  pub remove_absent : entry t f p ≡ none → remove t f p ≡ not_found f p
  unfolding remove
  remove_absent e = ground (
    arith,
    hash-home v f p,
    chain_at-home v f p,
    unlink-eq-none f p (get_or t.ht (home t f p) []),
  )

  module _ (rest : List HashBucket) (e : unlink f p (get_or t.ht (home t f p) []) ≡ some rest) where
    remove-shrunk : remove t f p ≡ ok (write_home t f p rest)
    unfolding remove
    remove-shrunk = ground (arith, hash-home v f p, chain_at-home v f p)

    shrunk-IsValid : IsValid (write_home t f p rest)
    shrunk-IsValid =
        write_home-IsValid v f p rest (unlink-Unique f p _ rest (v.unique (home t f p)) e)

    entry-shrunk :
        (g : FileRef) (q : ℕ)
        → entry (write_home t f p rest) g q ≡ (if same_key f p g q then none else entry t g q)
    entry-shrunk g q =
        entry-write_home v f p rest g q
        ∙ ground (
          arith,
          same_key-entry t f g p q,
          find-unlink f g p q (get_or t.ht (home t f p) []) rest (v.unique (home t f p)) e,
        )

  -- On a valid table with an entry for (file, page), `remove` succeeds; the table stays valid, the
  -- key is no longer found, and every other key is answered as before.
  pub remove_present :
      (b : HashBucket)
      → entry t f p ≡ some b
      → Returns (remove t f p) λ r.
        IsValid r
        × ((g : FileRef) (q : ℕ)
            → lookup r g q ≡ (if same_key f p g q then not_found g q else lookup t g q))
  remove_present b e =
      let (rest, u) = unlink_total f p (get_or t.ht (home t f p) []) b e in
      let valid : IsValid (write_home t f p rest) = shrunk-IsValid rest u in
      (
        write_home t f p rest,
        remove-shrunk rest u,
        (
          valid,
          λ g q.
              lookup-answer valid g q
              ∙ (rw (entry-shrunk rest u g q) (ground (arith, lookup-answer v g q))),
        ),
      )
