-- ===== src/HashTable/Refines.antt =====
-- The hash table of src/bufHashTbl.cpp against a map from file and page to frame, over any calls.
use mathlib.Core.Path.{ap₂}
use hit_database_exp3p2_cpp.Base.{
  ℕ, ◌<◌, ◌≡◌, refl, sym, ◌∙◌, ap, Bool, true, false, ◌&&◌, Option, none, some, List, [], ◌∷◌, inl,
  inr, Option-cases, ◌==◌, if◌then◌else◌,
}
use hit_database_exp3p2_cpp.Result.{Result, ok, throws, undefined}
use hit_database_exp3p2_cpp.HashTable.{FileRef, HashBucket, BufHashTbl, new, insert, lookup, remove}
use hit_database_exp3p2_cpp.HashTable.Chain.{same_key}
use hit_database_exp3p2_cpp.HashTable.Entries.{
  IsValid, entry, lookup-none, lookup-some, new-IsValid, lookup-new,
}
use hit_database_exp3p2_cpp.HashTable.Writes.{
  not_found, insert_absent, insert_present, remove_absent, remove_present,
}

-- A call that changes the table.
pub data Call : Type 0 where
  inserts : FileRef → ℕ → ℕ → Call
  removes : FileRef → ℕ → Call

-- How a call ends.
pub data Outcome : Type 0 where
  done refused crashed : Outcome

-- A call that throws leaves the table as it is.
abbrev pub settle : BufHashTbl → Result BufHashTbl → BufHashTbl × Outcome
settle t (ok r) = (r, done)
settle t (throws e) = (t, refused)
settle t undefined = (t, crashed)

abbrev pub call : Call → BufHashTbl → BufHashTbl × Outcome
call (inserts f p n) t = settle t (insert t f p n)
call (removes f p) t = settle t (remove t f p)

unfoldable pub calls : List Call → BufHashTbl → BufHashTbl × List Outcome
calls [] t = (t, [])
calls (c ∷ cs) t = let (t', o) = call c t in let (last, os) = calls cs t' in (last, o ∷ os)

-- The frame of a page of a file, by the file's address.
abbrev pub FrameMap : Type 0
FrameMap = ℕ → ℕ → Option ℕ

abbrev pub put : FrameMap → FileRef → ℕ → Option ℕ → FrameMap
put m f p o a q = if f.address == a && p == q then o else m a q

-- What a call is to do to the map, by what the map has for its key: an insertion wants nothing there,
-- a removal something.
abbrev pub apply : Call → FrameMap → Option ℕ → FrameMap × Outcome
apply (inserts f p n) m none = (put m f p (some n), done)
apply (inserts f p n) m (some k) = (m, refused)
apply (removes f p) m none = (m, refused)
apply (removes f p) m (some k) = (put m f p none, done)

abbrev pub key : Call → FrameMap → Option ℕ
key (inserts f p n) m = m f.address p
key (removes f p) m = m f.address p

unfoldable pub applies : List Call → FrameMap → FrameMap × List Outcome
applies [] m = (m, [])
applies (c ∷ cs) m =
    let (m', o) = apply c m (key c m) in let (last, os) = applies cs m' in (last, o ∷ os)

-- What lookup answers for what the map has.
abbrev pub answer : FileRef → ℕ → Option ℕ → Result ℕ
answer g q none = not_found g q
answer g q (some n) = ok n

record Represents (t : BufHashTbl) (m : FrameMap) : Type 0 where
  valid : IsValid t
  agrees : (g : FileRef) (q : ℕ) → lookup t g q ≡ answer g q (m g.address q)

module _ {t : BufHashTbl} {m : FrameMap} (r : Represents t m) (f : FileRef) (p : ℕ) where
  absent : m f.address p ≡ none → entry t f p ≡ none
  absent e = elim (Option-cases (entry t f p)) [
    | inl gone ↦ gone
    | inr (b, here) ↦
        let both : ok b.frame_no ≡ not_found f p =
          sym (lookup-some r.valid f p b here) ∙ r.agrees f p ∙ ap (answer f p) e in
        cc
  ]

  present : (k : ℕ) → m f.address p ≡ some k → (b : HashBucket) × (entry t f p ≡ some b)
  present k e = elim (Option-cases (entry t f p)) [
    | inl gone ↦
        let both : not_found f p ≡ ok k =
          sym (lookup-none r.valid f p gone) ∙ r.agrees f p ∙ ap (answer f p) e in
        absurd (cc)
    | inr found ↦ found
  ]

  call-inserts :
      (n : ℕ) (o : Option ℕ)
      → m f.address p ≡ o
      → Represents (call (inserts f p n) t).0 (apply (inserts f p n) m o).0
        × ((call (inserts f p n) t).1 ≡ (apply (inserts f p n) m o).1)
  call-inserts n none e =
      let (t', ran, (v, agrees)) = insert_absent r.valid f p n (absent e) in
      rw ran
        (record { valid = v; agrees = λ g q. agrees g q ∙ by_key (same_key f p g q) g q }, refl)
    where
      by_key :
          (b : Bool) (g : FileRef) (q : ℕ)
          → (if b then ok n else lookup t g q) ≡ answer g q (if b then some n else m g.address q)
      by_key true g q = refl
      by_key false g q = r.agrees g q
  call-inserts n (some k) e =
      let (b, here) = present k e in rw (insert_present r.valid f p n b here) (r, refl)

  call-removes :
      (o : Option ℕ)
      → m f.address p ≡ o
      → Represents (call (removes f p) t).0 (apply (removes f p) m o).0
        × ((call (removes f p) t).1 ≡ (apply (removes f p) m o).1)
  call-removes none e = rw (remove_absent r.valid f p (absent e)) (r, refl)
  call-removes (some k) e =
      let (b, here) = present k e in
      let (t', ran, (v, agrees)) = remove_present r.valid f p b here in
      rw ran
        (record { valid = v; agrees = λ g q. agrees g q ∙ by_key (same_key f p g q) g q }, refl)
    where
      by_key :
          (b : Bool) (g : FileRef) (q : ℕ)
          → (if b then not_found g q else lookup t g q)
            ≡ answer g q (if b then none else m g.address q)
      by_key true g q = refl
      by_key false g q = r.agrees g q

call-Represents :
    (c : Call) (t : BufHashTbl) (m : FrameMap)
    → Represents t m
    → Represents (call c t).0 (apply c m (key c m)).0 × ((call c t).1 ≡ (apply c m (key c m)).1)
call-Represents (inserts f p n) t m r = call-inserts r f p n (m f.address p) refl
call-Represents (removes f p) t m r = call-removes r f p (m f.address p) refl

calls-Represents :
    (cs : List Call) (t : BufHashTbl) (m : FrameMap)
    → Represents t m
    → Represents (calls cs t).0 (applies cs m).0 × ((calls cs t).1 ≡ (applies cs m).1)
unfolding calls applies
calls-Represents [] t m r = (r, refl)
calls-Represents (c ∷ cs) t m r =
    let (r', o) = call-Represents c t m r in
    let (last, os) = calls-Represents cs (call c t).0 (apply c m (key c m)).0 r' in
    (last, ap₂ (λ (x : Outcome) (xs : List Outcome). x ∷ xs) o os)

-- Any calls of insert and remove on a table that the constructor has made with at least one chain end as
-- they do on a map from file and page to frame that starts empty, an insertion being refused where
-- the map has a frame and a removal where it has none; no call is undefined; and lookup then answers
-- with the map's frame, or with HashNotFoundException where it has none.
pub calls-applies :
    (cs : List Call) (size : ℕ) (g : FileRef) (q : ℕ)
    → 0 < size
    → ((calls cs (new size)).1 ≡ (applies cs (λ a p. none)).1)
      × (lookup (calls cs (new size)).0 g q ≡ answer g q ((applies cs (λ a p. none)).0 g.address q))
calls-applies cs size g q pos =
    let (r, os) =
      calls-Represents cs (new size) (λ a p. none)
        (record { valid = new-IsValid size pos; agrees = λ h k. lookup-new size pos h k }) in
    (os, r.agrees g q)
