-- ===== src/File/Bytes/Blocks.antt =====
-- Reads and writes of byte strings that are joined of parts.
use mathlib.Core.List.{append_assoc, append-nil}
use hit_database_exp3p2_cpp.Base.{
  ℕ, zero, suc, ◌+◌, ◌-◌, ◌<◌, ◌≡◌, refl, ap, some, none, true, false, leb, List, [], ◌∷◌, ◌++◌,
  arith, length, take, drop, slice, splice, replicate, length-append, length-replicate,
}
use hit_database_exp3p2_cpp.File.Bytes.{stream_write, stream_read}

module _ {A : Type 0} where
  take-append : (a b : List A) (n k : ℕ) → n ≡ length a + k → take n (a ++ b) ≡ a ++ take k b
  unfolding take
  take-append [] b n k e = let d : n ≡ k = omega arith in ap (λ i. take i b) d
  take-append (x ∷ a) b zero k e = absurd (omega arith)
  take-append (x ∷ a) b (suc n) k e = ap (λ xs. x ∷ xs) (take-append a b n k (omega arith))

  drop-append : (a b : List A) (n k : ℕ) → n ≡ length a + k → drop n (a ++ b) ≡ drop k b
  unfolding drop
  drop-append [] b n k e = let d : n ≡ k = omega arith in ap (λ i. drop i b) d
  drop-append (x ∷ a) b zero k e = absurd (omega arith)
  drop-append (x ∷ a) b (suc n) k e = drop-append a b n k (omega arith)

  drop-nil : (n : ℕ) → drop {A = A} n [] ≡ []
  unfolding drop
  drop-nil zero = refl
  drop-nil (suc n) = refl

  pub replicate-append :
      (m k n : ℕ) (v : A) → n ≡ m + k → replicate n v ≡ replicate m v ++ replicate k v
  unfolding replicate
  replicate-append zero k n v e = let d : n ≡ k = omega arith in ap (λ i. replicate i v) d
  replicate-append (suc m) k zero v e = absurd (omega arith)
  replicate-append (suc m) k (suc n) v e =
      ap (λ xs. v ∷ xs) (replicate-append m k n v (omega arith))

slice-append :
    (a b : List ℕ) (pos k n : ℕ) → pos ≡ length a + k → slice (a ++ b) pos n ≡ slice b k n
unfolding slice
slice-append a b pos k n e = ap (take n) (drop-append a b pos k e)

splice-append :
    (a b t : List ℕ) (pos k n : ℕ)
    → pos ≡ length a + k
    → splice (a ++ b) pos n t ≡ a ++ splice b k n t
unfolding splice
splice-append a b t pos k n e =
    rw (take-append a b pos k e, drop-append a b (pos + n) (k + n) (omega arith))
      (append_assoc a (take k b) (t ++ drop (k + n) b))

pub stream_write-append :
    (a b t : List ℕ) (pos k : ℕ)
    → pos ≡ length a + k
    → stream_write pos t (a ++ b) ≡ a ++ stream_write k t b
unfolding stream_write
stream_write-append a b t pos k e =
    let pad : pos - length (a ++ b) ≡ k - length b = omega (arith, length-append a b) in
    rw (pad, append_assoc a b (replicate (k - length b) 0))
      (splice-append a (b ++ replicate (k - length b) 0) t pos k (length t) e)

-- A write over a part of its length, at the end, and behind the end.
pub stream_write_block : (x b t : List ℕ) → length t ≡ length x → stream_write 0 t (x ++ b) ≡ t ++ b
unfolding stream_write splice take drop replicate
stream_write_block x b t e =
    let pad : 0 - length (x ++ b) ≡ 0 = omega arith in
    rw (pad, append-nil (x ++ b), drop-append x b (0 + length t) 0 (omega arith)) refl

pub stream_write_end : (t : List ℕ) → stream_write 0 t [] ≡ t
unfolding stream_write splice take replicate
stream_write_end t = rw (drop-nil {A = ℕ} (0 + length t)) (append-nil t)

pub stream_write_pad :
    (m k pos : ℕ) (t : List ℕ)
    → pos ≡ m + k
    → stream_write pos t [] ≡ replicate m 0 ++ stream_write k t []
unfolding stream_write
stream_write_pad m k pos t e =
    let whole : pos - 0 ≡ pos = omega arith in
    let rest : k - 0 ≡ k = omega arith in
    rw (whole, rest, replicate-append {A = ℕ} m k pos 0 e)
      (splice-append (replicate m 0) (replicate k 0) t pos k (length t)
        (omega (arith, length-replicate {A = ℕ} m 0)))

pub stream_read-append :
    (a b : List ℕ) (pos k n : ℕ)
    → pos ≡ length a + k
    → stream_read pos n (a ++ b) ≡ stream_read k n b
unfolding stream_read
stream_read-append a b pos k n e =
    let test : leb (pos + n) (length (a ++ b)) ≡ leb (k + n) (length b) =
      ground (arith, length-append a b) in
    rw (test, slice-append a b pos k n e) refl

pub stream_read_block : (x b : List ℕ) (n : ℕ) → n ≡ length x → stream_read 0 n (x ++ b) ≡ some x
unfolding stream_read slice take drop
stream_read_block x b n e =
    let test : leb (0 + n) (length (x ++ b)) ≡ true = ground (arith, length-append x b) in
    rw (test, take-append x b n 0 (omega arith)) (ap (λ ys. some ys) (append-nil x))

pub stream_read_short : (b : List ℕ) (pos n : ℕ) → length b < pos + n → stream_read pos n b ≡ none
unfolding stream_read
stream_read_short b pos n h =
    let test : leb (pos + n) (length b) ≡ false = ground arith in rw test refl
