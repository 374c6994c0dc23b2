-- ===== src/Base/Slices.antt =====
-- Parts of a list of bytes: `slice` reads one, `splice` writes one over another.
use Prim.Native.Nat.{ℕ, ◌+◌, ◌-◌, ◌≤◌, ◌<◌}
use mathlib.Core.Path.{◌≡◌, sym, ◌∙◌}
use mathlib.Core.List.{List, ◌++◌}
use native.Mathlib.Omega.{arith}
use hit_database_exp3p2_cpp.Base.Lists.{
  length, get_or, take, drop, length-append, length-take, length-drop, get_or-append, get_or-take,
  get_or-drop, get_or_ext,
}

-- The byte at an offset; 0 past the end.
abbrev pub byte : List ℕ → ℕ → ℕ
byte s i = get_or s i 0

unfoldable pub slice : List ℕ → ℕ → ℕ → List ℕ
slice s pos n = take n (drop pos s)

unfoldable pub splice : List ℕ → ℕ → ℕ → List ℕ → List ℕ
splice s pos n t = take pos s ++ (t ++ drop (pos + n) s)

pub length-slice : (s : List ℕ) (pos n : ℕ) → pos + n ≤ length s → length (slice s pos n) ≡ n
unfolding slice
length-slice s pos n h = omega (arith, length-take n (drop pos s), length-drop pos s)

pub byte-slice : (s : List ℕ) (pos n i : ℕ) → i < n → byte (slice s pos n) i ≡ byte s (pos + i)
unfolding slice
byte-slice s pos n i h = get_or-take n i (drop pos s) 0 h ∙ get_or-drop pos i s 0

module _ (s : List ℕ) (pos n : ℕ) (t : List ℕ) (whole : length t ≡ n)
    (fits : pos + n ≤ length s) where
  pub length-splice : length (splice s pos n t) ≡ length s
  unfolding splice
  length-splice = omega (
    arith,
    length-append (take pos s) (t ++ drop (pos + n) s),
    length-append t (drop (pos + n) s),
    length-take pos s,
    length-drop (pos + n) s,
  )

  pub byte-splice_before : (i : ℕ) → i < pos → byte (splice s pos n t) i ≡ byte s i
  unfolding splice
  byte-splice_before i h = ground (
    arith,
    get_or-append (take pos s) (t ++ drop (pos + n) s) i 0,
    length-take pos s,
    get_or-take pos i s 0,
  )

  pub byte-splice_in : (i : ℕ) → i < n → byte (splice s pos n t) (pos + i) ≡ byte t i
  unfolding splice
  byte-splice_in i h = ground (
    arith,
    get_or-append (take pos s) (t ++ drop (pos + n) s) (pos + i) 0,
    length-take pos s,
    get_or-append t (drop (pos + n) s) i 0,
  )

  pub byte-splice_after : (i : ℕ) → pos + n ≤ i → byte (splice s pos n t) i ≡ byte s i
  unfolding splice
  byte-splice_after i h = ground (
    arith,
    get_or-append (take pos s) (t ++ drop (pos + n) s) i 0,
    length-take pos s,
    get_or-append t (drop (pos + n) s) (i - pos) 0,
    get_or-drop (pos + n) (i - pos - n) s 0,
  )

-- Slices with the same bytes are equal.
pub slice_ext :
    (s t : List ℕ) (p q n : ℕ)
    → p + n ≤ length s
    → q + n ≤ length t
    → ((i : ℕ) → i < n → byte s (p + i) ≡ byte t (q + i))
    → slice s p n ≡ slice t q n
slice_ext s t p q n hs ht same =
    get_or_ext (slice s p n) (slice t q n) 0 (length-slice s p n hs ∙ sym (length-slice t q n ht))
      λ i l.
        let l' : i < n = omega (arith, length-slice s p n hs) in
        byte-slice s p n i l' ∙ same i l' ∙ sym (byte-slice t q n i l')
