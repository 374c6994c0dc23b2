-- ===== src/Page/Slot/Writes.antt =====
-- What a slot reads after an assignment through a slot's pointer (src/page.cpp).
use hit_database_exp3p2_cpp.Base.{
  ℕ, ◌+◌, ◌*◌, ◌/◌, ◌%◌, ◌^◌, ◌≤◌, ◌<◌, ◌≡◌, ◌∙◌, ◌⊎◌, inl, inr, Bool, List, ◌==◌, if◌then◌else◌,
  arith, length, set, byte, length-set, get_or-set_self, get_or-set_ne,
}
use hit_database_exp3p2_cpp.Page.Slot.{
  slot_size, slot_base, read16, write16, slot_of, set_used, set_item_offset, set_item_length,
}

pub byte-set :
    (d : List ℕ) (i j v : ℕ) → i < length d → byte (set d i v) j ≡ (if i == j then v else byte d j)
byte-set d i j v h = ground (arith, get_or-set_self d i v 0, get_or-set_ne d i j v 0)

module _ (d : List ℕ) (k v : ℕ) (room : k + 1 < length d) where
  length-write16 : length (write16 d k v) ≡ length d
  unfolding write16
  length-write16 = length-set (set d k (v % 256)) (k + 1) (v / 256 % 256) ∙ length-set d k (v % 256)

  byte-write16 : (j : ℕ) → ¬ (k ≡ j) → ¬ (k + 1 ≡ j) → byte (write16 d k v) j ≡ byte d j
  unfolding write16
  byte-write16 j h g =
      get_or-set_ne (set d k (v % 256)) (k + 1) j (v / 256 % 256) 0 g
      ∙ get_or-set_ne d k j (v % 256) 0 h

  read16-write16_self : v < 2 ^ 16 → read16 (write16 d k v) k ≡ v
  unfolding read16 write16
  read16-write16_self small =
      let high : byte (set (set d k (v % 256)) (k + 1) (v / 256 % 256)) (k + 1) ≡ v / 256 % 256 =
        get_or-set_self (set d k (v % 256)) (k + 1) (v / 256 % 256) 0
          (omega (arith, length-set d k (v % 256))) in
      let low : byte (set (set d k (v % 256)) (k + 1) (v / 256 % 256)) k ≡ v % 256 =
        get_or-set_ne (set d k (v % 256)) (k + 1) k (v / 256 % 256) 0 (omega arith)
        ∙ get_or-set_self d k (v % 256) 0 (omega arith) in
      omega arith

  read16-write16_ne : (j : ℕ) → (j + 1 < k) ⊎ (k + 1 < j) → read16 (write16 d k v) j ≡ read16 d j
  unfolding read16
  read16-write16_ne j h =
      let a : byte (write16 d k v) j ≡ byte d j = byte-write16 j (omega arith) (omega arith) in
      let b : byte (write16 d k v) (j + 1) ≡ byte d (j + 1) =
        byte-write16 (j + 1) (omega arith) (omega arith) in
      omega arith

-- A slot is determined by its four bytes.
slot_congr :
    (d e : List ℕ) (m : ℕ)
    → byte d (slot_base m) ≡ byte e (slot_base m)
    → read16 d (slot_base m + 2) ≡ read16 e (slot_base m + 2)
    → read16 d (slot_base m + 4) ≡ read16 e (slot_base m + 4)
    → slot_of d m ≡ slot_of e m
unfolding slot_of
slot_congr d e m a b c = ground arith

-- Slots below an offset are the same in strings that agree below it.
pub slot_of_congr :
    (d e : List ℕ) (m x : ℕ)
    → 0 < m
    → slot_size * m ≤ x
    → ((i : ℕ) → i < x → byte d i ≡ byte e i)
    → slot_of d m ≡ slot_of e m
unfolding read16
slot_of_congr d e m x pos h same =
    slot_congr d e m (same _ (omega arith))
      (omega
        (arith, same (slot_base m + 2) (omega arith), same (slot_base m + 2 + 1) (omega arith)))
      (omega
        (arith, same (slot_base m + 4) (omega arith), same (slot_base m + 4 + 1) (omega arith)))

module _ (d : List ℕ) (n : ℕ) (pos : 0 < n) (room : slot_size * n ≤ length d) where
  pub length-set_used : (b : Bool) → length (set_used d n b) ≡ length d
  unfolding set_used
  length-set_used b = length-set d (slot_base n) _

  pub length-set_item_offset : (v : ℕ) → length (set_item_offset d n v) ≡ length d
  unfolding set_item_offset
  length-set_item_offset v = length-write16 d (slot_base n + 2) v (omega arith)

  pub length-set_item_length : (v : ℕ) → length (set_item_length d n v) ≡ length d
  unfolding set_item_length
  length-set_item_length v = length-write16 d (slot_base n + 4) v (omega arith)

  -- A write to a slot keeps the bytes beyond it.
  pub byte-set_used : (b : Bool) (i : ℕ) → slot_size * n ≤ i → byte (set_used d n b) i ≡ byte d i
  unfolding set_used
  byte-set_used b i h = get_or-set_ne d (slot_base n) i _ 0 (omega arith)

  pub byte-set_item_offset :
      (v i : ℕ) → slot_size * n ≤ i → byte (set_item_offset d n v) i ≡ byte d i
  unfolding set_item_offset
  byte-set_item_offset v i h =
      byte-write16 d (slot_base n + 2) v (omega arith) i (omega arith) (omega arith)

  pub byte-set_item_length :
      (v i : ℕ) → slot_size * n ≤ i → byte (set_item_length d n v) i ≡ byte d i
  unfolding set_item_length
  byte-set_item_length v i h =
      byte-write16 d (slot_base n + 4) v (omega arith) i (omega arith) (omega arith)

  pub slot_of-set_used_self :
      (b : Bool) → slot_of (set_used d n b) n ≡ record (slot_of d n) { used = b }
  unfolding slot_of read16 set_used
  slot_of-set_used_self b =
      let k = slot_base n in
      ground (
        arith,
        byte-set d k k (if b then 1 else 0) (omega arith),
        byte-set d k (k + 2) (if b then 1 else 0) (omega arith),
        byte-set d k (k + 2 + 1) (if b then 1 else 0) (omega arith),
        byte-set d k (k + 4) (if b then 1 else 0) (omega arith),
        byte-set d k (k + 4 + 1) (if b then 1 else 0) (omega arith),
      )

  pub slot_of-set_used_ne :
      (b : Bool) (m : ℕ) → 0 < m → ¬ (n ≡ m) → slot_of (set_used d n b) m ≡ slot_of d m
  unfolding read16 set_used
  slot_of-set_used_ne b m q ne =
      let v : ℕ = if b then 1 else 0 in
      let at = λ (i : ℕ) (h : ¬ (slot_base n ≡ i)). get_or-set_ne d (slot_base n) i v 0 h in
      slot_congr _ d m (at _ (omega arith))
        (omega (arith, at (slot_base m + 2) (omega arith), at (slot_base m + 2 + 1) (omega arith)))
        (omega (arith, at (slot_base m + 4) (omega arith), at (slot_base m + 4 + 1) (omega arith)))

  pub slot_of-set_item_offset_self :
      (v : ℕ)
      → v < 2 ^ 16
      → slot_of (set_item_offset d n v) n ≡ record (slot_of d n) { item_offset = v }
  unfolding slot_of set_item_offset
  slot_of-set_item_offset_self v small =
      let k = slot_base n in
      ground (
        arith,
        byte-write16 d (k + 2) v (omega arith) k (omega arith) (omega arith),
        read16-write16_self d (k + 2) v (omega arith) small,
        read16-write16_ne d (k + 2) v (omega arith) (k + 4) (inr (omega arith)),
      )

  pub slot_of-set_item_offset_ne :
      (v m : ℕ) → 0 < m → ¬ (n ≡ m) → slot_of (set_item_offset d n v) m ≡ slot_of d m
  unfolding set_item_offset
  slot_of-set_item_offset_ne v m q ne =
      let k = slot_base n + 2 in
      let h : k + 1 < length d = omega arith in
      slot_congr _ d m (byte-write16 d k v h (slot_base m) (omega arith) (omega arith))
        (read16-write16_ne d k v h (slot_base m + 2) (omega arith))
        (read16-write16_ne d k v h (slot_base m + 4) (omega arith))

  pub slot_of-set_item_length_self :
      (v : ℕ)
      → v < 2 ^ 16
      → slot_of (set_item_length d n v) n ≡ record (slot_of d n) { item_length = v }
  unfolding slot_of set_item_length
  slot_of-set_item_length_self v small =
      let k = slot_base n in
      ground (
        arith,
        byte-write16 d (k + 4) v (omega arith) k (omega arith) (omega arith),
        read16-write16_self d (k + 4) v (omega arith) small,
        read16-write16_ne d (k + 4) v (omega arith) (k + 2) (inl (omega arith)),
      )

  pub slot_of-set_item_length_ne :
      (v m : ℕ) → 0 < m → ¬ (n ≡ m) → slot_of (set_item_length d n v) m ≡ slot_of d m
  unfolding set_item_length
  slot_of-set_item_length_ne v m q ne =
      let k = slot_base n + 4 in
      let h : k + 1 < length d = omega arith in
      slot_congr _ d m (byte-write16 d k v h (slot_base m) (omega arith) (omega arith))
        (read16-write16_ne d k v h (slot_base m + 2) (omega arith))
        (read16-write16_ne d k v h (slot_base m + 4) (omega arith))
