-- ===== src/Page/Slot/Fills.antt =====
-- All three fields of a slot assigned, as insertRecordInSlot and deleteRecord of src/page.cpp do;
-- reads of slots in bounds; the wrapping operators in range.
use hit_database_exp3p2_cpp.Base.{
  ℕ, ◌+◌, ◌-◌, ◌*◌, ◌^◌, ◌≤◌, ◌<◌, ◌≡◌, refl, ◌∙◌, Bool, List, arith, length, byte, slice, splice,
  le→ltb,
}
use hit_database_exp3p2_cpp.Result.{ok}
use hit_database_exp3p2_cpp.Page.Slot.{
  slot_size, slot_of, get_slot, set_used, set_item_offset, set_item_length, add16, sub16,
  std_substr, std_replace,
}
use hit_database_exp3p2_cpp.Page.Slot.Writes.{
  length-set_used, length-set_item_offset, length-set_item_length, byte-set_used,
  byte-set_item_offset, byte-set_item_length, slot_of-set_used_self, slot_of-set_used_ne,
  slot_of-set_item_offset_self, slot_of-set_item_offset_ne, slot_of-set_item_length_self,
  slot_of-set_item_length_ne,
}

pub add16-lt : (a b : ℕ) → a + b < 2 ^ 16 → add16 a b ≡ a + b
unfolding add16
add16-lt a b h = omega arith

pub sub16-le : (a b : ℕ) → b ≤ a → a < 2 ^ 16 → sub16 a b ≡ a - b
unfolding sub16
sub16-le a b h k = omega arith

pub get_slot_lem :
    (d : List ℕ) (n : ℕ) → 0 < n → slot_size * n ≤ length d → get_slot d n ≡ ok (slot_of d n)
unfolding get_slot
get_slot_lem d n pos room = ground arith

pub std_substr_lem : (s : List ℕ) (p n : ℕ) → p ≤ length s → std_substr s p n ≡ ok (slice s p n)
unfolding std_substr
std_substr_lem s p n h = rw (le→ltb (length s) p h)

pub std_replace_lem :
    (s : List ℕ) (p n : ℕ) (t : List ℕ) → p ≤ length s → std_replace s p n t ≡ ok (splice s p n t)
unfolding std_replace
std_replace_lem s p n t h = rw (le→ltb (length s) p h)

module _ (d : List ℕ) (n : ℕ) (b : Bool) (o size : ℕ) where
  -- insertRecordInSlot assigns the length before the offset, deleteRecord after it.
  abbrev pub insert_fill : List ℕ
  insert_fill = set_item_offset (set_item_length (set_used d n b) n size) n o

  abbrev pub delete_fill : List ℕ
  delete_fill = set_item_length (set_item_offset (set_used d n b) n o) n size

  module _ (pos : 0 < n) (room : slot_size * n ≤ length d) where
    room₁ : slot_size * n ≤ length (set_used d n b)
    room₁ = omega (arith, length-set_used d n pos room b)

    room₂ : slot_size * n ≤ length (set_item_length (set_used d n b) n size)
    room₂ = omega (arith, room₁, length-set_item_length (set_used d n b) n pos room₁ size)

    room₃ : slot_size * n ≤ length (set_item_offset (set_used d n b) n o)
    room₃ = omega (arith, room₁, length-set_item_offset (set_used d n b) n pos room₁ o)

    pub length-insert_fill : length insert_fill ≡ length d
    length-insert_fill =
        length-set_item_offset _ n pos room₂ o
        ∙ length-set_item_length _ n pos room₁ size
        ∙ length-set_used d n pos room b

    pub length-delete_fill : length delete_fill ≡ length d
    length-delete_fill =
        length-set_item_length _ n pos room₃ size
        ∙ length-set_item_offset _ n pos room₁ o
        ∙ length-set_used d n pos room b

    pub byte-insert_fill : (i : ℕ) → slot_size * n ≤ i → byte insert_fill i ≡ byte d i
    byte-insert_fill i h =
        byte-set_item_offset _ n pos room₂ o i h
        ∙ byte-set_item_length _ n pos room₁ size i h
        ∙ byte-set_used d n pos room b i h

    pub byte-delete_fill : (i : ℕ) → slot_size * n ≤ i → byte delete_fill i ≡ byte d i
    byte-delete_fill i h =
        byte-set_item_length _ n pos room₃ size i h
        ∙ byte-set_item_offset _ n pos room₁ o i h
        ∙ byte-set_used d n pos room b i h

    pub slot_of-insert_fill_ne : (m : ℕ) → 0 < m → ¬ (n ≡ m) → slot_of insert_fill m ≡ slot_of d m
    slot_of-insert_fill_ne m q ne =
        slot_of-set_item_offset_ne _ n pos room₂ o m q ne
        ∙ slot_of-set_item_length_ne _ n pos room₁ size m q ne
        ∙ slot_of-set_used_ne d n pos room b m q ne

    pub slot_of-delete_fill_ne : (m : ℕ) → 0 < m → ¬ (n ≡ m) → slot_of delete_fill m ≡ slot_of d m
    slot_of-delete_fill_ne m q ne =
        slot_of-set_item_length_ne _ n pos room₃ size m q ne
        ∙ slot_of-set_item_offset_ne _ n pos room₁ o m q ne
        ∙ slot_of-set_used_ne d n pos room b m q ne

    pub slot_of-insert_fill_self :
        o < 2 ^ 16
        → size < 2 ^ 16
        → slot_of insert_fill n ≡ record { used = b; item_offset = o; item_length = size }
    slot_of-insert_fill_self ho hs = rw (slot_of-set_item_offset_self _ n pos room₂ o ho) (
        rw (slot_of-set_item_length_self _ n pos room₁ size hs)
          (rw (slot_of-set_used_self d n pos room b) refl))

    pub slot_of-delete_fill_self :
        o < 2 ^ 16
        → size < 2 ^ 16
        → slot_of delete_fill n ≡ record { used = b; item_offset = o; item_length = size }
    slot_of-delete_fill_self ho hs = rw (slot_of-set_item_length_self _ n pos room₃ size hs) (
        rw (slot_of-set_item_offset_self _ n pos room₁ o ho)
          (rw (slot_of-set_used_self d n pos room b) refl))
