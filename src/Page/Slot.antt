-- ===== src/Page/Slot.antt =====
-- A slot of a page as six bytes of the page's string, laid out as on a little-endian machine with
-- 16-bit alignment: `used`, a byte of padding, `item_offset`, `item_length` (PageSlot, src/page.h,
-- and getSlot, src/page.cpp). `std_substr` and `std_replace` are std::string's substr and replace.
pub mod Writes
pub mod Fills
use hit_database_exp3p2_cpp.Base.{
  ℕ, ◌+◌, ◌-◌, ◌*◌, ◌/◌, ◌%◌, ◌^◌, Bool, true, not, ◌||◌, List, ltb, ◌==◌, if◌then◌else◌, length,
  set, byte, slice, splice,
}
use hit_database_exp3p2_cpp.Result.{Result, ok, throws, undefined}
use hit_database_exp3p2_cpp.Result.Exceptions.{std_out_of_range}

pub record PageSlot : Type 0 where
  pub used : Bool
  pub item_offset : ℕ
  pub item_length : ℕ

-- sizeof(PageSlot)
abbrev pub slot_size : ℕ
slot_size = 6

-- `a += b` and `a -= b` on std::uint16_t.
unfoldable pub add16 : ℕ → ℕ → ℕ
add16 a b = (a + b) % 2 ^ 16

unfoldable pub sub16 : ℕ → ℕ → ℕ
sub16 a b = (a + 2 ^ 16 - b % 2 ^ 16) % 2 ^ 16

-- The offset of a slot in the string.
abbrev pub slot_base : ℕ → ℕ
slot_base n = (n - 1) * slot_size

pub read16 : List ℕ → ℕ → ℕ
read16 d k = byte d k + 256 * byte d (k + 1)

pub write16 : List ℕ → ℕ → ℕ → List ℕ
write16 d k v = set (set d k (v % 256)) (k + 1) (v / 256 % 256)

-- The slot that a pointer to its bytes reads.
unfoldable pub slot_of : List ℕ → ℕ → PageSlot
unfolding read16
slot_of d n = record {
  used = not (byte d (slot_base n) == 0);
  item_offset = read16 d (slot_base n + 2);
  item_length = read16 d (slot_base n + 4);
}

-- Slot 0, and a slot that reaches past the string, are outside the object.
unfoldable pub get_slot : List ℕ → ℕ → Result PageSlot
get_slot d n = if n == 0 || ltb (length d) (slot_size * n) then undefined else ok (slot_of d n)

-- The three assignments through a slot's pointer.
unfoldable pub set_used : List ℕ → ℕ → Bool → List ℕ
set_used d n b = set d (slot_base n) (if b then 1 else 0)

unfoldable pub set_item_offset : List ℕ → ℕ → ℕ → List ℕ
unfolding write16
set_item_offset d n v = write16 d (slot_base n + 2) v

unfoldable pub set_item_length : List ℕ → ℕ → ℕ → List ℕ
unfolding write16
set_item_length d n v = write16 d (slot_base n + 4) v

unfoldable pub std_substr : List ℕ → ℕ → ℕ → Result (List ℕ)
std_substr s pos n = if ltb (length s) pos then throws std_out_of_range else ok (slice s pos n)

unfoldable pub std_replace : List ℕ → ℕ → ℕ → List ℕ → Result (List ℕ)
std_replace s pos n t =
    if ltb (length s) pos then throws std_out_of_range else ok (splice s pos n t)
