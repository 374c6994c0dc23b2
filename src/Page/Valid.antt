-- ===== src/Page/Valid.antt =====
-- What every page that its methods have made satisfies, and the records that it holds
-- (src/page.h, src/page.cpp).
use hit_database_exp3p2_cpp.Base.{
  ℕ, ◌*◌, ◌≤◌, ◌<◌, ◌≡◌, refl, false, List, arith, length, slice, zero, suc, ==-refl,
  length-replicate,
}
use hit_database_exp3p2_cpp.Result.{Result, ok, throws}
use hit_database_exp3p2_cpp.Result.Exceptions.{RecordId, invalid_record}
use hit_database_exp3p2_cpp.Page.{
  Page, data_size, page_number, initialize, validate_record_id, get_record,
}
use hit_database_exp3p2_cpp.Page.Slot.{PageSlot, slot_size, slot_of}
use hit_database_exp3p2_cpp.Page.Slot.Fills.{get_slot_lem, std_substr_lem}
use hit_database_exp3p2_cpp.Page.Layout.{Live, Layout, vacancy}
use hit_database_exp3p2_cpp.Page.Layout.Sums.{sum}

abbrev pub slots : Page → ℕ → PageSlot
slots p = slot_of p.data_

-- The number of slots, and the upper bound of the free space.
abbrev pub num : Page → ℕ
num p = p.header.num_slots

abbrev pub upper : Page → ℕ
upper p = p.header.free_space_upper_bound

abbrev pub free : Page → ℕ
free p = p.header.num_free_slots

pub record IsValid (p : Page) : Type 0 where
  pub whole : length p.data_ ≡ data_size
  pub lower : p.header.free_space_lower_bound ≡ slot_size * num p
  pub order : slot_size * num p ≤ upper p
  pub layout : Layout (slots p) (num p) (upper p) (free p)

-- A slot that holds a record.
abbrev pub Holds : Page → ℕ → Type 0
Holds p n = Live (slots p) (num p) n

-- The bytes of the record in a slot.
abbrev pub record_of : Page → ℕ → List ℕ
record_of p n = slice p.data_ (slots p n).item_offset (slots p n).item_length

abbrev pub id_of : Page → ℕ → RecordId
id_of p n = record { page_number = page_number p; slot_number = n }

-- The exception of an identifier that names no record of the page.
abbrev pub no_record {ℓ} : {A : Type ℓ} → Page → RecordId → Result A
no_record p rid = throws (invalid_record (record { record_id = rid; page_number = page_number p }))

pub initialize-IsValid : IsValid initialize
unfolding initialize
initialize-IsValid = record {
  whole = length-replicate data_size 0;
  lower = omega arith;
  order = omega arith;
  layout = record {
    starts = λ m v. absurd (omega (arith, v.0, v.1));
    ends = λ m v. absurd (omega (arith, v.0, v.1));
    nonempty = λ m v. absurd (omega (arith, v.0, v.1));
    apart = λ m k v w ne e. omega (arith, v.0, v.1);
    stacked = λ m v. absurd (omega (arith, v.0, v.1));
    filled = omega arith;
    vacant = refl;
  };
}

sum-vacancy-le : (f : ℕ → PageSlot) (n : ℕ) → sum (vacancy f) n ≤ n
sum-vacancy-le f zero = omega arith
sum-vacancy-le f (suc n) =
    let one : vacancy f (suc n) ≤ 1 = ground arith in omega (arith, sum-vacancy-le f n)

module _ {p : Page} (v : IsValid p) where
  pub upper-le : upper p ≤ data_size
  upper-le = omega (arith, v.layout.filled)

  pub num-lt : slot_size * num p ≤ data_size
  num-lt = omega (arith, upper-le, v.order)

  pub free-le : free p ≤ num p
  free-le = omega (arith, v.layout.vacant, sum-vacancy-le (slots p) (num p))

  pub read_slot : (n : ℕ) → 0 < n → n ≤ num p → slot_size * n ≤ length p.data_
  read_slot n pos in_range = omega (arith, v.whole, num-lt)

  pub validate_used : (n : ℕ) → Holds p n → validate_record_id p (id_of p n) ≡ ok tt
  unfolding validate_record_id
  validate_used n h =
      rw (==-refl (page_number p), get_slot_lem p.data_ n h.0 (read_slot n h.0 h.1), h.2)

  pub validate_unused :
      (n : ℕ)
      → 0 < n
      → n ≤ num p
      → (slots p n).used ≡ false
      → validate_record_id p (id_of p n) ≡ no_record p (id_of p n)
  unfolding validate_record_id
  validate_unused n pos in_range e =
      rw (==-refl (page_number p), get_slot_lem p.data_ n pos (read_slot n pos in_range), e)

  pub get_record-Holds : (n : ℕ) → Holds p n → get_record p (id_of p n) ≡ ok (record_of p n)
  unfolding get_record
  get_record-Holds n h =
      rw (validate_used n h, get_slot_lem p.data_ n h.0 (read_slot n h.0 h.1))
        (std_substr_lem p.data_ _ _ (omega (arith, v.layout.ends n h, v.whole)))
