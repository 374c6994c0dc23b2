-- ===== src/Page.antt =====
-- Pages of records: src/page.h and src/page.cpp.
-- `data_` is the page's string, byte by byte: the slot array stands at its start and grows up, the
-- records stand at its end and grow down. A pointer into the slot array is the slot's number.
-- The 16-bit fields of the header and of the slots wrap.
pub mod Slot
pub mod Delete
pub mod Layout
pub mod Valid
pub mod InsertInSlot
pub mod Available
pub mod Insert
pub mod Thrown
pub mod Moves
pub mod Close
pub mod Compact
pub mod Remove
pub mod Removal
pub mod Update
pub mod Reject
pub mod Iterator
pub mod Reached
pub mod Refines
pub mod Bounds
pub mod Clean
pub mod Stacked
pub mod Headers
use hit_database_exp3p2_cpp.Base.{
  ℕ, zero, suc, ◌+◌, ◌-◌, ◌*◌, ◌%◌, ◌^◌, Bool, true, false, not, ◌&&◌, ◌||◌, List, ltb, leb, ◌==◌,
  if◌then◌else◌, length, replicate, slice, splice,
}
use hit_database_exp3p2_cpp.Result.{Result, ok, throws, undefined, ◌>>=◌, ◌>>◌, require, demand}
use hit_database_exp3p2_cpp.Result.Exceptions.{
  RecordId, insufficient_space, invalid_record, invalid_slot, slot_in_use, std_out_of_range,
}
use Slot.{
  PageSlot, slot_size, get_slot, set_used, set_item_offset, set_item_length, add16, sub16,
  std_substr, std_replace,
}

pub record PageHeader : Type 0 where
  pub free_space_lower_bound : ℕ
  pub free_space_upper_bound : ℕ
  pub num_slots : ℕ
  pub num_free_slots : ℕ
  pub current_page_number : ℕ
  pub next_page_number : ℕ

pub record Page : Type 0 where
  pub header : PageHeader
  pub data_ : List ℕ

-- Page::SIZE, sizeof(PageHeader) and Page::DATA_SIZE.
abbrev pub size : ℕ
size = 8192

abbrev pub header_size : ℕ
header_size = 16

abbrev pub data_size : ℕ
data_size = size - header_size

abbrev pub invalid_number : ℕ
invalid_number = 0

abbrev pub invalid_slot_number : ℕ
invalid_slot_number = 0

-- The constructor, by `initialize`.
unfoldable pub initialize : Page
initialize = record {
  header = record {
    free_space_lower_bound = 0;
    free_space_upper_bound = data_size;
    num_slots = 0;
    num_free_slots = 0;
    current_page_number = invalid_number;
    next_page_number = invalid_number;
  };
  data_ = replicate data_size 0;
}

abbrev pub page_number : Page → ℕ
page_number p = p.header.current_page_number

abbrev pub next_page_number : Page → ℕ
next_page_number p = p.header.next_page_number

abbrev pub set_page_number : Page → ℕ → Page
set_page_number p n = record p { header = record (p.header) { current_page_number = n } }

abbrev pub set_next_page_number : Page → ℕ → Page
set_next_page_number p n = record p { header = record (p.header) { next_page_number = n } }

abbrev pub is_used : Page → Bool
is_used p = not (page_number p == invalid_number)

unfoldable pub get_free_space : Page → ℕ
get_free_space p = sub16 p.header.free_space_upper_bound p.header.free_space_lower_bound

unfoldable pub has_space_for_record : Page → List ℕ → Bool
has_space_for_record p record_data =
    leb (length record_data + (if p.header.num_free_slots == 0 then slot_size else 0))
      (get_free_space p)

unfoldable pub validate_record_id : Page → RecordId → Result (Unit {0})
validate_record_id p rid = do
  let bad = invalid_record (record { record_id = rid; page_number = page_number p })
  require (rid.page_number == page_number p) bad
  slot ← get_slot p.data_ rid.slot_number
  require slot.used bad

unfoldable pub get_record : Page → RecordId → Result (List ℕ)
get_record p rid = do
  validate_record_id p rid
  slot ← get_slot p.data_ rid.slot_number
  std_substr p.data_ slot.item_offset slot.item_length

-- The loop of getAvailableSlot: the first slot, from `i` on, that is not used; 0 if there is none.
unfoldable pub first_unused : List ℕ → ℕ → ℕ → Result ℕ
first_unused d zero i = ok invalid_slot_number
first_unused d (suc rounds) i = do
  slot ← get_slot d i
  elim slot.used [ false ↦ ok i | true ↦ first_unused d rounds (i + 1) ]

unfoldable pub get_available_slot : Page → Result (Page × ℕ)
get_available_slot p =
    if ltb 0 p.header.num_free_slots
    then (do
      n ← first_unused p.data_ p.header.num_slots 1
      demand (not (n == invalid_slot_number))
      ok (p, n))
    else (do
      let n = add16 p.header.num_slots 1
      demand (not (n == invalid_slot_number))
      let grown = record (p.header) {
        num_slots = n;
        num_free_slots = add16 p.header.num_free_slots 1;
        free_space_lower_bound = (slot_size * n) % 2 ^ 16;
      }
      ok (record p { header = grown }, n))

unfoldable pub insert_record_in_slot : Page → ℕ → List ℕ → Result Page
insert_record_in_slot p n record_data = do
  require (not (ltb p.header.num_slots n || n == invalid_slot_number))
      (invalid_slot (record { page_number = page_number p; slot_number = n }))
  slot ← get_slot p.data_ n
  require (not slot.used) (slot_in_use (record { page_number = page_number p; slot_number = n }))
  let item_length = length record_data % 2 ^ 16
  let item_offset = sub16 p.header.free_space_upper_bound (length record_data)
  let marked =
      set_item_offset (set_item_length (set_used p.data_ n true) n item_length) n item_offset
  written ← std_replace marked item_offset item_length record_data
  ok (record {
    header = record (p.header) {
      free_space_upper_bound = item_offset;
      num_free_slots = sub16 p.header.num_free_slots 1;
    };
    data_ = written;
  })

unfoldable pub insert_record : Page → List ℕ → Result (Page × RecordId)
insert_record p record_data = do
  require (has_space_for_record p record_data) (
      insufficient_space (record {
        page_number = page_number p;
        space_requested = length record_data;
        space_available = get_free_space p;
      }))
  (q, n) ← get_available_slot p
  r ← insert_record_in_slot q n record_data
  ok (r, record { page_number = page_number p; slot_number = n })
