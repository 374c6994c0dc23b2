-- ===== src/Page/Delete.antt =====
-- deleteRecord and updateRecord of src/page.cpp.
use hit_database_exp3p2_cpp.Base.{
  ℕ, zero, suc, ◌+◌, ◌-◌, ◌*◌, Bool, true, false, ◌&&◌, List, ltb, leb, ◌==◌, if◌then◌else◌, length,
  replicate,
}
use hit_database_exp3p2_cpp.Result.{Result, ok, ◌>>=◌, ◌>>◌, require}
use hit_database_exp3p2_cpp.Result.Exceptions.{RecordId, insufficient_space}
use hit_database_exp3p2_cpp.Page.Slot.{
  PageSlot, slot_size, get_slot, set_used, set_item_offset, set_item_length, add16, sub16,
  std_substr, std_replace,
}
use hit_database_exp3p2_cpp.Page.{
  Page, PageHeader, page_number, get_free_space, validate_record_id, insert_record_in_slot,
}

-- The variables of the loop that looks for records to move.
pub record Moving : Type 0 where
  pub data_ : List ℕ
  pub move_offset : ℕ
  pub move_bytes : ℕ

-- The body of that loop for slot `i`, where `other` and `slot` are what the pointers read.
unfoldable pub move_one : PageSlot → ℕ → PageSlot → Moving → Moving
move_one slot i other s =
    if other.used && ltb other.item_offset slot.item_offset
    then record {
      data_ = set_item_offset s.data_ i (add16 other.item_offset slot.item_length);
      move_offset =
          if ltb other.item_offset s.move_offset then other.item_offset else s.move_offset;
      move_bytes = s.move_bytes + other.item_length;
    }
    else s

unfoldable pub move_slots : ℕ → ℕ → ℕ → Moving → Result Moving
move_slots n zero i s = ok s
move_slots n (suc rounds) i s = do
  other ← get_slot s.data_ i
  slot ← get_slot s.data_ n
  move_slots n rounds (i + 1) (move_one slot i other s)

-- The loop that counts the unused slots before the last one: `j` is `num_slots - i`.
unfoldable pub count_unused_tail : List ℕ → ℕ → ℕ → Result ℕ
count_unused_tail d zero count = ok count
count_unused_tail d (suc j) count = do
  slot ← get_slot d (suc j)
  elim slot.used [ true ↦ ok count | false ↦ count_unused_tail d j (count + 1) ]

-- The header without the slots that are given back.
unfoldable pub drop_slots : PageHeader → ℕ → PageHeader
drop_slots h count = record h {
  num_slots = sub16 h.num_slots count;
  num_free_slots = sub16 h.num_free_slots count;
  free_space_lower_bound = sub16 h.free_space_lower_bound (slot_size * count);
}

unfoldable pub compact_slots : Page → Result Page
compact_slots p = do
  count ← count_unused_tail p.data_ (p.header.num_slots - 1) 1
  ok (record p { header = drop_slots p.header count })

-- The bytes of the records that the loop found are moved right, over the gap.
unfoldable pub shift_right : ℕ → Moving → Result (List ℕ)
shift_right n s =
    if ltb 0 s.move_bytes
    then (do
      slot ← get_slot s.data_ n
      data_to_move ← std_substr s.data_ s.move_offset s.move_bytes
      std_replace s.data_ (s.move_offset + slot.item_length) s.move_bytes data_to_move)
    else ok s.data_

-- The record's bytes are cleared and the records below it are moved up over them.
unfoldable pub close_gap : Page → ℕ → Result (List ℕ)
close_gap p n = do
  slot ← get_slot p.data_ n
  cleared ← std_replace p.data_ slot.item_offset slot.item_length (replicate slot.item_length 0)
  s ←
      move_slots n p.header.num_slots 1
        (record { data_ = cleared; move_offset = slot.item_offset; move_bytes = 0 })
  shift_right n s

-- The header takes back the bytes of the record, and the slot is marked unused.
unfoldable pub free_slot : Page → ℕ → List ℕ → PageSlot → Page
free_slot p n closed slot = record {
  header = record (p.header) {
    free_space_upper_bound = add16 p.header.free_space_upper_bound slot.item_length;
    num_free_slots = add16 p.header.num_free_slots 1;
  };
  data_ = set_item_length (set_item_offset (set_used closed n false) n 0) n 0;
}

unfoldable pub delete_record_with : Page → RecordId → Bool → Result Page
delete_record_with p rid allow_slot_compaction = do
  validate_record_id p rid
  closed ← close_gap p rid.slot_number
  slot ← get_slot closed rid.slot_number
  let freed = free_slot p rid.slot_number closed slot
  if allow_slot_compaction && rid.slot_number == p.header.num_slots
      then compact_slots freed
      else ok freed

unfoldable pub delete_record : Page → RecordId → Result Page
delete_record p rid = delete_record_with p rid true

unfoldable pub update_record : Page → RecordId → List ℕ → Result Page
update_record p rid record_data = do
  validate_record_id p rid
  slot ← get_slot p.data_ rid.slot_number
  let free_space_after_delete = get_free_space p + slot.item_length
  require (leb (length record_data) free_space_after_delete) (
      insufficient_space (record {
        page_number = page_number p;
        space_requested = length record_data;
        space_available = free_space_after_delete;
      }))
  q ← delete_record_with p rid false
  insert_record_in_slot q rid.slot_number record_data
