-- ===== src/Tests/Pages.antt =====
-- Pages of src/page.cpp: one that holds "hello!" in its first slot, and one that the slot array's
-- next bytes are not blank on.
use hit_database_exp3p2_cpp.Base.{
  ℕ, ◌-◌, ◌*◌, ◌≤◌, ◌<◌, ◌⊎◌, none, some, ◌≡◌, refl, inl, Bool, List, [], ◌∷◌, arith, length, take,
  drop, slice, splice, replicate,
}
use hit_database_exp3p2_cpp.Result.{Result, ok, throws, undefined, ◌>>=◌, Returns, Returns-at}
use hit_database_exp3p2_cpp.Result.Exceptions.{RecordId, insufficient_space}
use hit_database_exp3p2_cpp.Page.{
  Page, data_size, initialize, get_record, insert_record, get_available_slot, insert_record_in_slot,
  has_space_for_record, get_free_space, first_unused, validate_record_id,
}
use hit_database_exp3p2_cpp.Page.Delete.{
  delete_record, delete_record_with, update_record, close_gap, move_slots, move_one, shift_right,
  free_slot, compact_slots, count_unused_tail, drop_slots,
}
use hit_database_exp3p2_cpp.Page.Slot.{
  slot_size, slot_of, std_substr, std_replace, get_slot, set_used, set_item_offset, set_item_length,
  add16, sub16,
}
use hit_database_exp3p2_cpp.Page.Valid.{
  IsValid, upper, free, id_of, no_record, num, initialize-IsValid,
}
use hit_database_exp3p2_cpp.Page.Insert.{Stored, insert_record-Stored, insert_record_full}
use hit_database_exp3p2_cpp.Page.Removal.{Removed, delete_record-Removed}
use hit_database_exp3p2_cpp.Page.Update.{Updated, update_record-Updated, update_record_full}
use hit_database_exp3p2_cpp.Page.Reached.{
  Records, assign, Reached, start, inserted, deleted, updated,
}
use hit_database_exp3p2_cpp.Page.Bounds.{Placed, Apart, Reached_bounds}
use hit_database_exp3p2_cpp.Page.Refines.{answer, listed, get_record-Reached}
use hit_database_exp3p2_cpp.Page.Reject.{bad_id_refused}
use hit_database_exp3p2_cpp.Page.Iterator.{
  begin, iterate, is_equal, deref, advance, get_next_used_slot, next_used, end,
}

-- "hello!"
abbrev hello : List ℕ
hello = 104 ∷ 101 ∷ 108 ∷ 108 ∷ 111 ∷ 33 ∷ []

-- The names that a run of the page's methods computes with.
unfoldable pub program : Unit {0}
unfolding initialize replicate take drop slice splice insert_record get_available_slot
    insert_record_in_slot has_space_for_record get_free_space get_slot slot_of set_used
    set_item_offset set_item_length std_replace std_substr sub16 add16 first_unused get_record
    validate_record_id delete_record delete_record_with close_gap move_slots move_one shift_right
    free_slot compact_slots count_unused_tail drop_slots update_record
program = tt

-- What a run returns.
abbrev pub value {ℓ} : {A : Type ℓ} → Result A → A → A
value (ok a) d = a
value (throws e) d = d
value undefined d = d

abbrev pub nowhere : Page × RecordId
nowhere = (initialize, id_of initialize 0)

abbrev page_one : Page
page_one = (value (insert_record initialize hello) nowhere).0

page_one-made : insert_record initialize hello ≡ ok (page_one, id_of initialize 1)
unfolding program
page_one-made = refl

page_one-Stored : Stored initialize hello page_one (id_of initialize 1)
unfolding program
page_one-Stored =
    Returns-at {P = λ s. Stored initialize hello s.0 s.1} (page_one, id_of initialize 1) refl
      (insert_record-Stored initialize-IsValid hello (omega arith) (omega arith) (λ _. refl))

insert_record-Stored_example :
    Returns (insert_record initialize hello) (λ s. Stored initialize hello s.0 s.1)
unfolding program
insert_record-Stored_example =
    insert_record-Stored initialize-IsValid hello (omega arith) (omega arith) (λ _. refl)

delete_record-Removed_example :
    Returns (delete_record page_one (id_of page_one 1)) (Removed page_one 1)
delete_record-Removed_example = delete_record-Removed page_one-Stored.valid 1 page_one-Stored.holds

update_record-Updated_example :
    Returns
      (update_record page_one (id_of page_one 1) (1 ∷ 2 ∷ []))
      (Updated page_one 1 (1 ∷ 2 ∷ []))
unfolding program
update_record-Updated_example =
    update_record-Updated page_one-Stored.valid 1 page_one-Stored.holds (1 ∷ 2 ∷ []) (omega arith)
      (omega arith)

-- A record of 9000 bytes fits on no page.
abbrev huge : List ℕ
huge = replicate 9000 7

insert_record_full_example :
    insert_record initialize huge
    ≡ throws (
        insufficient_space
          (record { page_number = 0; space_requested = length huge; space_available = 8176 }))
unfolding program
insert_record_full_example = insert_record_full initialize-IsValid huge (omega arith)

update_record_full_example :
    update_record page_one (id_of page_one 1) huge
    ≡ throws (
        insufficient_space
          (record { page_number = 0; space_requested = length huge; space_available = 8170 }))
unfolding program
update_record_full_example =
    update_record_full page_one-Stored.valid 1 page_one-Stored.holds huge (omega arith)

bad_id_refused_example :
    (get_record page_one (record { page_number = 5; slot_number = 1 })
      ≡ no_record page_one (record { page_number = 5; slot_number = 1 }))
    × ((allow : Bool)
        → delete_record_with page_one (record { page_number = 5; slot_number = 1 }) allow
          ≡ no_record page_one (record { page_number = 5; slot_number = 1 }))
    × ((r : List ℕ)
        → update_record page_one (record { page_number = 5; slot_number = 1 }) r
          ≡ no_record page_one (record { page_number = 5; slot_number = 1 }))
unfolding program
bad_id_refused_example =
    bad_id_refused page_one-Stored.valid (record { page_number = 5; slot_number = 1 })
      (inl (omega arith))

visits : (begin page_one >>= iterate 2) ≡ ok (hello ∷ [])
unfolding program begin iterate is_equal deref advance get_next_used_slot next_used end
visits = refl

-- Two records are inserted, the first one is deleted, and the second one updated.
abbrev pair : List ℕ
pair = 1 ∷ 2 ∷ []

abbrev triple : List ℕ
triple = 1 ∷ 2 ∷ 3 ∷ []

abbrev page_two : Page
page_two = (value (insert_record page_one pair) nowhere).0

abbrev page_three : Page
page_three = value (delete_record page_two (id_of page_two 1)) initialize

abbrev page_four : Page
page_four = value (update_record page_three (id_of page_three 2) triple) initialize

abbrev map_four : Records
map_four =
    assign (assign (assign (assign (λ _. none) 1 (some hello)) 2 (some pair)) 1 none) 2
      (some triple)

page_four-Reached : Reached page_four map_four
unfolding program
page_four-Reached =
    updated
      (deleted
        (inserted {rid = id_of page_one 2}
          (inserted {rid = id_of initialize 1} (start 0 0) hello (omega arith) refl) pair
          (omega arith) refl)
        1 hello refl refl)
      2 pair triple refl (omega arith) refl

get_record-Reached_example :
    IsValid page_four
    × (((2 ≤ num page_four)
          × (get_record page_four (id_of page_four 2) ≡ answer page_four 2 (some triple)))
        ⊎ ((num page_four < 2) × (map_four 2 ≡ none)))
    × ((begin page_four >>= iterate 3) ≡ ok (listed map_four (num page_four) 1))
unfolding program
get_record-Reached_example = get_record-Reached page_four-Reached 2 3 (omega arith) (omega arith)

-- Two records stand on the page.
abbrev map_two : Records
map_two = assign (assign (λ _. none) 1 (some hello)) 2 (some pair)

page_two-Reached : Reached page_two map_two
unfolding program
page_two-Reached =
    inserted {rid = id_of page_one 2}
      (inserted {rid = id_of initialize 1} (start 0 0) hello (omega arith) refl) pair (omega arith)
      refl

Reached_bounds_example :
    (length page_two.data_ ≡ data_size)
    × (page_two.header.free_space_lower_bound ≡ slot_size * num page_two)
    × (page_two.header.free_space_lower_bound ≤ upper page_two)
    × (upper page_two ≤ data_size)
    × (free page_two ≤ num page_two)
    × (get_free_space page_two ≡ upper page_two - page_two.header.free_space_lower_bound)
    × Placed page_two map_two 1
    × Apart page_two map_two 1 2
Reached_bounds_example = Reached_bounds page_two-Reached 1 2
