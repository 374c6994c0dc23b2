-- ===== src/Page/Reject.antt =====
-- validateRecordId of src/page.cpp: which identifiers the methods of a page refuse.
use hit_database_exp3p2_cpp.Base.{
  ℕ, ◌≤◌, ◌<◌, ◌≡◌, refl, ◌⊎◌, inl, inr, Bool, true, false, List, arith, ◌==◌, ==-ne,
}
use hit_database_exp3p2_cpp.Result.Exceptions.{RecordId}
use hit_database_exp3p2_cpp.Page.{Page, page_number, validate_record_id, get_record}
use hit_database_exp3p2_cpp.Page.Delete.{delete_record_with, update_record}
use hit_database_exp3p2_cpp.Page.Slot.Fills.{get_slot_lem}
use hit_database_exp3p2_cpp.Page.Valid.{slots, num, IsValid, no_record, read_slot}

-- An identifier of another page, or of a slot of the array that is not used.
abbrev pub IsBad : Page → RecordId → Type 0
IsBad p rid =
    (¬ (rid.page_number ≡ page_number p))
    ⊎ ((rid.page_number ≡ page_number p)
        × (0 < rid.slot_number)
        × (rid.slot_number ≤ num p)
        × ((slots p rid.slot_number).used ≡ false))

validate_bad :
    {p : Page}
    → IsValid p
    → (rid : RecordId) → IsBad p rid
    → validate_record_id p rid ≡ no_record p rid
unfolding validate_record_id
validate_bad {p} v rid (inl other) = rw (==-ne rid.page_number (page_number p) other) refl
validate_bad {p} v rid (inr (e, pos, in_range, off)) =
    let read =
      get_slot_lem p.data_ rid.slot_number pos (read_slot v rid.slot_number pos in_range) in
    let own : rid.page_number == page_number p ≡ true = ground arith in rw (own, read, off) refl

-- On a valid page getRecord, both forms of deleteRecord, and updateRecord throw
-- InvalidRecordException for an identifier of another page, and for that of a slot of the array that
-- is not used.
pub bad_id_refused :
    {p : Page}
    → IsValid p
    → (rid : RecordId) → IsBad p rid
    → (get_record p rid ≡ no_record p rid)
      × ((allow : Bool) → delete_record_with p rid allow ≡ no_record p rid)
      × ((r : List ℕ) → update_record p rid r ≡ no_record p rid)
unfolding get_record delete_record_with update_record
bad_id_refused {p} v rid bad =
    let e = validate_bad v rid bad in (rw e refl, λ allow. rw e refl, λ r. rw e refl)
