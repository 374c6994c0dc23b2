-- ===== src/Page/Thrown.antt =====
-- What insertRecord of src/page.cpp leaves in the page when it throws.
use hit_database_exp3p2_cpp.Base.{
  ℕ, ◌+◌, ◌*◌, ◌≤◌, ◌<◌, ◌≡◌, refl, ◌∙◌, ap, inl, inr, true, List, arith, length, ltb, slice,
  if◌then◌else◌, Bool-cases, ==-ne, le→ltb, ◌==◌, ==-refl,
}
use hit_database_exp3p2_cpp.Result.{Result, ok, throws, undefined}
use hit_database_exp3p2_cpp.Result.Exceptions.{RecordId, slot_in_use, std_out_of_range}
use hit_database_exp3p2_cpp.Page.{
  Page, data_size, page_number, get_record, has_space_for_record, get_available_slot,
  insert_record_in_slot, insert_record, get_free_space, validate_record_id, first_unused,
}
use hit_database_exp3p2_cpp.Page.Slot.{PageSlot, slot_size, get_slot, std_substr}
use hit_database_exp3p2_cpp.Page.Slot.Fills.{get_slot_lem, sub16-le}
use hit_database_exp3p2_cpp.Page.Layout.{vacancy}
use hit_database_exp3p2_cpp.Page.Layout.Sums.{sum_mono_point}
use hit_database_exp3p2_cpp.Page.Valid.{slots, num, upper, free, IsValid, id_of, upper-le}
use hit_database_exp3p2_cpp.Page.Available.{grow, available_grown, first_unused_lem}
use hit_database_exp3p2_cpp.Page.Insert.{needed, has_space, insert_record_stale}

-- The page after insertRecordInSlot, which changes nothing before it throws.
abbrev pub in_slot_left : Page → Result Page → Page
in_slot_left q (ok r) = r
in_slot_left q (throws e) = q
in_slot_left q undefined = q

-- The page after getAvailableSlot, and what follows.
abbrev pub available_left : Page → List ℕ → Result (Page × ℕ) → Page
available_left p record_data (ok (q, n)) = in_slot_left q (insert_record_in_slot q n record_data)
available_left p record_data (throws e) = p
available_left p record_data undefined = p

-- The page after insertRecord, whether it returns or throws.
unfoldable pub insert_record_left : Page → List ℕ → Page
insert_record_left p record_data =
    if has_space_for_record p record_data
    then available_left p record_data (get_available_slot p)
    else p

-- What is read through a slot whose offset and length nobody has set: the bytes that they name, up to
-- the end of the string, or std::out_of_range for an offset past the string.
abbrev pub named_bytes : Page → PageSlot → Result (List ℕ)
named_bytes p slot =
    if ltb data_size slot.item_offset
    then throws std_out_of_range
    else ok (slice p.data_ slot.item_offset slot.item_length)

module _ {p : Page} (v : IsValid p) (no_free : free p ≡ 0)
    (stale : (slots p (num p + 1)).used ≡ true) where
  -- Every slot of the page that is left reads as used.
  used_everywhere : (m : ℕ) → 0 < m → m ≤ num p → (slots p m).used ≡ true
  used_everywhere m pos low = elim (Bool-cases (slots p m).used) [
    | inl on ↦ on
    | inr off ↦
        let one : vacancy (slots p) m ≡ 1 = rw off refl in
        absurd (
          omega (
            arith,
            sum_mono_point (λ _. 0) (vacancy (slots p)) (num p) m pos low (λ j a b. omega arith),
            v.layout.vacant,
          ))
  ]

  used_or_stale : (m : ℕ) → 0 < m → m < 1 + (num p + 1) → (slots p m).used ≡ true
  used_or_stale m pos low = elim (Bool-cases (m == num p + 1)) [
    | inl e ↦ let e' : m ≡ num p + 1 = ground arith in rw e' stale
    | inr ne ↦ let ne' : ¬ (m ≡ num p + 1) = ground arith in used_everywhere m pos (omega arith)
  ]

  module _ (fits : slot_size * (num p + 1) ≤ upper p) where
    none_found : first_unused p.data_ (num p + 1) 1 ≡ ok 0
    none_found =
        elim (first_unused_lem p.data_ (num p + 1) 1 (omega arith)
          (omega (arith, upper-le v, v.whole))) [
            | inl (e, all) ↦ e
            | inr (k, e, a, b, off) ↦ let on = used_or_stale k (omega arith) b in absurd (cc)
          ]

    read : get_slot p.data_ (num p + 1) ≡ ok (slots p (num p + 1))
    read = get_slot_lem p.data_ (num p + 1) (omega arith) (omega (arith, v.whole, upper-le v))

    refused :
        (r : List ℕ)
        → insert_record_in_slot (grow p) (num p + 1) r
          ≡ throws (slot_in_use (record { page_number = page_number p; slot_number = num p + 1 }))
    unfolding insert_record_in_slot
    refused r =
        rw
          (
            le→ltb (num p + 1) (num p + 1) (omega arith),
            ==-ne (num p + 1) 0 (omega arith),
            read,
            stale,
          )
          refl

    insert_record_left-grow :
        (r : List ℕ) → needed p r + slot_size * num p ≤ upper p → insert_record_left p r ≡ grow p
    unfolding insert_record_left
    insert_record_left-grow r room =
        rw (has_space v r room, available_grown v no_free fits)
          (ap (in_slot_left (grow p)) (refused r))

    space_left :
        (r : List ℕ)
        → length r + slot_size * (num p + 1) ≤ upper p
        → has_space_for_record (grow p) r ≡ true
    unfolding has_space_for_record get_free_space
    space_left r room =
        rw (sub16-le (upper p) (slot_size * (num p + 1)) fits (omega (arith, upper-le v)))
          (ground arith)

    next_aborts :
        (r : List ℕ)
        → length r + slot_size * (num p + 1) ≤ upper p
        → insert_record (grow p) r ≡ undefined
    unfolding insert_record get_available_slot
    next_aborts r room = rw (space_left r room, none_found) refl

    read_left : get_record (grow p) (id_of p (num p + 1)) ≡ named_bytes p (slots p (num p + 1))
    unfolding get_record validate_record_id std_substr
    read_left = rw (==-refl (page_number p), read, stale, v.whole) refl

-- On a valid page without a free slot, where the bytes of the slot to be allocated read as a used slot,
-- insertRecord of a record that is not empty and has room throws SlotInUseException, but leaves the
-- page with that slot counted: getRecord of the slot's number is then not refused with
-- InvalidRecordException, but delivers the bytes from the offset that the slot happens to name, for the
-- length that it names or to the end of the string, or throws std::out_of_range where that offset is past
-- the string; and insertRecord of any record for which there is room then fails its assertion.
pub insert_record_spoils :
    {p : Page}
    → IsValid p
    → (r s : List ℕ) → 0 < length r
    → needed p r + slot_size * num p ≤ upper p
    → free p ≡ 0
    → (slots p (num p + 1)).used ≡ true
    → length s + slot_size * (num p + 1) ≤ upper p
    → (insert_record p r
        ≡ throws (slot_in_use (record { page_number = page_number p; slot_number = num p + 1 })))
      × (num (insert_record_left p r) ≡ num p + 1)
      × (get_record (insert_record_left p r) (id_of p (num p + 1))
          ≡ named_bytes p (slots p (num p + 1)))
      × (insert_record (insert_record_left p r) s ≡ undefined)
insert_record_spoils {p} v r s some_bytes room no_free stale next_room =
    let fits : slot_size * (num p + 1) ≤ upper p = omega arith in
    let left = insert_record_left-grow v no_free stale fits r room in
    (
      insert_record_stale v r some_bytes room no_free stale,
      ap (λ (q : Page). num q) left,
      ap (λ (q : Page). get_record q (id_of p (num p + 1))) left ∙ read_left v no_free stale fits,
      ap (λ (q : Page). insert_record q s) left ∙ next_aborts v no_free stale fits s next_room,
    )

-- Where insertRecord returns, the page that it leaves is the one that it returns.
pub insert_record_left-ok :
    (p q : Page) (r : List ℕ) (rid : RecordId)
    → insert_record p r ≡ ok (q, rid)
    → insert_record_left p r ≡ q
unfolding insert_record insert_record_left
insert_record_left-ok p q r rid e = ground arith
