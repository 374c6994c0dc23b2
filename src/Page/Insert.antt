-- ===== src/Page/Insert.antt =====
-- insertRecord of src/page.cpp on a valid page.
use hit_database_exp3p2_cpp.Base.{
  ℕ, ◌+◌, ◌-◌, ◌*◌, ◌≤◌, ◌<◌, ◌≡◌, refl, sym, ◌∙◌, ap, ◌⊎◌, inl, inr, true, false, List, arith,
  length, ◌==◌, if◌then◌else◌, Bool-cases, le→ltb, ==-ne,
}
use hit_database_exp3p2_cpp.Result.{ok, throws, Returns}
use hit_database_exp3p2_cpp.Result.Exceptions.{RecordId, insufficient_space, slot_in_use}
use hit_database_exp3p2_cpp.Page.{
  Page, page_number, get_record, get_free_space, has_space_for_record, insert_record_in_slot,
  insert_record,
}
use hit_database_exp3p2_cpp.Page.Slot.{slot_size}
use hit_database_exp3p2_cpp.Page.Slot.Fills.{get_slot_lem, sub16-le}
use hit_database_exp3p2_cpp.Page.Valid.{
  slots, num, upper, free, IsValid, Holds, id_of, upper-le, get_record-Holds,
}
use hit_database_exp3p2_cpp.Page.InsertInSlot.{Inserted, insert_record_in_slot-Inserted}
use hit_database_exp3p2_cpp.Page.Available.{grow, available_reused, available_grown, grow-IsValid}

-- The new page `q` holds the record under `rid`, which named none, and what it held before.
pub record Stored (p : Page) (r : List ℕ) (q : Page) (rid : RecordId) : Type 0 where
  pub valid : IsValid q
  pub on_page : rid ≡ id_of p rid.slot_number
  pub fresh : ¬ Holds p rid.slot_number
  pub holds : Holds q rid.slot_number
  pub reads : get_record q rid ≡ ok r
  pub keeps :
      (m : ℕ) → Holds p m → Holds q m × (get_record q (id_of p m) ≡ get_record p (id_of p m))
  pub only : (m : ℕ) → Holds q m → (m ≡ rid.slot_number) ⊎ Holds p m
  pub same_page : page_number q ≡ page_number p

-- A record put into an unused slot is stored under that slot's identifier.
Inserted-Stored :
    (p : Page) (k : ℕ) (r : List ℕ) (q : Page)
    → IsValid p
    → ¬ Holds p k
    → Inserted p k r q
    → Stored p r q (id_of p k)
Inserted-Stored p k r q v unheld i =
    let same = λ (m : ℕ). ap (λ n. record { page_number = n; slot_number = m }) i.same_page in
    record {
      valid = i.valid;
      on_page = refl;
      fresh = unheld;
      holds = i.holds;
      reads = ap (get_record q) (sym (same k)) ∙ get_record-Holds i.valid k i.holds ∙ ap ok i.reads;
      keeps = λ m h.
          let (h', e) = i.keeps m h in
          (
            h',
            ap (get_record q) (sym (same m))
                ∙ get_record-Holds i.valid m h'
                ∙ ap ok e
                ∙ sym (get_record-Holds v m h),
          );
      only = i.only;
      same_page = i.same_page;
    }

-- What is put into the slot that was allocated is put into the page.
pub ungrow :
    (p : Page) (r : List ℕ) (q : Page)
    → Inserted (grow p) (num p + 1) r q
    → Inserted p (num p + 1) r q
ungrow p r q i = record {
  valid = i.valid;
  holds = i.holds;
  reads = i.reads;
  keeps = λ m h. i.keeps m (h.0, omega (arith, h.1), h.2);
  only = λ m h. elim (i.only m h) [
    | inl e ↦ inl e
    | inr w ↦ elim (Bool-cases (m == num p + 1)) [
      | inl e ↦ inl (ground arith)
      | inr ne ↦ let ne' : ¬ (m ≡ num p + 1) = ground arith in inr (w.0, omega (arith, w.1), w.2)
    ]
  ];
  same_page = i.same_page;
  same_next = i.same_next;
  space = i.space;
}

-- The bytes that a record of this length takes, with its slot if no slot is free.
abbrev pub needed : Page → List ℕ → ℕ
needed p r = length r + (if free p == 0 then slot_size else 0)

module _ {p : Page} (v : IsValid p) (r : List ℕ) where
  pub get_free_space-IsValid : get_free_space p ≡ upper p - slot_size * num p
  unfolding get_free_space
  get_free_space-IsValid =
      rw
        (sub16-le (upper p) p.header.free_space_lower_bound (omega (arith, v.lower, v.order))
          (omega (arith, upper-le v)))
        (omega (arith, v.lower))

  pub has_space : needed p r + slot_size * num p ≤ upper p → has_space_for_record p r ≡ true
  unfolding has_space_for_record
  has_space h = rw get_free_space-IsValid (ground arith)

  has_no_space : upper p < needed p r + slot_size * num p → has_space_for_record p r ≡ false
  unfolding has_space_for_record
  has_no_space h = rw get_free_space-IsValid (ground (arith, v.order))

  -- On a valid page whose free bytes are fewer than the record, with a slot if none is free, takes,
  -- insertRecord throws InsufficientSpaceException with the page, the length and the free bytes.
  pub insert_record_full :
      upper p < needed p r + slot_size * num p
      → insert_record p r
        ≡ throws (
            insufficient_space (record {
              page_number = page_number p;
              space_requested = length r;
              space_available = upper p - slot_size * num p;
            }))
  unfolding insert_record
  insert_record_full h = rw (has_no_space h, get_free_space-IsValid) refl

  module _ (some_bytes : 0 < length r) (room : needed p r + slot_size * num p ≤ upper p) where
    Stored-reused : 0 < free p → Returns (insert_record p r) (λ s. Stored p r s.0 s.1)
    unfolding insert_record
    Stored-reused some_free =
        let (k, found, pos, in_range, off) = available_reused v some_free in
        let (q, e, i) =
          insert_record_in_slot-Inserted v k r pos in_range off some_bytes (omega (arith, room))
            some_free in
        (
          (q, id_of p k),
          rw (has_space room, found, e) refl,
          Inserted-Stored p k r q v (λ h. ground (arith, h.2)) i,
        )

    Stored-grown :
        free p ≡ 0
        → (slots p (num p + 1)).used ≡ false
        → Returns (insert_record p r) (λ s. Stored p r s.0 s.1)
    unfolding insert_record
    Stored-grown no_free off =
        let space : slot_size * (num p + 1) + length r ≤ upper p = ground (arith, room) in
        let w : IsValid (grow p) = grow-IsValid v no_free (omega arith) off in
        let (q, e, i) =
          insert_record_in_slot-Inserted w (num p + 1) r (omega arith) (omega arith) off some_bytes
            space (omega arith) in
        (
          (q, id_of p (num p + 1)),
          rw (has_space room, available_grown v no_free (omega arith), e) refl,
          Inserted-Stored p (num p + 1) r q v (λ h. omega (arith, h.1)) (ungrow p r q i),
        )

    -- On a valid page, a record that is not empty and for which there is room (with a slot, if none
    -- is free) is stored, unless a slot must be allocated and its bytes read as a used slot: the page
    -- stays valid, the new identifier named no record and reads the record back, and every other
    -- record keeps its identifier and its bytes.
    pub insert_record-Stored :
        (free p ≡ 0 → (slots p (num p + 1)).used ≡ false)
        → Returns (insert_record p r) (λ s. Stored p r s.0 s.1)
    insert_record-Stored clean = elim (Bool-cases (free p == 0)) [
      | inl e ↦ let e' : free p ≡ 0 = ground arith in Stored-grown e' (clean e')
      | inr e ↦ Stored-reused (ground arith)
    ]

    -- If no slot is free and the bytes of the slot to be allocated read as a used slot, insertRecord
    -- throws SlotInUseException, whatever room the valid page has.
    pub insert_record_stale :
        free p ≡ 0
        → (slots p (num p + 1)).used ≡ true
        → insert_record p r
          ≡ throws (slot_in_use (record { page_number = page_number p; slot_number = num p + 1 }))
    unfolding insert_record insert_record_in_slot
    insert_record_stale no_free on =
        let space : slot_size * (num p + 1) + length r ≤ upper p = ground (arith, room) in
        let read =
          get_slot_lem p.data_ (num p + 1) (omega arith) (omega (arith, v.whole, upper-le v)) in
        rw (has_space room, available_grown v no_free (omega arith))
          (rw
            (
              le→ltb (num p + 1) (num p + 1) (omega arith),
              ==-ne (num p + 1) 0 (omega arith),
              read,
              on,
            )
            refl)
