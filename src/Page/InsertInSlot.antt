-- ===== src/Page/InsertInSlot.antt =====
-- insertRecordInSlot of src/page.cpp on a valid page.
use hit_database_exp3p2_cpp.Base.{
  ℕ, ◌+◌, ◌-◌, ◌*◌, ◌%◌, ◌^◌, ◌≤◌, ◌<◌, ◌≡◌, refl, sym, ◌∙◌, ap, ◌⊎◌, inl, inr, true, false, List,
  arith, length, byte, slice, splice, ltb, ◌==◌, Bool-cases, ==-ne, le→ltb, length-splice,
  byte-splice_before, byte-splice_in, byte-splice_after, slice_ext, get_or_ext, length-slice,
  byte-slice,
}
use hit_database_exp3p2_cpp.Result.{ok, Returns}
use hit_database_exp3p2_cpp.Page.{
  Page, data_size, page_number, next_page_number, insert_record_in_slot,
}
use hit_database_exp3p2_cpp.Page.Slot.{PageSlot, slot_size, slot_of, sub16}
use hit_database_exp3p2_cpp.Page.Slot.Writes.{slot_of_congr}
use hit_database_exp3p2_cpp.Page.Slot.Fills.{
  get_slot_lem, std_replace_lem, sub16-le, insert_fill, length-insert_fill, byte-insert_fill,
  slot_of-insert_fill_ne, slot_of-insert_fill_self,
}
use hit_database_exp3p2_cpp.Page.Layout.{Layout}
use hit_database_exp3p2_cpp.Page.Layout.Place.{place_lem}
use hit_database_exp3p2_cpp.Page.Valid.{
  slots, num, upper, free, IsValid, Holds, record_of, upper-le, num-lt, free-le, read_slot,
}

-- Page `q` is page `p` with the record `r` put into slot `k`.
pub record Inserted (p : Page) (k : ℕ) (r : List ℕ) (q : Page) : Type 0 where
  pub valid : IsValid q
  pub holds : Holds q k
  pub reads : record_of q k ≡ r
  pub keeps : (m : ℕ) → Holds p m → Holds q m × (record_of q m ≡ record_of p m)
  pub only : (m : ℕ) → Holds q m → (m ≡ k) ⊎ Holds p m
  pub same_page : page_number q ≡ page_number p
  pub same_next : next_page_number q ≡ next_page_number p
  pub space : upper q + length r ≡ upper p

-- The slot array is as long as before, with a free slot less, and the free space that is left reads as
-- before.
pub record Counted (p q : Page) : Type 0 where
  pub count : num q ≡ num p
  pub fewer : free q ≡ free p - 1
  pub between : (i : ℕ) → slot_size * num p ≤ i → i < upper q → byte q.data_ i ≡ byte p.data_ i

module _ {p : Page} (v : IsValid p) (k : ℕ) (r : List ℕ) (pos : 0 < k) (in_range : k ≤ num p)
    (unused : (slots p k).used ≡ false) (some_bytes : 0 < length r)
    (room : slot_size * num p + length r ≤ upper p) where
  marked : List ℕ
  marked = insert_fill p.data_ k true (upper p - length r) (length r)

  result : Page
  unfolding marked
  result = record {
    header = record (p.header) {
      free_space_upper_bound = upper p - length r;
      num_free_slots = sub16 (free p) 1;
    };
    data_ = splice marked (upper p - length r) (length r) r;
  }

  top : slot_size * k ≤ length p.data_
  top = read_slot v k pos in_range

  length-marked : length marked ≡ length p.data_
  unfolding marked
  length-marked = length-insert_fill p.data_ k true _ _ pos top

  fits : (upper p - length r) + length r ≤ length marked
  fits = omega (arith, length-marked, upper-le v, v.whole)

  slots-result : (m : ℕ) → 0 < m → m ≤ num p → slots result m ≡ slot_of marked m
  unfolding result
  slots-result m q h =
      slot_of_congr _ marked m (upper p - length r) q (omega arith)
        (λ i l. byte-splice_before marked _ _ r refl fits i l)

  slots-result_self :
      slots result k
      ≡ record { used = true; item_offset = upper p - length r; item_length = length r }
  unfolding marked
  slots-result_self =
      slots-result k pos in_range
      ∙ slot_of-insert_fill_self p.data_ k true _ _ pos top (omega (arith, upper-le v))
          (omega (arith, upper-le v))

  slots-result_ne : (m : ℕ) → 0 < m → m ≤ num p → ¬ (m ≡ k) → slots result m ≡ slots p m
  unfolding marked
  slots-result_ne m q h ne =
      slots-result m q h ∙ slot_of-insert_fill_ne p.data_ k true _ _ pos top m q (λ e. ne (sym e))

  length-result : length result.data_ ≡ data_size
  unfolding result
  length-result = length-splice marked _ _ r refl fits ∙ length-marked ∙ v.whole

  Layout-result : Layout (slots result) (num p) (upper p - length r) (free p - 1)
  Layout-result =
      place_lem (slots p) (slots result) (num p) (upper p) (free p) k (length r) v.layout pos
        in_range unused some_bytes (omega (arith, room)) slots-result_self slots-result_ne

  not_k : (m : ℕ) → Holds p m → ¬ (m ≡ k)
  not_k m h e = ground (arith, h.2)

  same_slot : (m : ℕ) → Holds p m → slots result m ≡ slots p m
  same_slot m h = slots-result_ne m h.0 h.1 (not_k m h)

  -- The bytes from the old upper bound on are as they were.
  byte-result_after : (i : ℕ) → upper p ≤ i → byte result.data_ i ≡ byte p.data_ i
  unfolding result marked
  byte-result_after i h =
      byte-splice_after marked _ _ r refl fits i (omega arith)
      ∙ byte-insert_fill p.data_ k true _ _ pos top i (omega (arith, room))

  reads-result : record_of result k ≡ r
  unfolding result
  reads-result = rw slots-result_self (
      get_or_ext (slice result.data_ (upper p - length r) (length r)) r 0
        (length-slice result.data_ _ _ (omega (arith, length-result, upper-le v)))
        (λ i l.
          let l' : i < length r = omega (
            arith,
            length-slice result.data_ (upper p - length r) (length r)
                (omega (arith, length-result, upper-le v)),
          ) in
          byte-slice result.data_ _ _ i l' ∙ byte-splice_in marked _ _ r refl fits i l'))

  keeps-result : (m : ℕ) → Holds p m → record_of result m ≡ record_of p m
  keeps-result m h = rw (same_slot m h) (
      slice_ext result.data_ p.data_ _ _ _ (omega (arith, length-result, v.layout.ends m h))
        (omega (arith, v.whole, v.layout.ends m h))
        (λ i l. byte-result_after _ (omega (arith, v.layout.starts m h))))

  result-Inserted : 0 < free p → Inserted p k r result
  unfolding result
  result-Inserted some_free = record {
    valid = record {
      whole = length-result;
      lower = v.lower;
      order = omega (arith, room);
      layout =
          rw (sub16-le (free p) 1 some_free (omega (arith, free-le v, num-lt v))) Layout-result;
    };
    holds = (pos, in_range, ap (λ (s : PageSlot). s.used) slots-result_self);
    reads = reads-result;
    keeps =
        λ m h. ((h.0, h.1, ap (λ (s : PageSlot). s.used) (same_slot m h) ∙ h.2), keeps-result m h);
    only = λ m h. elim (Bool-cases (m == k)) [
      | inl e ↦ inl (ground arith)
      | inr ne ↦ inr (
        h.0,
        h.1,
        sym (ap (λ (s : PageSlot). s.used) (slots-result_ne m h.0 h.1 (ground arith))) ∙ h.2,
      )
    ];
    same_page = refl;
    same_next = refl;
    space = omega (arith, room);
  }

  insert-result : insert_record_in_slot p k r ≡ ok result
  unfolding insert_record_in_slot result marked
  insert-result =
      let a : ltb (num p) k ≡ false = le→ltb (num p) k in_range in
      let b : k == 0 ≡ false = ==-ne k 0 (omega arith) in
      let c : length r % 2 ^ 16 ≡ length r = omega (arith, upper-le v) in
      rw
        (
          a,
          b,
          get_slot_lem p.data_ k pos top,
          unused,
          c,
          sub16-le (upper p) (length r) (omega (arith, room)) (omega (arith, upper-le v)),
        )
        (rw (std_replace_lem marked (upper p - length r) (length r) r (omega (arith, fits))) refl)

  -- The slot is filled with the record's bytes, and every other record stays.
  pub insert_record_in_slot-Inserted :
      0 < free p → Returns (insert_record_in_slot p k r) (Inserted p k r)
  insert_record_in_slot-Inserted some_free = (result, insert-result, result-Inserted some_free)

  result-Counted : 0 < free p → Counted p result
  unfolding result marked
  result-Counted some_free = record {
    count = refl;
    fewer = sub16-le (free p) 1 some_free (omega (arith, free-le v, num-lt v));
    between = λ i low high.
        byte-splice_before marked _ _ r refl fits i high
        ∙ byte-insert_fill p.data_ k true _ _ pos top i (omega arith);
  }

  pub insert_record_in_slot-Counted :
      0 < free p → Returns (insert_record_in_slot p k r) (λ q. Inserted p k r q × Counted p q)
  insert_record_in_slot-Counted some_free =
      (result, insert-result, (result-Inserted some_free, result-Counted some_free))
