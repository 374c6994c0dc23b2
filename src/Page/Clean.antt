-- ===== src/Page/Clean.antt =====
-- Pages into which records have only been inserted (src/page.cpp).
use hit_database_exp3p2_cpp.Base.{
  ℕ, ◌+◌, ◌-◌, ◌*◌, ◌≤◌, ◌<◌, ◌≡◌, refl, ◌∙◌, false, List, arith, length, byte,
}
use hit_database_exp3p2_cpp.Result.{ok}
use hit_database_exp3p2_cpp.Page.{Page, insert_record}
use hit_database_exp3p2_cpp.Page.Slot.{slot_size, slot_of}
use hit_database_exp3p2_cpp.Page.Valid.{slots, num, upper, free, IsValid, id_of}
use hit_database_exp3p2_cpp.Page.InsertInSlot.{Inserted, insert_record_in_slot-Counted}
use hit_database_exp3p2_cpp.Page.Available.{grow, available_grown, grow-IsValid}
use hit_database_exp3p2_cpp.Page.Insert.{ungrow, has_space}

-- No slot is free, and the bytes between the slots and the records are zero.
pub record IsClean (p : Page) : Type 0 where
  pub full : free p ≡ 0
  pub zeros : (i : ℕ) → slot_size * num p ≤ i → i < upper p → byte p.data_ i ≡ 0

module _ {p : Page} (v : IsValid p) (c : IsClean p) (r : List ℕ) (some_bytes : 0 < length r)
    (room : slot_size * (num p + 1) + length r ≤ upper p) where
  next_unused : (slots p (num p + 1)).used ≡ false
  unfolding slot_of
  next_unused = let at = c.zeros ((num p + 1 - 1) * 6) (omega arith) (omega arith) in rw at refl

  pub insert_record-IsClean :
      (q : Page) × (insert_record p r ≡ ok (q, id_of p (num p + 1)))
      × Inserted p (num p + 1) r q
      × IsClean q
      × (num q ≡ num p + 1)
  unfolding insert_record
  insert_record-IsClean =
      let w : IsValid (grow p) = grow-IsValid v c.full (omega arith) next_unused in
      let (q, e, (i, counts)) =
        insert_record_in_slot-Counted w (num p + 1) r (omega arith) (omega arith) next_unused
          some_bytes room (omega arith) in
      let space = i.space in
      (
        q,
        rw (has_space v r (ground (arith, c.full)), available_grown v c.full (omega arith), e) refl,
        ungrow p r q i,
        record {
          full = counts.fewer;
          zeros = λ k low high.
              let n = counts.count in
              counts.between k (omega arith) high ∙ c.zeros k (omega arith) (omega arith);
        },
        counts.count,
      )
