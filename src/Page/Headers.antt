-- ===== src/Page/Headers.antt =====
-- operator== of PageHeader (src/page.h), which does not look at the bounds of the free space.
use hit_database_exp3p2_cpp.Base.{
  ℕ, ◌+◌, ◌*◌, ◌≤◌, ◌<◌, ◌≡◌, refl, sym, ◌∙◌, ap, Bool, true, ◌&&◌, ◌==◌, ==-refl, List, arith,
  length,
}
use hit_database_exp3p2_cpp.Result.{ok}
use hit_database_exp3p2_cpp.Page.{Page, PageHeader, insert_record}
use hit_database_exp3p2_cpp.Page.Slot.{slot_size}
use hit_database_exp3p2_cpp.Page.Valid.{num, upper, IsValid, id_of}
use hit_database_exp3p2_cpp.Page.Clean.{IsClean, insert_record-IsClean}

unfoldable pub is_equal : PageHeader → PageHeader → Bool
is_equal a rhs =
    a.num_slots == rhs.num_slots
    && (a.num_free_slots == rhs.num_free_slots
        && (a.current_page_number == rhs.current_page_number
            && a.next_page_number == rhs.next_page_number))

-- The four members that are compared agree.
record Agree (a b : PageHeader) : Type 0 where
  pub slots : a.num_slots ≡ b.num_slots
  pub free_slots : a.num_free_slots ≡ b.num_free_slots
  pub number : a.current_page_number ≡ b.current_page_number
  pub next : a.next_page_number ≡ b.next_page_number

is_equal-Agree : (a b : PageHeader) → Agree a b → is_equal a b ≡ true
unfolding is_equal
is_equal-Agree a b g =
    rw
      (
        g.slots,
        g.free_slots,
        g.number,
        g.next,
        ==-refl b.num_slots,
        ==-refl b.num_free_slots,
        ==-refl b.current_page_number,
        ==-refl b.next_page_number,
      )
      refl

-- On a valid page without a free slot, whose bytes between the slots and the records are zero, two
-- records that are not empty, of different lengths, and with room each, are inserted: the pages that
-- the two calls return have headers that differ, and compare equal.
pub insert_record-headers :
    {p : Page}
    → IsValid p
    → IsClean p
    → (r s : List ℕ) → 0 < length r
    → 0 < length s
    → slot_size * (num p + 1) + length r ≤ upper p
    → slot_size * (num p + 1) + length s ≤ upper p
    → ¬ (length r ≡ length s)
    → (a : Page) × (b : Page) × (insert_record p r ≡ ok (a, id_of p (num p + 1)))
      × (insert_record p s ≡ ok (b, id_of p (num p + 1)))
      × (is_equal a.header b.header ≡ true)
      × (¬ (a.header ≡ b.header))
insert_record-headers {p} v c r s some_r some_s room_r room_s other =
    let (a, run_a, i, clean_a, count_a) = insert_record-IsClean v c r some_r room_r in
    let (b, run_b, j, clean_b, count_b) = insert_record-IsClean v c s some_s room_s in
    (
      a,
      b,
      run_a,
      run_b,
      is_equal-Agree a.header b.header (record {
        slots = count_a ∙ sym count_b;
        free_slots = clean_a.full ∙ sym clean_b.full;
        number = i.same_page ∙ sym j.same_page;
        next = i.same_next ∙ sym j.same_next;
      }),
      λ e.
          let same = ap (λ (h : PageHeader). h.free_space_upper_bound) e in
          let x = i.space in let y = j.space in other (omega arith),
    )
