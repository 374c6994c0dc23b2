-- ===== src/Page/Available.antt =====
-- getAvailableSlot of src/page.cpp on a valid page.
use hit_database_exp3p2_cpp.Base.{
  ℕ, zero, suc, ◌+◌, ◌*◌, ◌%◌, ◌^◌, ◌≤◌, ◌<◌, ◌≡◌, refl, ◌∙◌, ◌⊎◌, inl, inr, true, false, List,
  arith, length, ◌==◌, Bool-cases, lt→ltb, le→ltb, ==-ne,
}
use hit_database_exp3p2_cpp.Result.{ok}
use hit_database_exp3p2_cpp.Page.{Page, first_unused, get_available_slot}
use hit_database_exp3p2_cpp.Page.Slot.{slot_size, slot_of, add16}
use hit_database_exp3p2_cpp.Page.Slot.Fills.{get_slot_lem, add16-lt}
use hit_database_exp3p2_cpp.Page.Layout.{vacancy}
use hit_database_exp3p2_cpp.Page.Layout.Sums.{sum, sum_zero}
use hit_database_exp3p2_cpp.Page.Layout.Resize.{grow_lem}
use hit_database_exp3p2_cpp.Page.Valid.{slots, num, upper, free, IsValid, upper-le, num-lt}

-- The search finds the first unused slot from `i` on, or none is unused.
pub first_unused_lem :
    (d : List ℕ) (rounds i : ℕ)
    → 0 < i
    → slot_size * (i + rounds) ≤ length d + slot_size
    → ((first_unused d rounds i ≡ ok 0)
        × ((m : ℕ) → i ≤ m → m < i + rounds → (slot_of d m).used ≡ true))
      ⊎ ((k : ℕ) × (first_unused d rounds i ≡ ok k)
          × (i ≤ k)
          × (k < i + rounds)
          × ((slot_of d k).used ≡ false))
unfolding first_unused
first_unused_lem d zero i pos room = inl (refl, λ m a b. absurd (omega arith))
first_unused_lem d (suc rounds) i pos room =
    let read = get_slot_lem d i pos (omega arith) in
    elim (Bool-cases (slot_of d i).used) [
      | inr off ↦ inr (i, rw (read, off), omega arith, omega arith, off)
      | inl on ↦ elim (first_unused_lem d rounds (i + 1) (omega arith) (omega arith)) [
        | inl (e, all) ↦ inl (
          rw (read, on) e,
          λ m a b. elim (Bool-cases (m == i)) [
            | inl here ↦ let h : m ≡ i = ground arith in rw h on
            | inr away ↦ let h : ¬ (m ≡ i) = ground arith in all m (omega arith) (omega arith)
          ],
        )
        | inr (k, e, a, b, off) ↦ inr (k, rw (read, on) e, omega arith, omega arith, off)
      ]
    ]

-- The page after a slot is allocated at the end of the slot array.
abbrev pub grow : Page → Page
grow p = record p {
  header = record (p.header) {
    num_slots = num p + 1;
    num_free_slots = 1;
    free_space_lower_bound = slot_size * (num p + 1);
  };
}

module _ {p : Page} (v : IsValid p) where
  -- A free slot is found and reused.
  pub available_reused :
      0 < free p
      → (k : ℕ) × (get_available_slot p ≡ ok (p, k))
        × (0 < k)
        × (k ≤ num p)
        × ((slots p k).used ≡ false)
  unfolding get_available_slot
  available_reused some_free =
      elim (first_unused_lem p.data_ (num p) 1 (omega arith) (omega (arith, num-lt v, v.whole))) [
        | inl (e, all) ↦
            let z : sum (vacancy (slots p)) (num p) ≡ 0 =
              sum_zero (vacancy (slots p)) (num p) (λ m a b. rw (all m a (omega arith)) refl) in
            absurd (omega (arith, v.layout.vacant))
        | inr (k, e, a, b, off) ↦ (
          k,
          rw (lt→ltb 0 (free p) some_free, e, ==-ne k 0 (omega arith)) refl,
          a,
          omega arith,
          off,
        )
      ]

  -- Without a free slot one is allocated.
  pub available_grown :
      free p ≡ 0 → slot_size * (num p + 1) ≤ upper p → get_available_slot p ≡ ok (grow p, num p + 1)
  unfolding get_available_slot
  available_grown no_free room =
      let a : add16 (num p) 1 ≡ num p + 1 = add16-lt (num p) 1 (omega (arith, upper-le v)) in
      let b : add16 (free p) 1 ≡ 1 = add16-lt (free p) 1 (omega arith) ∙ omega arith in
      let c : (slot_size * (num p + 1)) % 2 ^ 16 ≡ slot_size * (num p + 1) =
        omega (arith, upper-le v) in
      rw (le→ltb 0 (free p) (omega arith), a, b, c, ==-ne (num p + 1) 0 (omega arith)) refl

  pub grow-IsValid :
      free p ≡ 0
      → slot_size * (num p + 1) ≤ upper p
      → (slots p (num p + 1)).used ≡ false
      → IsValid (grow p)
  grow-IsValid no_free room unused =
      let e : num p + 1 ≡ suc (num p) = omega arith in
      let one : free p + 1 ≡ 1 = omega arith in
      let longer = grow_lem (slots p) (num p) (upper p) (free p) (rw e at unused) v.layout in
      record { whole = v.whole; lower = refl; order = room; layout = rw e (rw one at longer) }
