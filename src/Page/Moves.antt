-- ===== src/Page/Moves.antt =====
-- The loop of deleteRecord (src/page.cpp) that finds the records to move and changes their slots.
use hit_database_exp3p2_cpp.Base.{
  ℕ, zero, suc, ◌+◌, ◌*◌, ◌^◌, ◌≤◌, ◌<◌, ◌≡◌, refl, sym, ◌∙◌, subst, ◌⊎◌, inl, inr, Bool, true,
  false, ◌&&◌, List, arith, length, byte, ltb, ◌==◌, if◌then◌else◌, Bool-cases,
}
use hit_database_exp3p2_cpp.Result.{Returns}
use hit_database_exp3p2_cpp.Page.Delete.{Moving, move_one, move_slots}
use hit_database_exp3p2_cpp.Page.Slot.{PageSlot, slot_size, slot_of, set_item_offset}
use hit_database_exp3p2_cpp.Page.Slot.Writes.{
  length-set_item_offset, byte-set_item_offset, slot_of-set_item_offset_self,
  slot_of-set_item_offset_ne,
}
use hit_database_exp3p2_cpp.Page.Slot.Fills.{get_slot_lem, add16-lt}
use hit_database_exp3p2_cpp.Page.Layout.{weight, below, Live, Layout}
use hit_database_exp3p2_cpp.Page.Layout.Clear.{shift}
use hit_database_exp3p2_cpp.Page.Layout.Sums.{sum_zero}

-- A slot whose record stands before the one that goes.
abbrev pub Before : (ℕ → PageSlot) → ℕ → ℕ → ℕ → Type 0
Before f j k m = (0 < m) × (m ≤ j) × ((f m).used ≡ true) × ((f m).item_offset < (f k).item_offset)

-- The loop has seen slots 1 to `j`: `f` are the slots as they were, `d` the string.
pub record Moved (f : ℕ → PageSlot) (d : List ℕ) (n k j : ℕ) (s : Moving) : Type 0 where
  pub whole : length s.data_ ≡ length d
  pub beyond : (i : ℕ) → slot_size * n ≤ i → byte s.data_ i ≡ byte d i
  pub done : (m : ℕ) → 0 < m → m ≤ j → slot_of s.data_ m ≡ shift (f k) (f m)
  pub todo : (m : ℕ) → j < m → m ≤ n → slot_of s.data_ m ≡ f m
  pub bytes : s.move_bytes ≡ below f j (f k).item_offset
  pub least : (m : ℕ) → Before f j k m → s.move_offset ≤ (f m).item_offset
  pub reached :
      (s.move_offset ≡ (f k).item_offset)
      ⊎ ((m : ℕ) × Before f j k m × (s.move_offset ≡ (f m).item_offset))

module _ (f : ℕ → PageSlot) (d : List ℕ) (n k : ℕ) (room : slot_size * n ≤ length d)
    (live : Live f n k)
    (small : (m : ℕ) → Live f n m → (f m).item_offset + (f k).item_length < 2 ^ 16) where
  shift_self : shift (f k) (f k) ≡ f k
  shift_self = ground arith

  -- The slot of the record that goes is as it was, whenever it is read.
  pub slot_kept : (j : ℕ) (s : Moving) → Moved f d n k j s → slot_of s.data_ k ≡ f k
  slot_kept j s mv = elim (Bool-cases (ltb j k)) [
    | inl after ↦ mv.todo k (ground arith) live.1
    | inr before ↦ mv.done k live.0 (ground arith) ∙ shift_self
  ]

  module _ (j : ℕ) (s : Moving) (next : suc j ≤ n) (mv : Moved f d n k j s) where
    hit : Bool
    hit = (f (suc j)).used && ltb (f (suc j)).item_offset (f k).item_offset

    room' : slot_size * suc j ≤ length s.data_
    room' = omega (arith, mv.whole)

    step_miss :
        ((f (suc j)).used && ltb (f (suc j)).item_offset (f k).item_offset) ≡ false
        → Moved f d n k (suc j) s
    step_miss miss = record {
      whole = mv.whole;
      beyond = mv.beyond;
      done = λ m a b. elim (Bool-cases (m == suc j)) [
        | inl e ↦
            let e' : m ≡ suc j = ground arith in
            let same : shift (f k) (f (suc j)) ≡ f (suc j) = rw miss in
            rw e' (mv.todo (suc j) (omega arith) next ∙ sym same)
        | inr ne ↦ let ne' : ¬ (m ≡ suc j) = ground arith in mv.done m a (omega arith)
      ];
      todo = λ m a b. mv.todo m (omega arith) b;
      bytes = let z : weight f (f k).item_offset (suc j) ≡ 0 = rw miss in omega (arith, mv.bytes);
      least = λ m b. elim (Bool-cases (m == suc j)) [
        | inl e ↦ let e' : m ≡ suc j = ground arith in absurd (ground (arith, b.2, b.3))
        | inr ne ↦
            let ne' : ¬ (m ≡ suc j) = ground arith in mv.least m (b.0, omega (arith, b.1), b.2, b.3)
      ];
      reached = elim mv.reached [
        | inl e ↦ inl e
        | inr (m, b, e) ↦ inr (m, (b.0, omega (arith, b.1), b.2, b.3), e)
      ];
    }

    module _ (on : (f (suc j)).used ≡ true)
        (before : (f (suc j)).item_offset < (f k).item_offset) where
      abbrev after : Moving
      after = record {
        data_ = set_item_offset s.data_ (suc j) ((f (suc j)).item_offset + (f k).item_length);
        move_offset =
            if ltb (f (suc j)).item_offset s.move_offset
            then (f (suc j)).item_offset
            else s.move_offset;
        move_bytes = s.move_bytes + (f (suc j)).item_length;
      }

      moved_slot : slot_of after.data_ (suc j) ≡ shift (f k) (f (suc j))
      moved_slot =
          slot_of-set_item_offset_self s.data_ (suc j) (omega arith) room' _
            (small (suc j) (omega arith, next, on))
          ∙ rw (mv.todo (suc j) (omega arith) next) (ground arith)

      other_slot : (m : ℕ) → 0 < m → ¬ (m ≡ suc j) → slot_of after.data_ m ≡ slot_of s.data_ m
      other_slot m a ne =
          slot_of-set_item_offset_ne s.data_ (suc j) (omega arith) room' _ m a (λ e. ne (sym e))

      step_hit : Moved f d n k (suc j) after
      step_hit = record {
        whole = length-set_item_offset s.data_ (suc j) (omega arith) room' _ ∙ mv.whole;
        beyond = λ i h.
            byte-set_item_offset s.data_ (suc j) (omega arith) room' _ i (omega arith)
            ∙ mv.beyond i h;
        done = λ m a b. elim (Bool-cases (m == suc j)) [
          | inl e ↦ let e' : m ≡ suc j = ground arith in rw e' moved_slot
          | inr ne ↦
              let ne' : ¬ (m ≡ suc j) = ground arith in
              other_slot m a ne' ∙ mv.done m a (omega arith)
        ];
        todo = λ m a b. other_slot m (omega arith) (omega arith) ∙ mv.todo m (omega arith) b;
        bytes =
            let w : weight f (f k).item_offset (suc j) ≡ (f (suc j)).item_length =
              ground (arith, on) in
            omega (arith, mv.bytes);
        least = λ m b. elim (Bool-cases (m == suc j)) [
          | inl e ↦ let e' : m ≡ suc j = ground arith in rw e' (ground arith)
          | inr ne ↦
              let ne' : ¬ (m ≡ suc j) = ground arith in
              ground (arith, mv.least m (b.0, omega (arith, b.1), b.2, b.3))
        ];
        reached = elim (Bool-cases (ltb (f (suc j)).item_offset s.move_offset)) [
          | inl e ↦ inr (suc j, (omega arith, omega arith, on, before), rw e)
          | inr e ↦ elim mv.reached [
            | inl r ↦ inl (rw e r)
            | inr (m, b, r) ↦ inr (m, (b.0, omega (arith, b.1), b.2, b.3), rw e r)
          ]
        ];
      }

      move_one-after : move_one (f k) (suc j) (f (suc j)) s ≡ after
      unfolding move_one
      move_one-after =
          rw
            (
              on,
              add16-lt (f (suc j)).item_offset (f k).item_length
                  (small (suc j) (omega arith, next, on)),
            )
            (ground arith)

    move_one-miss :
        ((f (suc j)).used && ltb (f (suc j)).item_offset (f k).item_offset) ≡ false
        → move_one (f k) (suc j) (f (suc j)) s ≡ s
    unfolding move_one
    move_one-miss miss = rw miss

    step : Moved f d n k (suc j) (move_one (f k) (suc j) (f (suc j)) s)
    step = elim (Bool-cases ((f (suc j)).used && ltb (f (suc j)).item_offset (f k).item_offset)) [
      | inr miss ↦ rw (move_one-miss miss) (step_miss miss)
      | inl hit ↦
          let on : (f (suc j)).used ≡ true = ground arith in
          let before : (f (suc j)).item_offset < (f k).item_offset = ground arith in
          rw (move_one-after on before) (step_hit on before)
    ]

  -- With enough rounds for the slots that are left the loop sees them all.
  pub move_slots-Moved :
      (rounds j : ℕ) (s : Moving)
      → j + rounds ≡ n
      → Moved f d n k j s
      → Returns (move_slots k rounds (suc j) s) (Moved f d n k n)
  unfolding move_slots
  move_slots-Moved zero j s e mv =
      let e' : j ≡ n = omega arith in (s, refl, subst (λ x. Moved f d n k x s) e' mv)
  move_slots-Moved (suc rounds) j s e mv =
      let next : suc j ≤ n = omega arith in
      let read = get_slot_lem s.data_ (suc j) (omega arith) (omega (arith, mv.whole)) in
      let read_k = get_slot_lem s.data_ k live.0 (omega (arith, mv.whole, live.1)) in
      let (r, run, end) =
        move_slots-Moved rounds (suc j) (move_one (f k) (suc j) (f (suc j)) s) (omega arith)
          (step j s next mv) in
      let succ : suc j + 1 ≡ suc (suc j) = omega arith in
      (r, rw (read, read_k, mv.todo (suc j) (omega arith) next, slot_kept j s mv, succ) run, end)

  -- Before the first round.
  pub Moved-start :
      ((m : ℕ) → 0 < m → m ≤ n → slot_of d m ≡ f m)
      → Moved f d n k 0 (record { data_ = d; move_offset = (f k).item_offset; move_bytes = 0 })
  Moved-start same = record {
    whole = refl;
    beyond = λ i h. refl;
    done = λ m a b. absurd (omega arith);
    todo = λ m a b. same m (omega arith) b;
    bytes = refl;
    least = λ m b. absurd (omega (arith, b.0, b.1));
    reached = inl refl;
  }

  -- The records that were found begin at the page's upper bound.
  pub move_offset-upper :
      (upper free : ℕ) (s : Moving)
      → Layout f n upper free
      → Moved f d n k n s
      → 0 < s.move_bytes
      → s.move_offset ≡ upper
  move_offset-upper upper free s l mv some_bytes = elim mv.reached [
    | inl e ↦
        let z : below f n (f k).item_offset ≡ 0 = sum_zero (weight f (f k).item_offset) n λ m a b.
          elim (Bool-cases (f m).used) [
            | inr off ↦ ground arith
            | inl on ↦ elim (Bool-cases (ltb (f m).item_offset (f k).item_offset)) [
              | inr out ↦ rw (on, out) refl
              | inl within ↦ absurd (ground (arith, mv.least m (a, b, on, ground arith)))
            ]
          ] in
        absurd (omega (arith, mv.bytes))
    | inr (m, b, e) ↦
        let z : below f n (f m).item_offset ≡ 0 = sum_zero (weight f (f m).item_offset) n λ i p q.
          elim (Bool-cases (f i).used) [
            | inr off ↦ ground arith
            | inl on ↦ elim (Bool-cases (ltb (f i).item_offset (f m).item_offset)) [
              | inr out ↦ rw (on, out) refl
              | inl within ↦
                  let lt : (f i).item_offset < (f m).item_offset = ground arith in
                  absurd (omega (arith, mv.least i (p, q, on, omega (arith, b.3)), b.3))
            ]
          ] in
        omega (arith, l.stacked m (b.0, b.1, b.2))
  ]
