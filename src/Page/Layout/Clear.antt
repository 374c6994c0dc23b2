-- ===== src/Page/Layout/Clear.antt =====
-- A record is taken away and the records below it move up (deleteRecord, src/page.cpp).
use hit_database_exp3p2_cpp.Base.{
  ℕ, ◌+◌, ◌≤◌, ◌<◌, ◌≡◌, sym, ◌∙◌, ap, false, arith, inl, inr, ◌==◌, Bool-cases, ltb, ◌&&◌,
  if◌then◌else◌,
}
use hit_database_exp3p2_cpp.Page.Slot.{PageSlot}
use hit_database_exp3p2_cpp.Page.Layout.{weight, below, fill, vacancy, Live, Layout}
use hit_database_exp3p2_cpp.Page.Layout.Sums.{sum_point, sum_mono_point}

-- Slots before `gone` move up by its length.
abbrev pub shift : PageSlot → PageSlot → PageSlot
shift gone s =
    if s.used && ltb s.item_offset gone.item_offset
    then record s { item_offset = s.item_offset + gone.item_length }
    else s

module _ (f : ℕ → PageSlot) (n upper free k : ℕ) (l : Layout f n upper free)
    (live : Live f n k) where
  -- A record above the one in slot `k` begins where that one ends, or later.
  pub gap :
      (m : ℕ)
      → Live f n m
      → (f k).item_offset < (f m).item_offset
      → (f k).item_offset + (f k).item_length ≤ (f m).item_offset
  gap m v above =
      let x = (f k).item_offset in
      let y = (f m).item_offset in
      let low : weight f x k ≡ 0 = ground arith in
      let high : weight f y k ≡ (f k).item_length = ground (arith, live.2) in
      omega (
        arith,
        l.stacked k live,
        l.stacked m v,
        sum_mono_point (weight f x) (weight f y) n k live.0 live.1 (λ j p q. ground arith),
      )

  -- Below it a record ends where it begins, or earlier.
  pub gap_below :
      (m : ℕ)
      → Live f n m
      → (f m).item_offset < (f k).item_offset
      → (f m).item_offset + (f m).item_length ≤ (f k).item_offset
  gap_below m v before =
      let x = (f m).item_offset in
      let y = (f k).item_offset in
      let low : weight f x m ≡ 0 = ground arith in
      let high : weight f y m ≡ (f m).item_length = ground (arith, v.2) in
      omega (
        arith,
        l.stacked k live,
        l.stacked m v,
        sum_mono_point (weight f x) (weight f y) n m v.0 v.1 (λ j p q. ground arith),
      )

  module _ (g : ℕ → PageSlot) (cleared : (g k).used ≡ false)
      (others : (m : ℕ) → 0 < m → m ≤ n → ¬ (m ≡ k) → g m ≡ shift (f k) (f m)) where
    shift-used : (m : ℕ) → (shift (f k) (f m)).used ≡ (f m).used
    shift-used m = ground arith

    who : (m : ℕ) → Live g n m → (¬ (m ≡ k)) × (g m ≡ shift (f k) (f m)) × Live f n m
    who m v = elim (Bool-cases (m == k)) [
      | inl e ↦ let e' : m ≡ k = ground arith in absurd (ground (arith, v.2))
      | inr ne ↦
          let ne' : ¬ (m ≡ k) = ground arith in
          let e = others m v.0 v.1 ne' in
          (ne', e, (v.0, v.1, sym (shift-used m) ∙ ap (λ (s : PageSlot). s.used) (sym e) ∙ v.2))
    ]

    -- The records keep their order.
    same_weight :
        (m : ℕ)
        → Live f n m
        → ¬ (m ≡ k)
        → (j : ℕ) → 0 < j
        → j ≤ n
        → ¬ (j ≡ k)
        → weight g (shift (f k) (f m)).item_offset j ≡ weight f (f m).item_offset j
    same_weight m v ne j p q nj = elim (Bool-cases (f j).used) [
      | inl u ↦ rw (others j p q nj) (
          ground (
            arith,
            gap m v,
            gap j (p, q, u),
            gap_below m v,
            gap_below j (p, q, u),
            l.apart m k v live ne,
            l.apart j k (p, q, u) live nj,
          ))
      | inr u ↦ rw (others j p q nj) (ground arith)
    ]

    below_after :
        (m : ℕ)
        → Live f n m
        → ¬ (m ≡ k)
        → below g n (shift (f k) (f m)).item_offset + (upper + (f k).item_length)
          ≡ (shift (f k) (f m)).item_offset
    below_after m v ne =
        let x = (f m).item_offset in
        let y = (shift (f k) (f m)).item_offset in
        let none_at : weight g y k ≡ 0 = ground arith in
        let was_at : weight f x k ≡ (if ltb (f k).item_offset x then (f k).item_length else 0) =
          ground (arith, live.2) in
        ground (
          arith,
          sum_point (weight g y) (weight f x) n k live.0 live.1 (same_weight m v ne),
          l.stacked m v,
          l.apart m k v live ne,
          v.2,
        )

    pub clear_lem : Layout g n (upper + (f k).item_length) (free + 1)
    clear_lem = record {
      starts = λ m v.
          let (ne, e, w) = who m v in
          rw e (ground (arith, gap m w, l.starts m w, l.starts k live, l.apart m k w live ne, w.2));
      ends = λ m v.
          let (ne, e, w) = who m v in
          rw e (ground (arith, gap_below m w, l.ends m w, l.ends k live));
      nonempty = λ m v. let (ne, e, w) = who m v in rw e (ground (arith, l.nonempty m w));
      apart = λ m j v w mj.
          let (ne, e, v') = who m v in
          let (nj, e', w') = who j w in
          rw (e, e')
            (ground (
              arith,
              l.apart m j v' w' mj,
              l.apart m k v' live ne,
              l.apart j k w' live nj,
              gap m v',
              gap j w',
              l.nonempty k live,
            ));
      stacked = λ m v. let (ne, e, w) = who m v in rw e (below_after m w ne);
      filled =
          let now : fill g k ≡ 0 = ground arith in
          let was : fill f k ≡ (f k).item_length = ground (arith, live.2) in
          omega (
            arith,
            l.filled,
            sum_point (fill g) (fill f) n k live.0 live.1
                (λ m p q ne. rw (others m p q ne) (ground arith)),
          );
      vacant =
          let now : vacancy g k ≡ 1 = ground arith in
          let was : vacancy f k ≡ 0 = ground (arith, live.2) in
          omega (
            arith,
            l.vacant,
            sum_point (vacancy g) (vacancy f) n k live.0 live.1
                (λ m p q ne. rw (others m p q ne) (ground arith)),
          );
    }
