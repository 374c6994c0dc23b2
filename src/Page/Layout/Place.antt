-- ===== src/Page/Layout/Place.antt =====
-- A record is placed in an unused slot, right below the others (insertRecordInSlot, src/page.cpp).
use hit_database_exp3p2_cpp.Base.{
  ℕ, ◌+◌, ◌-◌, ◌≤◌, ◌<◌, ◌≡◌, sym, ◌∙◌, ◌⊎◌, true, false, arith, inl, inr, ◌==◌, Bool-cases,
}
use hit_database_exp3p2_cpp.Page.{data_size}
use hit_database_exp3p2_cpp.Page.Slot.{PageSlot}
use hit_database_exp3p2_cpp.Page.Layout.{weight, below, fill, vacancy, Live, Layout}
use hit_database_exp3p2_cpp.Page.Layout.Sums.{sum_zero, sum_point}

module _ (f g : ℕ → PageSlot) (n upper free k size : ℕ) (l : Layout f n upper free) (pos : 0 < k)
    (here : k ≤ n) (unused : (f k).used ≡ false) (some_bytes : 0 < size) (room : size ≤ upper)
    (placed : g k ≡ record { used = true; item_offset = upper - size; item_length = size })
    (others : (m : ℕ) → 0 < m → m ≤ n → ¬ (m ≡ k) → g m ≡ f m) where
  same_weight : (x m : ℕ) → 0 < m → m ≤ n → ¬ (m ≡ k) → weight g x m ≡ weight f x m
  same_weight x m p q ne = rw (others m p q ne)

  upper-le : upper ≤ data_size
  upper-le = omega (arith, l.filled)

  -- A live slot is the new one, or an old one as it was.
  who :
      (m : ℕ)
      → Live g n m
      → ((m ≡ k) × (g m ≡ record { used = true; item_offset = upper - size; item_length = size }))
        ⊎ ((¬ (m ≡ k)) × (g m ≡ f m) × Live f n m)
  who m v = elim (Bool-cases (m == k)) [
    | inl e ↦ let e' : m ≡ k = ground arith in inl (e', rw e' placed)
    | inr ne ↦
        let ne' : ¬ (m ≡ k) = ground arith in
        let o : g m ≡ f m = others m v.0 v.1 ne' in inr (ne', o, (v.0, v.1, ground (arith, v.2)))
  ]

  -- No record stands before the new one.
  below_new : below g n (upper - size) ≡ 0
  below_new = sum_zero (weight g (upper - size)) n λ m p q. elim (Bool-cases (g m).used) [
    | inl u ↦ elim (who m (p, q, u)) [
      | inl (_, e) ↦ ground arith
      | inr (_, e, v) ↦ ground (arith, l.starts m v)
    ]
    | inr u ↦ ground arith
  ]

  -- Before an old record stand the old ones and the new one.
  below_old :
      (m : ℕ) → Live f n m → below g n (f m).item_offset ≡ below f n (f m).item_offset + size
  below_old m v =
      let x = (f m).item_offset in
      let at_k : weight g x k ≡ size = ground (arith, l.starts m v) in
      let was_k : weight f x k ≡ 0 = ground arith in
      omega (arith, sum_point (weight g x) (weight f x) n k pos here (same_weight x))

  pub place_lem : Layout g n (upper - size) (free - 1)
  place_lem = record {
    starts = λ m v. elim (who m v) [
      | inl (_, e) ↦ ground arith
      | inr (_, e, w) ↦ ground (arith, l.starts m w)
    ];
    ends = λ m v. elim (who m v) [
      | inl (_, e) ↦ ground (arith, upper-le)
      | inr (_, e, w) ↦ ground (arith, l.ends m w)
    ];
    nonempty = λ m v. elim (who m v) [
      | inl (_, e) ↦ ground arith
      | inr (_, e, w) ↦ ground (arith, l.nonempty m w)
    ];
    apart = λ m j v w ne. elim (who m v) [
      | inl (i, e) ↦ elim (who j w) [
        | inl (i', _) ↦ λ _. ne (i ∙ sym i')
        | inr (_, e', w') ↦ ground (arith, l.starts j w')
      ]
      | inr (_, e, v') ↦ elim (who j w) [
        | inl (_, e') ↦ ground (arith, l.starts m v')
        | inr (_, e', w') ↦ ground (arith, l.apart m j v' w' ne)
      ]
    ];
    stacked = λ m v. elim (who m v) [
      | inl (_, e) ↦ rw e (omega (arith, below_new))
      | inr (_, e, w) ↦ rw e (omega (arith, below_old m w, l.stacked m w))
    ];
    filled =
        let at_k : fill g k ≡ size = ground arith in
        let was_k : fill f k ≡ 0 = ground arith in
        omega (
          arith,
          l.filled,
          sum_point (fill g) (fill f) n k pos here (λ m p q ne. rw (others m p q ne)),
        );
    vacant =
        let at_k : vacancy g k ≡ 0 = ground arith in
        let was_k : vacancy f k ≡ 1 = ground arith in
        omega (
          arith,
          l.vacant,
          sum_point (vacancy g) (vacancy f) n k pos here (λ m p q ne. rw (others m p q ne)),
        );
  }
