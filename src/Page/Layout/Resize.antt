-- ===== src/Page/Layout/Resize.antt =====
-- The slot array grows by one unused slot or gives unused slots back (getAvailableSlot and
-- deleteRecord, src/page.cpp).
use hit_database_exp3p2_cpp.Base.{ℕ, suc, ◌+◌, ◌-◌, ◌≡◌, false, arith, inl, inr, ◌==◌, Bool-cases}
use hit_database_exp3p2_cpp.Page.Slot.{PageSlot}
use hit_database_exp3p2_cpp.Page.Layout.{weight, below, fill, vacancy, Live, Layout}

module _ (f : ℕ → PageSlot) (n upper free : ℕ) (unused : (f (suc n)).used ≡ false) where
  no_weight : (x : ℕ) → below f (suc n) x ≡ below f n x
  no_weight x = let z : weight f x (suc n) ≡ 0 = ground arith in omega arith

  inside : (m : ℕ) → Live f (suc n) m → Live f n m
  inside m v = elim (Bool-cases (m == suc n)) [
    | inl e ↦ let e' : m ≡ suc n = ground arith in absurd (ground (arith, v.2))
    | inr ne ↦ let ne' : ¬ (m ≡ suc n) = ground arith in (v.0, omega (arith, v.1), v.2)
  ]

  outside : (m : ℕ) → Live f n m → Live f (suc n) m
  outside m v = (v.0, omega (arith, v.1), v.2)

  pub grow_lem : Layout f n upper free → Layout f (suc n) upper (free + 1)
  grow_lem l = record {
    starts = λ m v. l.starts m (inside m v);
    ends = λ m v. l.ends m (inside m v);
    nonempty = λ m v. l.nonempty m (inside m v);
    apart = λ m k v w ne. l.apart m k (inside m v) (inside k w) ne;
    stacked = λ m v. rw (no_weight (f m).item_offset) (l.stacked m (inside m v));
    filled = let z : fill f (suc n) ≡ 0 = ground arith in omega (arith, l.filled);
    vacant = let z : vacancy f (suc n) ≡ 1 = ground arith in omega (arith, l.vacant);
  }

  pub shrink_lem : Layout f (suc n) upper free → Layout f n upper (free - 1)
  shrink_lem l = record {
    starts = λ m v. l.starts m (outside m v);
    ends = λ m v. l.ends m (outside m v);
    nonempty = λ m v. l.nonempty m (outside m v);
    apart = λ m k v w ne. l.apart m k (outside m v) (outside k w) ne;
    stacked = λ m v. rw (← no_weight (f m).item_offset) (l.stacked m (outside m v));
    filled = let z : fill f (suc n) ≡ 0 = ground arith in omega (arith, l.filled);
    vacant = let z : vacancy f (suc n) ≡ 1 = ground arith in omega (arith, l.vacant);
  }
