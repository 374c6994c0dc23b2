-- ===== src/Page/Layout/Sums.antt =====
-- Sums over the slots 1 to n of a page.
use hit_database_exp3p2_cpp.Base.{
  ℕ, zero, suc, ◌+◌, ◌≤◌, ◌<◌, ◌≡◌, refl, arith, ◌==◌, Bool-cases, inl, inr,
}

abbrev pub sum : (ℕ → ℕ) → ℕ → ℕ
sum g zero = 0
sum g (suc n) = g (suc n) + sum g n

pub sum_congr : (g h : ℕ → ℕ) (n : ℕ) → ((m : ℕ) → 0 < m → m ≤ n → g m ≡ h m) → sum g n ≡ sum h n
sum_congr g h zero e = refl
sum_congr g h (suc n) e =
    omega
      (arith, e (suc n) (omega arith) (omega arith), sum_congr g h n (λ m p q. e m p (omega arith)))

pub sum_zero : (g : ℕ → ℕ) (n : ℕ) → ((m : ℕ) → 0 < m → m ≤ n → g m ≡ 0) → sum g n ≡ 0
sum_zero g zero e = refl
sum_zero g (suc n) e =
    omega
      (arith, e (suc n) (omega arith) (omega arith), sum_zero g n (λ m p q. e m p (omega arith)))

pub sum_mono : (g h : ℕ → ℕ) (n : ℕ) → ((m : ℕ) → 0 < m → m ≤ n → g m ≤ h m) → sum g n ≤ sum h n
sum_mono g h zero e = omega arith
sum_mono g h (suc n) e =
    omega
      (arith, e (suc n) (omega arith) (omega arith), sum_mono g h n (λ m p q. e m p (omega arith)))

-- Where two functions agree but at one slot, so do the sums but for that slot's part.
pub sum_point :
    (g h : ℕ → ℕ) (n k : ℕ)
    → 0 < k
    → k ≤ n
    → ((m : ℕ) → 0 < m → m ≤ n → ¬ (m ≡ k) → g m ≡ h m)
    → sum g n + h k ≡ sum h n + g k
sum_point g h zero k p q e = absurd (omega arith)
sum_point g h (suc n) k p q e = elim (Bool-cases (suc n == k)) [
  | inl here ↦
      let i : suc n ≡ k = ground arith in
      rw (← i) (omega (arith, sum_congr g h n (λ m a b. e m a (omega arith) (omega arith))))
  | inr away ↦
      let i : ¬ (suc n ≡ k) = ground arith in
      omega (
        arith,
        e (suc n) (omega arith) (omega arith) i,
        sum_point g h n k p (omega arith) (λ m a b c. e m a (omega arith) c),
      )
]

-- A monotone sum grows at least by the growth at one slot.
pub sum_mono_point :
    (g h : ℕ → ℕ) (n k : ℕ)
    → 0 < k
    → k ≤ n
    → ((m : ℕ) → 0 < m → m ≤ n → g m ≤ h m)
    → sum g n + h k ≤ sum h n + g k
sum_mono_point g h zero k p q e = absurd (omega arith)
sum_mono_point g h (suc n) k p q e = elim (Bool-cases (suc n == k)) [
  | inl here ↦
      let i : suc n ≡ k = ground arith in
      rw (← i) (omega (arith, sum_mono g h n (λ m a b. e m a (omega arith))))
  | inr away ↦
      let i : ¬ (suc n ≡ k) = ground arith in
      omega (
        arith,
        e (suc n) (omega arith) (omega arith),
        sum_mono_point g h n k p (omega arith) (λ m a b. e m a (omega arith)),
      )
]
