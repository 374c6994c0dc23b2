-- ===== src/Iter/Enumerate.antt =====
-- `Iter::enumerate` of src/iter/enumerate.hpp: the elements of a container with their positions.
-- An iterator into the container is the part of it from there on, and `std::end` is the empty part.
-- The position is kept as a `std::size_t`, and `operator*` turns it into an `int`.
use hit_database_exp3p2_cpp.Base.{
  ℕ, ℤ, pos, to_int, to_int-small, zero, suc, ◌+◌, ◌%◌, ◌^◌, ◌<◌, ◌≤◌, ◌≡◌, refl, ap, Bool, true,
  false, List, [], ◌∷◌, arith, length,
}
use hit_database_exp3p2_cpp.Result.{Result, ok, undefined, ◌>>=◌, Returns}

-- `result`, which the wrapper that `begin()` returns refers to: its `i` and its `iter`.
pub record Enumerate {ℓ} (A : Type ℓ) : Type ℓ where
  pub i : ℕ
  pub iter : List A

module _ {ℓ} {A : Type ℓ} where
  -- The constructor copies `*begin` into `iter_obj`, also if the container is empty.
  unfoldable pub enumerate : List A → Result (Enumerate A)
  enumerate [] = undefined
  enumerate (x ∷ xs) = ok (record { i = 0; iter = x ∷ xs })

  -- `operator!=` with `end()`.
  unfoldable pub is_end : List A → Bool
  is_end [] = true
  is_end (x ∷ xs) = false

  -- operator*
  unfoldable pub deref : Enumerate A → Result (ℤ × A)
  deref e = elim e.iter [ [] ↦ undefined | x ∷ xs ↦ ok (to_int e.i, x) ]

  -- operator++
  unfoldable pub advance : Enumerate A → Result (Enumerate A)
  advance e = elim e.iter [
    | [] ↦ undefined
    | x ∷ xs ↦ ok (record { i = (e.i + 1) % 2 ^ 64; iter = xs })
  ]

  -- What `for (auto [i, x] : e)` visits, and the object after the loop. Out of fuel stands for a loop
  -- that does not end.
  unfoldable pub iterate : ℕ → Enumerate A → Result (List (ℤ × A) × Enumerate A)
  iterate zero e = undefined
  iterate (suc fuel) e = elim (is_end e.iter) [
    | true ↦ ok ([], e)
    | false ↦ do
      pair ← deref e
      next ← advance e
      (pairs, last) ← iterate fuel next
      ok (pair ∷ pairs, last)
  ]

  -- The elements with their positions from `i` on.
  unfoldable pub indexed : ℕ → List A → List (ℤ × A)
  indexed i [] = []
  indexed i (x ∷ xs) = (pos i, x) ∷ indexed (i + 1) xs

  pub iterate_all :
      (fuel i : ℕ) (xs : List A)
      → length xs < fuel
      → i + length xs ≤ 2 ^ 31
      → iterate fuel (record { i = i; iter = xs })
        ≡ ok (indexed i xs, record { i = i + length xs; iter = [] })
  unfolding iterate is_end deref advance indexed
  iterate_all zero i xs enough small = absurd (omega arith)
  iterate_all (suc fuel) i [] enough small =
      ap (λ k. ok ([], record { i = k; iter = [] })) (omega arith)
  iterate_all (suc fuel) i (x ∷ xs) enough small =
      let a = to_int-small i (omega arith) in
      let b : (i + 1) % 2 ^ 64 ≡ i + 1 = omega arith in
      let c : i + 1 + length xs ≡ i + suc (length xs) = omega arith in
      rw (a, b) (rw (iterate_all fuel (i + 1) xs (omega arith) (omega arith)) (rw c refl))

  iterate_done :
      (fuel i : ℕ)
      → 0 < fuel
      → iterate fuel (record { i = i; iter = [] }) ≡ ok ([], record { i = i; iter = [] })
  unfolding iterate is_end
  iterate_done zero i h = absurd (omega arith)
  iterate_done (suc fuel) i h = refl

  -- On a container that is not empty and has at most 2³¹ elements, the loop over `enumerate` ends and
  -- visits each element with its position, in order; a second loop over the same object visits
  -- nothing, since `begin()` does not go back. Fuel for one round more than there are elements is
  -- enough.
  pub enumerate_once :
      (fuel : ℕ) (x : A) (xs : List A)
      → length (x ∷ xs) < fuel
      → length (x ∷ xs) ≤ 2 ^ 31
      → Returns (enumerate (x ∷ xs)) (λ e.
        Returns
          (iterate fuel e)
          (λ s. (s.0 ≡ indexed 0 (x ∷ xs)) × (iterate fuel s.1 ≡ ok ([], s.1))))
  unfolding enumerate
  enumerate_once fuel x xs enough small =
      let seen = iterate_all fuel 0 (x ∷ xs) enough (omega arith) in
      (
        record { i = 0; iter = x ∷ xs },
        refl,
        (
          (indexed 0 (x ∷ xs), record { i = 0 + length (x ∷ xs); iter = [] }),
          seen,
          (refl, iterate_done fuel (0 + length (x ∷ xs)) (omega arith)),
        ),
      )
