-- ===== src/Iter/Round.antt =====
-- `Iter::round` of src/iter/round.hpp: the numbers of a ring, from a given one once around.
-- The `int` arguments are taken from 0 on; `++value` past the largest `int` is undefined.
use native.Mathlib.Decide.{dec_lt}
use hit_database_exp3p2_cpp.Base.{
  ℕ, zero, suc, ◌+◌, ◌-◌, ◌^◌, ◌≤◌, ◌<◌, ◌≡◌, refl, Bool, true, false, ◌&&◌, List, [], ◌∷◌, ◌++◌,
  arith, ltb, leb, ◌==◌, if◌then◌else◌,
}
use hit_database_exp3p2_cpp.Result.{Result, ok, undefined, ◌>>=◌, ◌>>◌, demand}

pub record Round : Type 0 where
  pub value : ℕ
  pub init : ℕ
  pub exceeded : Bool
  pub maximal : ℕ

unfoldable pub round : ℕ → ℕ → Round
round current total = record { value = current; init = current; exceeded = false; maximal = total }

-- `operator==`, which looks at the object's own members only.
unfoldable pub is_equal : Round → Bool
is_equal r = r.exceeded && r.value == r.init

-- operator++
unfoldable pub advance : Round → Result Round
advance r = do
  demand (ltb (r.value + 1) (2 ^ 31))
  ok (
      if leb r.maximal (r.value + 1)
      then record r { value = 0; exceeded = true }
      else record r { value = r.value + 1 })

-- What `for (int i : r)` visits. Out of fuel stands for a loop that does not end.
unfoldable pub iterate : ℕ → Round → Result (List ℕ)
iterate zero r = undefined
iterate (suc fuel) r = elim (is_equal r) [
  | true ↦ ok []
  | false ↦ do next ← advance r; rest ← iterate fuel next; ok (r.value ∷ rest)
]

-- The object after a number of increments.
unfoldable pub advance_times : ℕ → Round → Result Round
advance_times zero r = ok r
advance_times (suc k) r = do next ← advance r; advance_times k next

-- The `k` numbers from `lo` on.
unfoldable pub count_from : ℕ → ℕ → List ℕ
count_from lo zero = []
count_from lo (suc k) = lo ∷ count_from (lo + 1) k

-- The object once it has passed the end of the ring.
abbrev wrapped : ℕ → ℕ → ℕ → Round
wrapped value init maximal = record {
  value = value;
  init = init;
  exceeded = true;
  maximal = maximal;
}

abbrev unwrapped : ℕ → ℕ → ℕ → Round
unwrapped value init maximal = record {
  value = value;
  init = init;
  exceeded = false;
  maximal = maximal;
}

iterate_end : (fuel : ℕ) (r : Round) → is_equal r ≡ true → iterate (suc fuel) r ≡ ok []
unfolding iterate
iterate_end fuel r e = rw (e, iterate) refl

iterate_step :
    (fuel : ℕ) (r next : Round) (rest : List ℕ)
    → is_equal r ≡ false
    → advance r ≡ ok next
    → iterate fuel next ≡ ok rest
    → iterate (suc fuel) r ≡ ok (r.value ∷ rest)
unfolding iterate
iterate_step fuel r next rest e a t = rw (e, iterate) (rw (a, iterate) (rw t refl))

-- An increment below the end of the ring, and at it.
advance_inside :
    (r : Round)
    → r.value + 1 < r.maximal
    → r.maximal < 2 ^ 31
    → advance r ≡ ok (record r { value = r.value + 1 })
unfolding advance
advance_inside r h small =
    let fits : ltb (r.value + 1) (2 ^ 31) ≡ true = ground arith in
    let inside : leb r.maximal (r.value + 1) ≡ false = ground arith in rw (fits, inside) refl

advance_around :
    (r : Round)
    → r.maximal ≤ r.value + 1
    → r.value + 1 < 2 ^ 31
    → advance r ≡ ok (record r { value = 0; exceeded = true })
unfolding advance
advance_around r h small =
    let fits : ltb (r.value + 1) (2 ^ 31) ≡ true = ground arith in
    let outside : leb r.maximal (r.value + 1) ≡ true = ground arith in rw (fits, outside) refl

iterate_last :
    (fuel k value init maximal : ℕ)
    → value + k ≡ init
    → init < maximal
    → maximal < 2 ^ 31
    → k < fuel
    → iterate fuel (wrapped value init maximal) ≡ ok (count_from value k)
unfolding count_from is_equal
iterate_last zero k value init maximal e below small enough = absurd (omega arith)
iterate_last (suc fuel) zero value init maximal e below small enough =
    iterate_end fuel (wrapped value init maximal) (ground arith)
iterate_last (suc fuel) (suc k) value init maximal e below small enough =
    iterate_step fuel (wrapped value init maximal) (wrapped (value + 1) init maximal)
      (count_from (value + 1) k) (ground arith)
      (advance_inside (wrapped value init maximal) (omega arith) small)
      (iterate_last fuel k (value + 1) init maximal (omega arith) below small (omega arith))

iterate_first :
    (fuel k value init maximal : ℕ)
    → value + suc k ≡ maximal
    → init < maximal
    → maximal < 2 ^ 31
    → k + init + 1 < fuel
    → iterate fuel (unwrapped value init maximal)
      ≡ ok (count_from value (suc k) ++ count_from 0 init)
unfolding count_from is_equal
iterate_first zero k value init maximal e below small enough = absurd (omega arith)
iterate_first (suc fuel) zero value init maximal e below small enough =
    iterate_step fuel (unwrapped value init maximal) (wrapped 0 init maximal) (count_from 0 init)
      refl (advance_around (unwrapped value init maximal) (omega arith) (omega arith))
      (iterate_last fuel init 0 init maximal (omega arith) below small (omega arith))
iterate_first (suc fuel) (suc k) value init maximal e below small enough =
    iterate_step fuel (unwrapped value init maximal) (unwrapped (value + 1) init maximal)
      (count_from (value + 1) (suc k) ++ count_from 0 init) refl
      (advance_inside (unwrapped value init maximal) (omega arith) small)
      (iterate_first fuel k (value + 1) init maximal (omega arith) below small (omega arith))

-- The loop over `round(current, total)`, with `current` below `total` and `total` an `int`, ends and
-- visits the numbers from `current` to the last one below `total`, and then those from 0 to the
-- one before `current`. Fuel for one round more than `total` is enough.
pub iterate-round :
    (fuel current total : ℕ)
    → current < total
    → total < 2 ^ 31
    → total < fuel
    → iterate fuel (round current total)
      ≡ ok (count_from current (total - current) ++ count_from 0 current)
unfolding round
iterate-round fuel current total below small enough =
    let e : total - current ≡ suc (total - current - 1) = omega arith in
    rw e (
      iterate_first fuel (total - current - 1) current current total (omega arith) below small
        (omega arith))

-- An object whose first number is not below `total` comes round below `total` only.
apart :
    (k value init maximal : ℕ)
    → value < maximal
    → maximal ≤ init
    → maximal < 2 ^ 31
    → (r : Round) × (advance_times k (wrapped value init maximal) ≡ ok r) × (is_equal r ≡ false)
unfolding advance_times is_equal
apart zero value init maximal below beyond small = (wrapped value init maximal, refl, ground arith)
apart (suc k) value init maximal below beyond small = elim (dec_lt (value + 1) maximal) [
  | yes h ↦
      rw (advance_inside (wrapped value init maximal) h small)
        (apart k (value + 1) init maximal h beyond small)
  | no h ↦
      rw (advance_around (wrapped value init maximal) (omega arith) (omega arith))
        (apart k 0 init maximal (omega arith) beyond small)
]

-- The loop over `round(current, total)` with a `total` that is not 0 and a `current` that is not
-- below it, both small enough not to overflow, never ends: after any number of increments the object
-- differs from `end()`.
pub round_endless :
    (k current total : ℕ)
    → 0 < total
    → total ≤ current
    → current + 1 < 2 ^ 31
    → (r : Round) × (advance_times k (round current total) ≡ ok r) × (is_equal r ≡ false)
unfolding round advance_times is_equal
round_endless zero current total pos beyond small = (unwrapped current current total, refl, refl)
round_endless (suc k) current total pos beyond small =
    rw (advance_around (unwrapped current current total) (omega arith) small)
      (apart k 0 current total pos beyond (omega arith))
