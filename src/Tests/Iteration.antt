-- ===== src/Tests/Iteration.antt =====
-- The iteration helpers on small inputs.
use hit_database_exp3p2_cpp.Base.{ℕ, ◌≡◌, refl, List, [], ◌∷◌, ◌++◌, arith, false}
use hit_database_exp3p2_cpp.Result.{ok, Returns}
use hit_database_exp3p2_cpp.Iter.Round
use hit_database_exp3p2_cpp.Iter.Round.{
  Round, round, is_equal, advance_times, count_from, iterate-round, round_endless,
}
use hit_database_exp3p2_cpp.Iter.Enumerate
use hit_database_exp3p2_cpp.Iter.Enumerate.{enumerate, indexed, enumerate_once}

iterate-round_example : Round.iterate 6 (round 3 5) ≡ ok (count_from 3 2 ++ count_from 0 3)
iterate-round_example = iterate-round 6 3 5 (omega arith) (omega arith) (omega arith)

visited : count_from 3 2 ++ count_from 0 3 ≡ 3 ∷ 4 ∷ 0 ∷ 1 ∷ 2 ∷ []
unfolding count_from
visited = refl

round_endless_example : (r : Round) × (advance_times 9 (round 2 2) ≡ ok r) × (is_equal r ≡ false)
round_endless_example = round_endless 9 2 2 (omega arith) (omega arith) (omega arith)

abbrev letters : List ℕ
letters = b'a' ∷ b'b' ∷ []

enumerate_once_example : Returns (enumerate letters) (λ e.
    Returns
      (Enumerate.iterate 3 e)
      (λ s. (s.0 ≡ indexed 0 letters) × (Enumerate.iterate 3 s.1 ≡ ok ([], s.1))))
enumerate_once_example = enumerate_once 3 b'a' (b'b' ∷ []) (omega arith) (omega arith)
