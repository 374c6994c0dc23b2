-- ===== src/Driver/Block/Whole.antt =====
-- The loop of main() in src/main.cpp that fills a file, the record that is added to one of the pages, and
-- what both leave on disk.
use hit_database_exp3p2_cpp.Base.{ℕ, ◌+◌, ◌≤◌, ◌<◌, ◌^◌, ◌==◌, List, [], ◌∷◌, length, if◌then◌else◌}
use hit_database_exp3p2_cpp.Page.{Page}
use hit_database_exp3p2_cpp.File.Stream.{File}
use hit_database_exp3p2_cpp.File.Reached.{Pages, Reached}

module _ (f0 : File) (us : List ℕ) (m0 : Pages) (before : Reached f0 us [] m0) (r w : List ℕ)
    (rounds third fuel : ℕ) (some_first : 0 < length r) (some_added : 0 < length w)
    (fits : length r + length w + 12 ≤ 8176) (in_range : third < rounds)
    (room : f0.file_header.num_pages + rounds < 2 ^ 32) (enough : length us + rounds ≤ fuel) where
  abbrev top : ℕ
  top = f0.file_header.num_pages

  -- The records of a new page at the end.
  abbrev left : ℕ → List (List ℕ)
  left n = if n == top + third then r ∷ w ∷ [] else r ∷ []
