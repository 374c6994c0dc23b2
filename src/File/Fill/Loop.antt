-- ===== src/File/Fill/Loop.antt =====
-- The loop of main() in src/main.cpp that fills a new file: it allocates pages, puts a record on each one,
-- and writes it back.
use hit_database_exp3p2_cpp.Base.{ℕ, ◌+◌, ◌≡◌, refl, List, [], ◌∷◌, arith, length, zero, suc}
use hit_database_exp3p2_cpp.Page.{page_number, insert_record}
use hit_database_exp3p2_cpp.File.{allocate_page, write_page}
use hit_database_exp3p2_cpp.File.Stream.{M, return, ◌>>=◌, ◌>>◌}
use hit_database_exp3p2_cpp.File.Records.{on_page}

-- The rounds of the loop, with the numbers of the pages that it allocates.
unfoldable pub fill : ℕ → List ℕ → ℕ → M (List ℕ)
fill fuel record_data zero = return []
fill fuel record_data (suc rounds) = do
  new_page ← allocate_page fuel
  (changed, rid) ← on_page (insert_record new_page record_data)
  write_page changed
  rest ← fill fuel record_data rounds
  return (page_number new_page ∷ rest)

abbrev pub upto : ℕ → ℕ → List ℕ
upto i zero = []
upto i (suc rounds) = i ∷ upto (i + 1) rounds

pub length-upto : (i rounds : ℕ) → length (upto i rounds) ≡ rounds
length-upto i zero = refl
length-upto i (suc rounds) = let e = length-upto (i + 1) rounds in omega arith
