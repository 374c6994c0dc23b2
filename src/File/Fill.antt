-- ===== src/File/Fill.antt =====
-- A new file that the loop of main() in src/main.cpp has filled.
pub mod Loop
pub mod Rounds
use hit_database_exp3p2_cpp.Base.{
  ℕ, String, ◌+◌, ◌≤◌, ◌<◌, ◌≡◌, ◌^◌, refl, sym, ◌∙◌, ap, subst, none, some, List, [], ◌∷◌, ◌++◌,
  arith, length, zero, suc, inl, inr, Bool-cases, true, ◌==◌, ==-ne, replicate,
}
use hit_database_exp3p2_cpp.Result.{ok, Returns}
use hit_database_exp3p2_cpp.Result.Exceptions.{RecordId}
use hit_database_exp3p2_cpp.Page.{
  Page, page_number, set_next_page_number, initialize, insert_record, get_record,
  validate_record_id,
}
use hit_database_exp3p2_cpp.Page.Slot.{slot_of}
use hit_database_exp3p2_cpp.Page.Valid.{initialize-IsValid}
use hit_database_exp3p2_cpp.Page.Insert.{Stored, insert_record-Stored}
use hit_database_exp3p2_cpp.File.{allocate_page, write_page, read_page}
use hit_database_exp3p2_cpp.File.Stream.{File, M, return, ◌>>=◌, ◌>>◌}
use hit_database_exp3p2_cpp.File.Links.{IsFile}
use hit_database_exp3p2_cpp.File.Relink.{assoc, length-snoc}
use hit_database_exp3p2_cpp.File.Append.{allocate_page_appended}
use hit_database_exp3p2_cpp.File.Store.{write_page_written}
use hit_database_exp3p2_cpp.File.Records.{on_page}
use hit_database_exp3p2_cpp.File.Reached.{
  Pages, assign, content, blank, empty_file, Reached, start, appended, written,
}
use hit_database_exp3p2_cpp.File.Reached.Represented.{Reached-Represents, num_pages-IsFile}
use hit_database_exp3p2_cpp.File.Iterator.{iterate_file, numbers, iterate_file_used}
use hit_database_exp3p2_cpp.File.Refines.{Answers, read_page-Reached}
use Loop.{fill, upto, length-upto}
use hit_database_exp3p2_cpp.Page.Stacked.{Stacked-pointer, get_record-Stacked}
use Rounds.{fill_lem}

-- Filling a file that has no pages, with a record that is not empty and that fits on a page with its
-- slot, in fewer than 2 ^ 32 - 1 rounds, does not throw: it allocates the pages 1 up to the number of
-- rounds, which are then the used pages of a well-formed file without a free one; the loop over the
-- file reads those pages in order; and each of them, read with readPage, has the record under an
-- identifier with the page's number. Fuel for each round, and
-- one more for the loop over the file, is enough.
fill-read_page :
    (name : String) (r : List ℕ) (rounds fuel n : ℕ)
    → 0 < length r
    → length r + 6 ≤ 8176
    → rounds + 1 < 2 ^ 32
    → rounds ≤ fuel
    → 0 < n
    → n ≤ rounds
    → (f : File) × (p : Page) × (rid : RecordId) × (fill fuel r rounds (empty_file name)
        ≡ (ok (upto 1 rounds), f))
      × IsFile f (upto 1 rounds) []
      × (ps : List Page) × (iterate_file (fuel + 1) f ≡ (ok ps, f))
      × (numbers ps ≡ upto 1 rounds)
      × (read_page n f ≡ (ok p, f))
      × (rid.page_number ≡ n)
      × (get_record p rid ≡ ok r)
fill-read_page name r rounds fuel n some_bytes fits room enough pos low =
    let (f, m, ran, reached, keep, have) =
      fill_lem r some_bytes fits rounds fuel (empty_file name) [] (λ _. none) (start name)
        (omega arith) (omega arith) in
    let (q, at, s) = have n (omega arith) (omega arith) in
    let (is, answers) = read_page-Reached reached n pos in
    let (k, read) = subst (λ o. Answers f n o) at answers in
    let count = length-upto 1 rounds in
    let (ps, iterated, nums, stored) =
      iterate_file_used (fuel + 1) f (upto 1 rounds) [] is (omega arith) in
    (
      f,
      set_next_page_number q k,
      record { page_number = n; slot_number = 1 },
      ran,
      is,
      ps,
      iterated,
      nums,
      read,
      refl,
      get_record-Stacked (Stacked-pointer q k s) 0 (omega arith),
    )
