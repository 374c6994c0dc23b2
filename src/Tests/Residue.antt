-- ===== src/Tests/Residue.antt =====
-- Runs of src/page.cpp after which bytes of old records stand where the slot array grows to, and
-- after which a record of no bytes spoils another one.
use hit_database_exp3p2_cpp.Base.{ℕ, ◌≡◌, refl, List, [], ◌∷◌, arith, replicate, slice}
use hit_database_exp3p2_cpp.Result.{Result, ok, throws, undefined, ◌>>=◌, Returns-at}
use hit_database_exp3p2_cpp.Result.Exceptions.{slot_in_use}
use hit_database_exp3p2_cpp.Page.{Page, initialize, get_record, insert_record}
use hit_database_exp3p2_cpp.Page.Delete.{delete_record}
use hit_database_exp3p2_cpp.Page.Valid.{num, id_of, initialize-IsValid}
use hit_database_exp3p2_cpp.Page.Insert.{Stored, insert_record-Stored}
use hit_database_exp3p2_cpp.Page.Thrown.{insert_record_left, insert_record_spoils}
use hit_database_exp3p2_cpp.Page.Removal.{Removed, delete_record-Removed}
use hit_database_exp3p2_cpp.Tests.Pages.{program, value, nowhere}

-- Two records fill the page but for their slots; the first goes; a short one takes its slot.
abbrev lower_part : List ℕ
lower_part = replicate 4000 1

abbrev upper_part : List ℕ
upper_part = replicate 4164 2

abbrev first : Page
first = (value (insert_record initialize lower_part) nowhere).0

abbrev second : Page
second = (value (insert_record first upper_part) nowhere).0

abbrev third : Page
third = value (delete_record second (id_of initialize 1)) initialize

abbrev fourth : Page
fourth = (value (insert_record third (9 ∷ [])) nowhere).0

first-Stored : Stored initialize lower_part first (id_of initialize 1)
unfolding program
first-Stored =
    Returns-at {P = λ s. Stored initialize lower_part s.0 s.1} (first, id_of initialize 1) refl
      (insert_record-Stored initialize-IsValid lower_part (omega arith) (omega arith) (λ _. refl))

second-Stored : Stored first upper_part second (id_of initialize 2)
unfolding program
second-Stored =
    Returns-at {P = λ s. Stored first upper_part s.0 s.1} (second, id_of initialize 2) refl
      (insert_record-Stored first-Stored.valid upper_part (omega arith) (omega arith) (λ _. refl))

third-Removed : Removed second 1 third
unfolding program
third-Removed =
    Returns-at {P = Removed second 1} third refl
      (delete_record-Removed second-Stored.valid 1 (omega arith, omega arith, refl))

fourth-Stored : Stored third (9 ∷ []) fourth (id_of initialize 1)
unfolding program
fourth-Stored =
    Returns-at {P = λ s. Stored third (9 ∷ []) s.0 s.1} (fourth, id_of initialize 1) refl
      (insert_record-Stored third-Removed.valid (9 ∷ []) (omega arith) (omega arith)
        (λ e. absurd (omega arith)))

insert_record_spoils_example :
    (insert_record fourth (5 ∷ [])
      ≡ throws (slot_in_use (record { page_number = 0; slot_number = 3 })))
    × (num (insert_record_left fourth (5 ∷ [])) ≡ 3)
    × (get_record (insert_record_left fourth (5 ∷ [])) (id_of fourth 3)
        ≡ ok (slice fourth.data_ 514 514))
    × (insert_record (insert_record_left fourth (5 ∷ [])) (6 ∷ 7 ∷ []) ≡ undefined)
unfolding program
insert_record_spoils_example =
    insert_record_spoils fourth-Stored.valid (5 ∷ []) (6 ∷ 7 ∷ []) (omega arith) (omega arith) refl
      refl (omega arith)

-- After these calls the second record, four bytes of value 5, reads as four zero bytes.
abbrev emptied : Result (List ℕ)
emptied = do
  a ← insert_record initialize (4 ∷ 4 ∷ 4 ∷ 4 ∷ 4 ∷ [])
  b ← insert_record a.0 (5 ∷ 5 ∷ 5 ∷ 5 ∷ [])
  c ← insert_record b.0 (6 ∷ 6 ∷ 6 ∷ 6 ∷ 6 ∷ 6 ∷ [])
  d ← insert_record c.0 []
  e ← delete_record d.0 c.1
  f ← delete_record e a.1
  get_record f b.1

emptied-zero : emptied ≡ ok (0 ∷ 0 ∷ 0 ∷ 0 ∷ [])
unfolding program
emptied-zero = refl
