-- ===== src/Tests/Block.antt =====
-- insertRecord in turn, on small inputs.
use hit_database_exp3p2_cpp.Base.{true, ℕ, ◌+◌, ◌<◌, ◌≡◌, List, [], ◌∷◌, arith, get_or}
use hit_database_exp3p2_cpp.Result.{ok}
use hit_database_exp3p2_cpp.Page.{Page, set_page_number, initialize, get_record, insert_record}
use hit_database_exp3p2_cpp.Page.Headers.{is_equal, insert_record-headers}
use hit_database_exp3p2_cpp.Page.Iterator.{iterate_page}
use hit_database_exp3p2_cpp.Page.Stacked.{insert_all, ids, insert_all-read, blank-Stacked}
use hit_database_exp3p2_cpp.Driver.{hello_record}
use hit_database_exp3p2_cpp.Tests.Files.{world}

abbrev some_records : List (List ℕ)
some_records = hello_record ∷ world ∷ (7 ∷ []) ∷ []

insert_all-read_example :
    (q : Page) × (insert_all (set_page_number initialize 2) some_records
      ≡ ok (ids 2 1 some_records, q))
    × (iterate_page 4 q ≡ ok some_records)
    × ((j : ℕ)
        → j < 3
        → get_record q (record { page_number = 2; slot_number = 1 + j })
          ≡ ok (get_or some_records j []))
insert_all-read_example =
    insert_all-read 2 4 some_records (omega arith, (omega arith, (omega arith, tt))) (omega arith)
      (omega arith)

insert_record-headers_example :
    (a : Page) × (b : Page) × (insert_record (set_page_number initialize 1) hello_record
      ≡ ok (a, record { page_number = 1; slot_number = 1 }))
    × (insert_record (set_page_number initialize 1) (7 ∷ [])
        ≡ ok (b, record { page_number = 1; slot_number = 1 }))
    × (is_equal a.header b.header ≡ true)
    × (¬ (a.header ≡ b.header))
unfolding initialize
insert_record-headers_example =
    insert_record-headers (blank-Stacked 1).valid (blank-Stacked 1).clean hello_record (7 ∷ [])
      (omega arith) (omega arith) (omega arith) (omega arith) (omega arith)
