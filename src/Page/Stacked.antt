-- ===== src/Page/Stacked.antt =====
-- insertRecord of src/page.cpp, called for one record after another on an empty page.
pub mod Records
use hit_database_exp3p2_cpp.Base.{
  ℕ, ◌+◌, ◌*◌, ◌≤◌, ◌<◌, ◌≡◌, refl, sym, ◌∙◌, ap, List, [], ◌∷◌, ◌++◌, arith, length, get_or, zero,
  suc, subst, get_or-replicate,
}
use hit_database_exp3p2_cpp.Result.{Result, ok, ◌>>=◌}
use hit_database_exp3p2_cpp.Result.Exceptions.{RecordId}
use hit_database_exp3p2_cpp.Page.{
  Page, page_number, data_size, initialize, set_page_number, set_next_page_number, insert_record,
  get_record,
}
use hit_database_exp3p2_cpp.Page.Valid.{
  num, upper, IsValid, Holds, record_of, get_record-Holds, initialize-IsValid,
}
use hit_database_exp3p2_cpp.Page.InsertInSlot.{Inserted}
use hit_database_exp3p2_cpp.Page.Iterator.{iterate_page, iterate_all, records_from}
use hit_database_exp3p2_cpp.Page.Clean.{IsClean, insert_record-IsClean}
use Records.{Lists, Lists-Inserted, Lists-snoc, Lists-records_from, Lists-at, Lists-pointer}

-- insertRecord for one record after another: the identifiers, and the page after the calls.
abbrev pub insert_all : Page → List (List ℕ) → Result (List RecordId × Page)
insert_all p [] = ok ([], p)
insert_all p (r ∷ rs) = do
  (q, rid) ← insert_record p r
  (rids, last) ← insert_all q rs
  ok (rid ∷ rids, last)

-- The bytes that the records take with their slots.
abbrev pub taken : List (List ℕ) → ℕ
taken [] = 0
taken (r ∷ rs) = length r + 6 + taken rs

abbrev pub NoneEmpty : List (List ℕ) → Type 0
NoneEmpty [] = Unit {0}
NoneEmpty (r ∷ rs) = (0 < length r) × NoneEmpty rs

-- The identifiers on page `n` from slot `k` on.
abbrev pub ids : ℕ → ℕ → List (List ℕ) → List RecordId
ids n k [] = []
ids n k (r ∷ rs) = record { page_number = n; slot_number = k } ∷ ids n (k + 1) rs

-- What the calls leave on a page that holds some records before.
pub record Stacked (n : ℕ) (rs : List (List ℕ)) (p : Page) : Type 0 where
  pub valid : IsValid p
  pub clean : IsClean p
  pub number : page_number p ≡ n
  pub count : num p ≡ length rs
  pub lists : Lists p 1 rs
  pub space : upper p + taken rs ≡ 8176 + 6 * num p

assoc : (xs : List (List ℕ)) (r : List ℕ) (ys : List (List ℕ)) → (xs ++ r ∷ []) ++ ys ≡ xs ++ r ∷ ys
assoc [] r ys = refl
assoc (x ∷ xs) r ys = ap (λ zs. x ∷ zs) (assoc xs r ys)

nothing_more : (xs : List (List ℕ)) → xs ++ [] ≡ xs
nothing_more [] = refl
nothing_more (x ∷ xs) = ap (λ zs. x ∷ zs) (nothing_more xs)

length-snoc : (xs : List (List ℕ)) (r : List ℕ) → length (xs ++ r ∷ []) ≡ length xs + 1
length-snoc [] r = refl
length-snoc (x ∷ xs) r = let e = length-snoc xs r in omega arith

taken-snoc : (xs : List (List ℕ)) (r : List ℕ) → taken (xs ++ r ∷ []) ≡ taken xs + length r + 6
taken-snoc [] r = omega arith
taken-snoc (x ∷ xs) r = let e = taken-snoc xs r in omega arith

-- A record more on the page.
pub insert_record-Stacked :
    {n : ℕ} {p : Page} (done : List (List ℕ)) (r : List ℕ)
    → Stacked n done p
    → 0 < length r
    → taken done + length r + 6 ≤ 8176
    → (q : Page) × (insert_record p r
        ≡ ok (q, record { page_number = n; slot_number = length done + 1 }))
      × Stacked n (done ++ r ∷ []) q
insert_record-Stacked {n} {p} done r s some_bytes room =
    let before = s.space in
    let (q, run, i, clean, more) =
      insert_record-IsClean s.valid s.clean r some_bytes (omega arith) in
    let at : num p + 1 ≡ length done + 1 = ap (λ (k : ℕ). k + 1) s.count in
    (
      q,
      run
          ∙ ap (λ (rid : RecordId). ok (q, rid))
              (ap (λ (k : ℕ). record { page_number = k; slot_number = num p + 1 }) s.number
                ∙ ap (λ (k : ℕ). record { page_number = n; slot_number = k }) at),
      record {
        valid = i.valid;
        clean = clean;
        number = i.same_page ∙ s.number;
        count = more ∙ at ∙ sym (length-snoc done r);
        lists =
            Lists-snoc q done 1 (num p + 1) r (Lists-Inserted i done 1 s.lists) (omega (arith, at))
              i.holds i.reads;
        space = let t = taken-snoc done r in let less = i.space in omega arith;
      },
    )

insert_all-Stacked :
    {n : ℕ} (rs : List (List ℕ)) (p : Page) (done : List (List ℕ))
    → Stacked n done p
    → NoneEmpty rs
    → taken done + taken rs ≤ 8176
    → (q : Page) × (insert_all p rs ≡ ok (ids n (length done + 1) rs, q)) × Stacked n (done ++ rs) q
insert_all-Stacked {n = n} [] p done s some_bytes room =
    (p, refl, subst (λ (xs : List (List ℕ)). Stacked n xs p) (sym (nothing_more done)) s)
insert_all-Stacked {n = n} (r ∷ rs) p done s (some_here, some_bytes) room =
    let (q, run, t) = insert_record-Stacked done r s some_here (omega arith) in
    let e = length-snoc done r in
    let more = taken-snoc done r in
    let (last, rest, all) = insert_all-Stacked rs q (done ++ r ∷ []) t some_bytes (omega arith) in
    (
      last,
      rw run (
          rw rest (
            ap
              (λ (k : ℕ). ok (
                record { page_number = n; slot_number = length done + 1 } ∷ ids n (k + 1) rs,
                last,
              ))
              e)),
      subst (λ (xs : List (List ℕ)). Stacked n xs last) (assoc done r rs) all,
    )

pub blank-Stacked : (n : ℕ) → Stacked n [] (set_page_number initialize n)
unfolding initialize
blank-Stacked n = record {
  valid = record {
    whole = initialize-IsValid.whole;
    lower = initialize-IsValid.lower;
    order = initialize-IsValid.order;
    layout = initialize-IsValid.layout;
  };
  clean = record { full = refl; zeros = λ i low high. get_or-replicate data_size i 0 };
  number = refl;
  count = refl;
  lists = tt;
  space = refl;
}

pub Stacked-pointer :
    {n : ℕ} {rs : List (List ℕ)} (q : Page) (k : ℕ)
    → Stacked n rs q
    → Stacked n rs (set_next_page_number q k)
Stacked-pointer {rs = rs} q k s = record {
  valid = record {
    whole = s.valid.whole;
    lower = s.valid.lower;
    order = s.valid.order;
    layout = s.valid.layout;
  };
  clean = record { full = s.clean.full; zeros = s.clean.zeros };
  number = s.number;
  count = s.count;
  lists = Lists-pointer q k rs 1 s.lists;
  space = s.space;
}

pub iterate_page-Stacked :
    {n : ℕ} {rs : List (List ℕ)} {q : Page}
    → Stacked n rs q
    → (fuel : ℕ) → length rs < fuel
    → iterate_page fuel q ≡ ok rs
unfolding iterate_page
iterate_page-Stacked {rs = rs} {q = q} s fuel enough =
    let c = s.count in
    iterate_all s.valid fuel (omega arith)
    ∙ ap (λ (k : ℕ). ok (records_from q k 1)) c
    ∙ ap ok (Lists-records_from q rs 1 s.lists)

pub get_record-Stacked :
    {n : ℕ} {rs : List (List ℕ)} {q : Page}
    → Stacked n rs q
    → (j : ℕ) → j < length rs
    → get_record q (record { page_number = n; slot_number = 1 + j }) ≡ ok (get_or rs j [])
get_record-Stacked {rs = rs} {q = q} s j below =
    let (h, e) = Lists-at q rs 1 j s.lists below in
    ap (λ (k : ℕ). get_record q (record { page_number = k; slot_number = 1 + j })) (sym s.number)
    ∙ get_record-Holds s.valid (1 + j) h
    ∙ ap ok e

-- The pages that differ from it in the pointer alone hold the same.
pub Stacked-content :
    {n : ℕ} {rs : List (List ℕ)} (p q : Page)
    → set_next_page_number p 0 ≡ set_next_page_number q 0
    → Stacked n rs q
    → Stacked n rs p
Stacked-content {n = n} {rs = rs} p q e s =
    Stacked-pointer (set_next_page_number p 0) p.header.next_page_number
      (subst (λ (x : Page). Stacked n rs x) (sym e) (Stacked-pointer q 0 s))

-- On a page that allocatePage returns for a number, which is empty, insertRecord takes all records
-- of a list, one after another, where none is empty and their bytes with six for each one's slot are no
-- more than the page's 8176: it gives them the identifiers of the slots 1, 2 and so on; getRecord then
-- reads each one back; and the loop from begin() to end(), given more rounds than there are records,
-- visits exactly the records, in the order in which they were inserted.
pub insert_all-read :
    (n fuel : ℕ) (rs : List (List ℕ))
    → NoneEmpty rs
    → taken rs ≤ 8176
    → length rs < fuel
    → (q : Page) × (insert_all (set_page_number initialize n) rs ≡ ok (ids n 1 rs, q))
      × (iterate_page fuel q ≡ ok rs)
      × ((j : ℕ)
          → j < length rs
          → get_record q (record { page_number = n; slot_number = 1 + j }) ≡ ok (get_or rs j []))
insert_all-read n fuel rs some_bytes fits enough =
    let (q, run, s) =
      insert_all-Stacked rs (set_page_number initialize n) [] (blank-Stacked n) some_bytes
        (omega arith) in
    (q, run, iterate_page-Stacked s fuel enough, get_record-Stacked s)
