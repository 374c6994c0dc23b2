-- ===== src/File/Fill/Rounds.antt =====
-- The rounds of the loop that fills a new file (src/main.cpp).
use hit_database_exp3p2_cpp.Base.{
  ℕ, ◌+◌, ◌≤◌, ◌<◌, ◌≡◌, ◌^◌, refl, sym, ◌∙◌, ap, subst, some, List, [], ◌∷◌, ◌++◌, arith, length,
  zero, suc, inl, inr, Bool-cases, true, ◌==◌, ==-ne,
}
use hit_database_exp3p2_cpp.Result.{ok}
use hit_database_exp3p2_cpp.Result.Exceptions.{RecordId}
use hit_database_exp3p2_cpp.Page.{Page, page_number, insert_record}
use hit_database_exp3p2_cpp.Page.Stacked.{Stacked, insert_record-Stacked, blank-Stacked}
use hit_database_exp3p2_cpp.File.{allocate_page, write_page}
use hit_database_exp3p2_cpp.File.Stream.{File}
use hit_database_exp3p2_cpp.File.Links.{IsFile}
use hit_database_exp3p2_cpp.File.Relink.{assoc, length-snoc}
use hit_database_exp3p2_cpp.File.Append.{allocate_page_appended}
use hit_database_exp3p2_cpp.File.Store.{write_page_written}
use hit_database_exp3p2_cpp.File.Reached.{Pages, assign, content, blank, Reached, appended, written}
use hit_database_exp3p2_cpp.File.Reached.Represented.{Reached-Represents, num_pages-IsFile}
use hit_database_exp3p2_cpp.File.Fill.Loop.{fill, upto}

append_nil : (xs : List ℕ) → xs ++ [] ≡ xs
append_nil [] = refl
append_nil (x ∷ xs) = ap (λ ys. x ∷ ys) (append_nil xs)

-- The map has a page with the records under the number.
abbrev pub Has : List (List ℕ) → Pages → ℕ → Type 0
Has rs m n = (q : Page) × (m n ≡ some (content q)) × Stacked n rs q

module _ (r : List ℕ) (some_bytes : 0 < length r) (fits : length r + 6 ≤ 8176) where
  -- A round of the loop.
  abbrev Round : ℕ → File → List ℕ → Pages → Type 0
  Round fuel f us m =
      (p q : Page) × (rid : RecordId) × (f1 f2 : File) × (m' : Pages) × (allocate_page fuel f
        ≡ (ok p, f1))
      × (insert_record p r ≡ ok (q, rid))
      × (write_page q f1 ≡ (ok tt, f2))
      × (page_number p ≡ f.file_header.num_pages)
      × Reached f2 (us ++ f.file_header.num_pages ∷ []) [] m'
      × Has (r ∷ []) m' f.file_header.num_pages
      × ((n : ℕ) → n < f.file_header.num_pages → m' n ≡ m n)

  round_lem :
      (fuel : ℕ) (f : File) (us : List ℕ) (m : Pages)
      → Reached f us [] m
      → f.file_header.num_pages + 1 < 2 ^ 32
      → length us ≤ fuel
      → Round fuel f us m
  round_lem fuel f us m before room enough =
      let top = f.file_header.num_pages in
      let is = (Reached-Represents before).is in
      let (p, f1, run, number, is1, keeps, same, at) =
        allocate_page_appended fuel f us is room enough in
      let (q, inserted, s) =
        insert_record-Stacked [] r (blank-Stacked top) some_bytes (omega arith) in
      let rid : RecordId = record { page_number = top; slot_number = 1 } in
      let number' : page_number q ≡ top = s.number in
      let next = appended before fuel room enough run in
      let m1 = assign m (page_number p) (some (blank (page_number p))) in
      let (p0, f2, there, wrote, is2, read, named, kept, at2) =
        write_page_written f1 q us [] []
          (subst (λ k. IsFile f1 (us ++ k ∷ []) []) (sym number') is1) in
      let last =
        written q us [] (subst (λ k. Reached f1 (us ++ k ∷ []) [] m1) (sym number') next) wrote in
      (
        p,
        q,
        rid,
        f1,
        f2,
        assign m1 (page_number q) (some (content q)),
        run,
        ap (λ x. insert_record x r) same ∙ inserted,
        wrote,
        number,
        subst (λ k. Reached f2 (us ++ k ∷ []) [] (assign m1 (page_number q) (some (content q))))
            number' last,
        (q, (let e : (top == page_number q) ≡ true = ground arith in rw e refl), s),
        λ n below.
            rw (==-ne n (page_number q) (omega arith), ==-ne n (page_number p) (omega arith)) refl,
      )

  fill_step :
      (fuel rounds : ℕ) (f f1 f2 f' : File) (p q : Page) (rid : RecordId) (n : ℕ)
      → allocate_page fuel f ≡ (ok p, f1)
      → insert_record p r ≡ ok (q, rid)
      → write_page q f1 ≡ (ok tt, f2)
      → page_number p ≡ n
      → (ns : List ℕ) → fill fuel r rounds f2 ≡ (ok ns, f')
      → fill fuel r (suc rounds) f ≡ (ok (n ∷ ns), f')
  unfolding fill
  fill_step fuel rounds f f1 f2 f' p q rid n run ins wrote number ns ran =
      rw run (rw ins (rw wrote (rw ran (ap (λ k. (ok (k ∷ ns), f')) number))))

  abbrev pub Filled : ℕ → ℕ → File → List ℕ → Pages → Type 0
  Filled rounds fuel f us m =
      (f' : File) × (m' : Pages) × (fill fuel r rounds f
        ≡ (ok (upto f.file_header.num_pages rounds), f'))
      × Reached f' (us ++ upto f.file_header.num_pages rounds) [] m'
      × ((n : ℕ) → n < f.file_header.num_pages → m' n ≡ m n)
      × ((n : ℕ)
          → f.file_header.num_pages ≤ n
          → n < f.file_header.num_pages + rounds
          → Has (r ∷ []) m' n)

  pub fill_lem :
      (rounds fuel : ℕ) (f : File) (us : List ℕ) (m : Pages)
      → Reached f us [] m
      → f.file_header.num_pages + rounds < 2 ^ 32
      → length us + rounds ≤ fuel
      → Filled rounds fuel f us m
  unfolding fill
  fill_lem zero fuel f us m before room enough = (
    f,
    m,
    refl,
    subst (λ vs. Reached f vs [] m) (sym (append_nil us)) before,
    λ n below. refl,
    λ n above below. absurd (omega arith),
  )
  fill_lem (suc rounds) fuel f us m before room enough =
      let top = f.file_header.num_pages in
      let (p, q, rid, f1, f2, m2, run, ins, wrote, number, reached, has, same) =
        round_lem fuel f us m before (omega arith) (omega arith) in
      let size = num_pages-IsFile (Reached-Represents before).is in
      let size2 = num_pages-IsFile (Reached-Represents reached).is in
      let longer = length-snoc us top in
      let grown : f2.file_header.num_pages ≡ top + 1 = omega arith in
      let (f', m', ran, reached', keep, have) =
        fill_lem rounds fuel f2 (us ++ top ∷ []) m2 reached (omega arith) (omega arith) in
      let (q', at, stacked) = has in
      (
        f',
        m',
        subst (λ k. fill fuel r (suc rounds) f ≡ (ok (top ∷ upto k rounds), f')) grown
            (fill_step fuel rounds f f1 f2 f' p q rid top run ins wrote number
              (upto f2.file_header.num_pages rounds) ran),
        subst (λ k. Reached f' (us ++ top ∷ upto k rounds) [] m') grown
            (subst (λ vs. Reached f' vs [] m') (assoc us top (upto f2.file_header.num_pages rounds))
              reached'),
        λ n below. keep n (omega arith) ∙ same n below,
        λ n above below. elim (Bool-cases (n == top)) [
          | inl e ↦
              let tn : top ≡ n = ground arith in
              subst (λ k. Has (r ∷ []) m' k) tn (q', keep top (omega arith) ∙ at, stacked)
          | inr other ↦ have n (ground arith) (omega arith)
        ],
      )
