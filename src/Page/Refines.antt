-- ===== src/Page/Refines.antt =====
-- A page against a map from slot numbers to records, through any calls of insertRecord, deleteRecord and
-- updateRecord (src/page.cpp).
use hit_database_exp3p2_cpp.Base.{
  ℕ, ◌+◌, ◌≤◌, ◌<◌, ◌≡◌, refl, sym, ◌∙◌, ap, Option, none, some, leb, List, [], ◌∷◌, arith, inl,
  inr, ◌⊎◌, Option-cases, Bool-cases, zero, suc,
}
use hit_database_exp3p2_cpp.Result.{Result, ok, ok-injective, ◌>>=◌}
use hit_database_exp3p2_cpp.Page.{Page, get_record}
use hit_database_exp3p2_cpp.Page.Valid.{
  IsValid, Holds, num, slots, id_of, no_record, num-lt, record_of, get_record-Holds,
}
use hit_database_exp3p2_cpp.Page.Removal.{get_record_unused}
use hit_database_exp3p2_cpp.Page.Iterator.{begin, iterate, iterate_all, records_from}
use hit_database_exp3p2_cpp.Page.Reached.{Records, Reached, Represents, Reached-Represents}

-- What getRecord answers for what the map has.
abbrev pub answer : Page → ℕ → Option (List ℕ) → Result (List ℕ)
answer p k none = no_record p (id_of p k)
answer p k (some r) = ok r

-- The records of the map from slot `i` on, in the order of the slots.
abbrev pub consed : Option (List ℕ) → List (List ℕ) → List (List ℕ)
consed none rest = rest
consed (some r) rest = r ∷ rest

abbrev pub listed : Records → ℕ → ℕ → List (List ℕ)
listed m zero i = []
listed m (suc rounds) i = consed (m i) (listed m rounds (i + 1))

module _ {p : Page} {m : Records} (rep : Represents p m) where
  get_record-answer :
      (k : ℕ)
      → 0 < k
      → k ≤ num p
      → (o : Option (List ℕ)) → m k ≡ o
      → get_record p (id_of p k) ≡ answer p k o
  get_record-answer k pos low none e =
      get_record_unused p k pos (omega (arith, rep.valid.whole, num-lt rep.valid))
        (elim (Bool-cases (slots p k).used) [
          | inl on ↦ let (x, e') = rep.held k (pos, low, on) in absurd (cc)
          | inr off ↦ off
        ])
  get_record-answer k pos low (some r) e = (rep.there k r e).1

  records_from-listed :
      (rounds i : ℕ) → 0 < i → i + rounds ≡ num p + 1 → records_from p rounds i ≡ listed m rounds i
  records_from-listed zero i pos e = refl
  records_from-listed (suc rounds) i pos e =
      let rest = records_from-listed rounds (i + 1) (omega arith) (omega arith) in
      elim (Bool-cases (slots p i).used) [
        | inl on ↦
            let h : Holds p i = (pos, omega arith, on) in
            let (x, at_i) = rep.held i h in
            let same : record_of p i ≡ x =
              ok-injective (sym (get_record-Holds rep.valid i h) ∙ (rep.there i x at_i).1) in
            rw (on, at_i, rest, same) refl
        | inr off ↦ elim (Option-cases (m i)) [
          | inl gone ↦ rw (off, gone) rest
          | inr (x, at_i) ↦ let (h, read) = rep.there i x at_i in absurd (cc)
        ]
      ]

-- After any calls of insertRecord, deleteRecord and updateRecord that return, on a page that starts
-- blank, with records that are not empty and identifiers of records that are there, the page is valid
-- and does what a map from slot numbers to records does after the same calls: for each slot of the
-- page, getRecord answers with the map's record, or throws InvalidRecordException where the map has
-- none; the map has no record beyond the page's slots; and the loop from begin() to end(), given more
-- rounds than the page has slots, visits the map's records in the order of the slots.
pub get_record-Reached :
    {p : Page} {m : Records}
    → Reached p m
    → (k fuel : ℕ) → 0 < k
    → num p < fuel
    → IsValid p
      × (((k ≤ num p) × (get_record p (id_of p k) ≡ answer p k (m k)))
          ⊎ ((num p < k) × (m k ≡ none)))
      × ((begin p >>= iterate fuel) ≡ ok (listed m (num p) 1))
get_record-Reached {p} {m} reached k fuel pos enough =
    let rep = Reached-Represents reached in
    (
      rep.valid,
      elim (Bool-cases (leb k (num p))) [
        | inl low ↦ inl (ground arith, get_record-answer rep k pos (ground arith) (m k) refl)
        | inr high ↦
            let beyond : num p < k = ground arith in
            inr (
              beyond,
              elim (Option-cases (m k)) [
                | inl gone ↦ gone
                | inr (x, e) ↦ let (h, read) = rep.there k x e in absurd (omega (arith, h.1))
              ],
            )
      ],
      iterate_all rep.valid fuel enough
          ∙ ap ok (records_from-listed rep (num p) 1 (omega arith) (omega arith)),
    )
