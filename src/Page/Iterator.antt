-- ===== src/Page/Iterator.antt =====
-- Iteration over the records of a page: src/page_iterator.h, and `begin` and `end` of src/page.cpp.
-- The iterator's pointer to its page is the page, which the iteration does not change.
use hit_database_exp3p2_cpp.Base.{
  ℕ, zero, suc, ◌+◌, ◌-◌, ◌≤◌, ◌<◌, ◌≡◌, refl, ◌∙◌, inl, inr, ◌⊎◌, Bool, true, false, ◌&&◌, List,
  [], ◌∷◌, arith, ◌==◌, Bool-cases, if◌then◌else◌,
}
use hit_database_exp3p2_cpp.Result.{Result, ok, ◌>>=◌}
use hit_database_exp3p2_cpp.Result.Exceptions.{RecordId}
use hit_database_exp3p2_cpp.Page.{Page, page_number, get_record, invalid_slot_number}
use hit_database_exp3p2_cpp.Page.Slot.{get_slot}
use hit_database_exp3p2_cpp.Page.Slot.Fills.{get_slot_lem}
use hit_database_exp3p2_cpp.Page.Valid.{
  slots, num, IsValid, Holds, record_of, id_of, read_slot, get_record-Holds,
}

pub record PageIterator : Type 0 where
  pub page : Page
  pub current_record : RecordId

-- The loop of getNextUsedSlot.
unfoldable pub next_used : List ℕ → ℕ → ℕ → Result ℕ
next_used d zero i = ok invalid_slot_number
next_used d (suc rounds) i = do
  slot ← get_slot d i
  elim slot.used [ true ↦ ok i | false ↦ next_used d rounds (i + 1) ]

-- The slots after `start`, up to the last of the array.
unfoldable pub get_next_used_slot : Page → ℕ → Result ℕ
get_next_used_slot p start = next_used p.data_ (num p - start) (start + 1)

unfoldable pub begin : Page → Result PageIterator
begin p = do
  n ← get_next_used_slot p invalid_slot_number
  ok (record { page = p; current_record = id_of p n })

unfoldable pub end : Page → PageIterator
end p = record { page = p; current_record = id_of p invalid_slot_number }

-- Both forms of `operator++` move the iterator so.
unfoldable pub advance : PageIterator → Result PageIterator
advance it = do
  n ← get_next_used_slot it.page it.current_record.slot_number
  ok (record { page = it.page; current_record = id_of it.page n })

unfoldable pub is_equal : PageIterator → PageIterator → Bool
is_equal a b =
    page_number a.page == page_number b.page
    && (a.current_record.page_number == b.current_record.page_number
        && a.current_record.slot_number == b.current_record.slot_number)

unfoldable pub deref : PageIterator → Result (List ℕ)
deref it = get_record it.page it.current_record

-- `for (it = begin(); it != end(); ++it) visit(*it)`, the visited records in order.
unfoldable pub iterate : ℕ → PageIterator → Result (List (List ℕ))
iterate zero it = ok []
iterate (suc fuel) it = elim (is_equal it (end it.page)) [
  | true ↦ ok []
  | false ↦ do r ← deref it; next ← advance it; rest ← iterate fuel next; ok (r ∷ rest)
]

-- The loop over all records of a page that stays where it is (src/main.hpp).
unfoldable pub iterate_page : ℕ → Page → Result (List (List ℕ))
iterate_page fuel page = begin page >>= iterate fuel

-- The records of the slots `i` up to `i + rounds - 1` that are used, in order.
abbrev pub records_from : Page → ℕ → ℕ → List (List ℕ)
records_from p zero i = []
records_from p (suc rounds) i =
    if (slots p i).used
    then record_of p i ∷ records_from p rounds (i + 1)
    else records_from p rounds (i + 1)

module _ {p : Page} (v : IsValid p) where
  -- The search finds the next used slot; the slots that it passes over hold no record.
  next_used_lem :
      (rounds i : ℕ)
      → 0 < i
      → i + rounds ≡ num p + 1
      → ((next_used p.data_ rounds i ≡ ok 0) × (records_from p rounds i ≡ []))
        ⊎ ((k : ℕ) × (next_used p.data_ rounds i ≡ ok k)
            × (i ≤ k)
            × Holds p k
            × (records_from p rounds i ≡ record_of p k ∷ records_from p (num p - k) (k + 1)))
  unfolding next_used
  next_used_lem zero i pos e = inl (refl, refl)
  next_used_lem (suc rounds) i pos e =
      let read = get_slot_lem p.data_ i pos (read_slot v i pos (omega arith)) in
      elim (Bool-cases (slots p i).used) [
        | inl on ↦
            let same : rounds ≡ num p - i = omega arith in
            inr (i, rw (read, on) refl, omega arith, (pos, omega arith, on), rw (on, same) refl)
        | inr off ↦ elim (next_used_lem rounds (i + 1) (omega arith) (omega arith)) [
          | inl (a, b) ↦ inl (rw (read, off) a, rw off b)
          | inr (k, a, b, c, d) ↦ inr (k, rw (read, off) a, omega arith, c, rw off d)
        ]
      ]

  at : ℕ → PageIterator
  at n = record { page = p; current_record = id_of p n }

  at-end : is_equal (at 0) (end p) ≡ true
  unfolding is_equal at end
  at-end = ground arith

  not_at-end : (k : ℕ) → 0 < k → is_equal (at k) (end p) ≡ false
  unfolding is_equal at end
  not_at-end k pos = ground arith

  iterate_end : (fuel : ℕ) → iterate fuel (at 0) ≡ ok []
  unfolding iterate at
  iterate_end zero = refl
  iterate_end (suc fuel) = rw (at-end, iterate)

  iterate_step :
      (fuel k : ℕ)
      → Holds p k
      → iterate (suc fuel) (at k) ≡ (
          get_next_used_slot p k >>= λ n. iterate fuel (at n) >>= λ rest. ok (record_of p k ∷ rest))
  unfolding iterate at deref advance
  iterate_step fuel k h =
      ground (arith, not_at-end k h.0, get_record-Holds v k h, get_next_used_slot p k)

  -- From a record on, the loop visits it and the records after it.
  iterate_from :
      (fuel k : ℕ)
      → num p - k < fuel
      → Holds p k
      → iterate fuel (at k) ≡ ok (record_of p k ∷ records_from p (num p - k) (k + 1))
  unfolding get_next_used_slot
  iterate_from zero k enough h = absurd (omega arith)
  iterate_from (suc fuel) k enough h =
      iterate_step fuel k h
      ∙ elim (next_used_lem (num p - k) (k + 1) (omega arith) (omega (arith, h.1))) [
        | inl (a, b) ↦ rw (a, iterate_end fuel, b) refl
        | inr (j, a, b, c, d) ↦ rw (a, iterate_from fuel j (omega (arith, c.1)) c, d) refl
      ]

  -- On a valid page the loop from begin() to end(), given more rounds than the page has slots,
  -- visits the bytes of every record that the page holds, once each, in the order of the slots.
  pub iterate_all :
      (fuel : ℕ) → num p < fuel → (begin p >>= iterate fuel) ≡ ok (records_from p (num p) 1)
  unfolding begin get_next_used_slot at
  iterate_all fuel enough =
      let all : num p - 0 ≡ num p = omega arith in
      elim (next_used_lem (num p) 1 (omega arith) (omega arith)) [
        | inl (a, b) ↦ rw (all, a, b) (iterate_end fuel)
        | inr (k, a, b, c, d) ↦ rw (all, a, d) (iterate_from fuel k (omega arith) c)
      ]
