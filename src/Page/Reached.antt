-- ===== src/Page/Reached.antt =====
-- The pages that calls of insertRecord, deleteRecord and updateRecord lead to, and the map from slot numbers
-- to records that goes through the same calls (src/page.cpp).
use hit_database_exp3p2_cpp.Base.{
  ℕ, ◌+◌, ◌-◌, ◌*◌, subst, ◌≤◌, ◌<◌, ◌≡◌, refl, sym, ◌∙◌, ap, Option, none, some, ◌==◌, leb,
  if◌then◌else◌, List, arith, length, inl, inr, ◌⊎◌, Bool-cases, ==-ne,
}
use hit_database_exp3p2_cpp.Result.{ok, Returns-at}
use hit_database_exp3p2_cpp.Result.Exceptions.{RecordId}
use hit_database_exp3p2_cpp.Page.{
  Page, page_number, initialize, insert_record, get_record, set_page_number, set_next_page_number,
}
use hit_database_exp3p2_cpp.Page.Delete.{delete_record, update_record}
use hit_database_exp3p2_cpp.Page.Slot.{slot_size}
use hit_database_exp3p2_cpp.Page.Valid.{
  IsValid, Holds, num, upper, slots, id_of, initialize-IsValid,
}
use hit_database_exp3p2_cpp.Page.Insert.{
  Stored, needed, insert_record-Stored, insert_record_full, insert_record_stale,
}
use hit_database_exp3p2_cpp.Page.Removal.{delete_record-Removed}
use hit_database_exp3p2_cpp.Page.Update.{Updated, update_record-Updated, update_record_full}

abbrev pub Records : Type 0
Records = ℕ → Option (List ℕ)

abbrev pub assign : Records → ℕ → Option (List ℕ) → Records
assign m k o i = if i == k then o else m i

-- A page on which nothing has been inserted.
abbrev pub blank : ℕ → ℕ → Page
blank n next = set_next_page_number (set_page_number initialize n) next

-- The pages that calls lead to, each with what a map holds after the same calls. The calls are those
-- that return: insertRecord and updateRecord of records that are not empty, deleteRecord and
-- updateRecord of identifiers of records in the map.
pub data Reached : Page → Records → Type 0 where
  start : (n next : ℕ) → Reached (blank n next) (λ _. none)
  inserted :
      {p q : Page} {m : Records} {rid : RecordId}
      → Reached p m
      → (r : List ℕ) → 0 < length r
      → insert_record p r ≡ ok (q, rid)
      → Reached q (assign m rid.slot_number (some r))
  deleted :
      {p q : Page} {m : Records}
      → Reached p m
      → (k : ℕ) (old : List ℕ) → m k ≡ some old
      → delete_record p (id_of p k) ≡ ok q
      → Reached q (assign m k none)
  updated :
      {p q : Page} {m : Records}
      → Reached p m
      → (k : ℕ) (old r : List ℕ) → m k ≡ some old
      → 0 < length r
      → update_record p (id_of p k) r ≡ ok q
      → Reached q (assign m k (some r))

pub record Represents (p : Page) (m : Records) : Type 0 where
  pub valid : IsValid p
  pub there : (k : ℕ) (r : List ℕ) → m k ≡ some r → Holds p k × (get_record p (id_of p k) ≡ ok r)
  pub held : (k : ℕ) → Holds p k → (r : List ℕ) × (m k ≡ some r)

blank-Represents : (n next : ℕ) → Represents (blank n next) (λ _. none)
unfolding initialize
blank-Represents n next = record {
  valid = record {
    whole = initialize-IsValid.whole;
    lower = initialize-IsValid.lower;
    order = initialize-IsValid.order;
    layout = initialize-IsValid.layout;
  };
  there = λ k r e. absurd (cc);
  held = λ k h. absurd (omega (arith, h.0, h.1));
}

-- insertRecord returns for no record but one that is stored.
insert_returned :
    {p q : Page} {r : List ℕ} {rid : RecordId}
    → IsValid p
    → 0 < length r
    → insert_record p r ≡ ok (q, rid)
    → Stored p r q rid
insert_returned {p} {q} {r} {rid} v some_bytes run =
    elim (Bool-cases (leb (needed p r + slot_size * num p) (upper p))) [
      | inl fits ↦
          let room : needed p r + slot_size * num p ≤ upper p = ground arith in
          Returns-at (q, rid) run
            (insert_record-Stored v r some_bytes room (λ none_free.
              elim (Bool-cases (slots p (num p + 1)).used) [
                | inl on ↦
                    let stale = insert_record_stale v r some_bytes room none_free on in absurd (cc)
                | inr off ↦ off
              ]))
      | inr big ↦ let full = insert_record_full v r (ground arith) in absurd (cc)
    ]

-- updateRecord returns for no record but one that takes the old one's place.
update_returned :
    {p q : Page} {r : List ℕ}
    → IsValid p
    → (k : ℕ) → Holds p k
    → 0 < length r
    → update_record p (id_of p k) r ≡ ok q
    → Updated p k r q
update_returned {p} {q} {r} v k h some_bytes run =
    elim (Bool-cases (leb (length r) (upper p - slot_size * num p + (slots p k).item_length))) [
      | inl fits ↦ Returns-at q run (update_record-Updated v k h r some_bytes (ground arith))
      | inr big ↦ let full = update_record_full v k h r (ground arith) in absurd (cc)
    ]

module _ {p : Page} {m : Records} (rep : Represents p m) (q : Page) (valid : IsValid q)
    (same_page : page_number q ≡ page_number p) (k : ℕ)
    (keeps : (j : ℕ)
      → Holds p j
      → ¬ (j ≡ k)
      → Holds q j × (get_record q (id_of p j) ≡ get_record p (id_of p j))) where
  renumber : (j : ℕ) → get_record q (id_of q j) ≡ get_record q (id_of p j)
  renumber j = ap (λ n. get_record q (record { page_number = n; slot_number = j })) same_page

  -- A record in another slot is read as before.
  moved :
      (j : ℕ) (x : List ℕ)
      → ¬ (j ≡ k)
      → m j ≡ some x
      → Holds q j × (get_record q (id_of q j) ≡ ok x)
  moved j x ne e =
      let (h, read) = rep.there j x e in
      let (h', same) = keeps j h ne in (h', renumber j ∙ same ∙ read)

  assign-Represents :
      (r : List ℕ)
      → Holds q k
      → get_record q (id_of p k) ≡ ok r
      → ((j : ℕ) → Holds q j → (j ≡ k) ⊎ Holds p j)
      → Represents q (assign m k (some r))
  assign-Represents r holds reads only = record {
    valid = valid;
    there = λ j x e. elim (Bool-cases (j == k)) [
      | inl same ↦
          let at_k : k ≡ j = ground arith in
          let new : some r ≡ some x = rw same at e in
          let rx : r ≡ x = cc in
          subst (λ i. Holds q i × (get_record q (id_of q i) ≡ ok x)) at_k
            (holds, renumber k ∙ reads ∙ ap ok rx)
      | inr other ↦ moved j x (ground arith) (rw other at e)
    ];
    held = λ j h. elim (Bool-cases (j == k)) [
      | inl same ↦ (r, rw same refl)
      | inr other ↦ elim (only j h) [
        | inl e ↦ absurd (ground arith)
        | inr h' ↦ let (x, e) = rep.held j h' in (x, rw other e)
      ]
    ];
  }

  assign-none-Represents :
      ((j : ℕ) → Holds q j → (¬ (j ≡ k)) × Holds p j) → Represents q (assign m k none)
  assign-none-Represents only = record {
    valid = valid;
    there = λ j x e. elim (Bool-cases (j == k)) [
      | inl same ↦ let no : none ≡ some x = rw same at e in absurd (cc)
      | inr other ↦ moved j x (ground arith) (rw other at e)
    ];
    held = λ j h. let (ne, h') = only j h in let (x, e) = rep.held j h' in (x, rw (==-ne j k ne) e);
  }

pub Reached-Represents : {p : Page} {m : Records} → Reached p m → Represents p m
Reached-Represents (start n next) = blank-Represents n next
Reached-Represents (inserted {q = q} {rid = rid} before r some_bytes run) =
    let rep = Reached-Represents before in
    let s = insert_returned rep.valid some_bytes run in
    assign-Represents rep q s.valid s.same_page rid.slot_number (λ j h ne. s.keeps j h) r s.holds
      (ap (get_record q) (sym s.on_page) ∙ s.reads) s.only
Reached-Represents (deleted {q = q} before k old e run) =
    let rep = Reached-Represents before in
    let d = Returns-at q run (delete_record-Removed rep.valid k (rep.there k old e).0) in
    assign-none-Represents rep q d.valid d.same_page k d.keeps d.only
Reached-Represents (updated {q = q} before k old r e some_bytes run) =
    let rep = Reached-Represents before in
    let u = update_returned rep.valid k (rep.there k old e).0 some_bytes run in
    assign-Represents rep q u.valid u.same_page k u.keeps r u.holds u.reads
      (λ j h. inr (u.only j h))
