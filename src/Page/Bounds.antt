-- ===== src/Page/Bounds.antt =====
-- The bounds that a page keeps through any calls of insertRecord, deleteRecord and updateRecord
-- (src/page.h, src/page.cpp).
use hit_database_exp3p2_cpp.Base.{
  ℕ, ◌+◌, ◌-◌, ◌*◌, ◌≤◌, ◌<◌, ◌≡◌, sym, ◌∙◌, ap, List, arith, length, some, inl, inr, ◌⊎◌,
  Bool-cases, Option-cases, ltb, ◌==◌, none, [], length-slice,
}
use hit_database_exp3p2_cpp.Result.{ok-injective}
use hit_database_exp3p2_cpp.Page.{Page, data_size, get_free_space}
use hit_database_exp3p2_cpp.Page.Slot.{slot_size}
use hit_database_exp3p2_cpp.Page.Layout.Clear.{gap_below}
use hit_database_exp3p2_cpp.Page.Valid.{
  IsValid, Holds, num, upper, free, slots, record_of, get_record-Holds, free-le, upper-le,
}
use hit_database_exp3p2_cpp.Page.Insert.{get_free_space-IsValid}
use hit_database_exp3p2_cpp.Page.Reached.{Records, Reached, Represents, Reached-Represents}

module _ {p : Page} (v : IsValid p) where
  disjoint :
      (j k : ℕ)
      → Holds p j
      → Holds p k
      → ¬ (j ≡ k)
      → ((slots p j).item_offset + (slots p j).item_length ≤ (slots p k).item_offset)
        ⊎ ((slots p k).item_offset + (slots p k).item_length ≤ (slots p j).item_offset)
  disjoint j k hj hk ne = elim (Bool-cases (ltb (slots p j).item_offset (slots p k).item_offset)) [
    | inl less ↦
        inl (gap_below (slots p) (num p) (upper p) (free p) k v.layout hk j hj (ground arith))
    | inr more ↦
        let apart = v.layout.apart j k hj hk ne in
        inr (gap_below (slots p) (num p) (upper p) (free p) j v.layout hj k hk (ground arith))
  ]

-- The bytes of a slot's record, from its offset on, and the length that the slot gives.
pub record Lies (p : Page) (k : ℕ) (r : List ℕ) : Type 0 where
  pub long : (slots p k).item_length ≡ length r
  pub some_bytes : 0 < length r
  pub above_free : upper p ≤ (slots p k).item_offset
  pub inside : (slots p k).item_offset + length r ≤ data_size

module _ {p : Page} {m : Records} (rep : Represents p m) where
  lies : (k : ℕ) (r : List ℕ) → m k ≡ some r → Lies p k r
  lies k r e =
      let v = rep.valid in
      let (h, read) = rep.there k r e in
      let same : record_of p k ≡ r = ok-injective (sym (get_record-Holds v k h) ∙ read) in
      let inside = v.layout.ends k h in
      let long : (slots p k).item_length ≡ length r =
        sym (
          length-slice p.data_ (slots p k).item_offset (slots p k).item_length
            (omega (arith, v.whole)))
        ∙ ap (λ (xs : List ℕ). length xs) same in
      record {
        long = long;
        some_bytes = omega (arith, v.layout.nonempty k h);
        above_free = v.layout.starts k h;
        inside = omega arith;
      }

-- A slot without a record in the map, or one whose record lies as it is to.
abbrev pub Placed : Page → Records → ℕ → Type 0
Placed p m k = (m k ≡ none) ⊎ ((r : List ℕ) × (m k ≡ some r) × Lies p k r)

-- Two slots that are one, that have not both a record in the map, or whose records share no byte.
abbrev pub Apart : Page → Records → ℕ → ℕ → Type 0
Apart p m j k =
    (j ≡ k)
    ⊎ (((m j ≡ none) ⊎ (m k ≡ none))
        ⊎ (((slots p j).item_offset + (slots p j).item_length ≤ (slots p k).item_offset)
            ⊎ ((slots p k).item_offset + (slots p k).item_length ≤ (slots p j).item_offset)))

module _ {p : Page} {m : Records} (rep : Represents p m) where
  placed : (k : ℕ) → Placed p m k
  placed k = elim (Option-cases (m k)) [
    | inl gone ↦ inl gone
    | inr (r, e) ↦ inr (r, e, lies rep k r e)
  ]

  apart : (j k : ℕ) → Apart p m j k
  apart j k = elim (Bool-cases (j == k)) [
    | inl same ↦ inl (ground arith)
    | inr other ↦ elim (Option-cases (m j)) [
      | inl gone ↦ inr (inl (inl gone))
      | inr (r, at_j) ↦ elim (Option-cases (m k)) [
        | inl gone ↦ inr (inl (inr gone))
        | inr (s, at_k) ↦
            let ne : ¬ (j ≡ k) = ground arith in
            inr (inr (disjoint rep.valid j k (rep.there j r at_j).0 (rep.there k s at_k).0 ne))
      ]
    ]
  ]

-- After any calls of insertRecord, deleteRecord and updateRecord that return, on a page that starts
-- blank, with records that are not empty and identifiers of records that are there: the string has its
-- size, the slot array ends below the free space and the free space inside the string, so that no
-- 16-bit number of the header has wrapped and getFreeSpace gives the bytes between the two bounds; for
-- each slot that has a record in the map, the record's bytes lie behind the free space and inside the
-- string; and the bytes of two slots with a record in the map do not meet.
pub Reached_bounds :
    {p : Page} {m : Records}
    → Reached p m
    → (j k : ℕ)
    → (length p.data_ ≡ data_size)
      × (p.header.free_space_lower_bound ≡ slot_size * num p)
      × (p.header.free_space_lower_bound ≤ upper p)
      × (upper p ≤ data_size)
      × (free p ≤ num p)
      × (get_free_space p ≡ upper p - p.header.free_space_lower_bound)
      × Placed p m j
      × Apart p m j k
Reached_bounds {p} reached j k =
    let rep = Reached-Represents reached in
    let v = rep.valid in
    (
      v.whole,
      v.lower,
      omega (arith, v.lower, v.order),
      upper-le v,
      free-le v,
      get_free_space-IsValid v [] ∙ ap (λ n. upper p - n) (sym v.lower),
      placed rep j,
      apart rep j k,
    )
