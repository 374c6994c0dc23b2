-- ===== src/Page/Removal.antt =====
-- The two forms of deleteRecord of src/page.cpp, as its callers see them.
use hit_database_exp3p2_cpp.Base.{
  ℕ, ◌+◌, ◌*◌, ◌≤◌, ◌<◌, ◌≡◌, refl, sym, ◌∙◌, ap, inl, inr, Bool, true, false, ◌&&◌, List, arith,
  slice, ltb, length, ◌==◌, Bool-cases, ==-refl, ==-ne,
}
use hit_database_exp3p2_cpp.Result.{ok, throws, Returns}
use hit_database_exp3p2_cpp.Result.Exceptions.{invalid_record}
use hit_database_exp3p2_cpp.Page.{Page, page_number, get_record, validate_record_id}
use hit_database_exp3p2_cpp.Page.Delete.{delete_record_with, delete_record}
use hit_database_exp3p2_cpp.Page.Slot.{PageSlot, slot_size, slot_of}
use hit_database_exp3p2_cpp.Page.Slot.Fills.{get_slot_lem}
use hit_database_exp3p2_cpp.Page.Close.{close_gap-Closed}
use hit_database_exp3p2_cpp.Page.Compact.{Compacted, compact_slots-Compacted}
use hit_database_exp3p2_cpp.Page.Remove.{Emptied, freed, freed-Emptied, top}
use hit_database_exp3p2_cpp.Page.Valid.{
  slots, num, upper, IsValid, Holds, record_of, id_of, no_record, num-lt, validate_used,
  get_record-Holds,
}

-- Page `q` is page `p` without the record in slot `k`.
pub record Removed (p : Page) (k : ℕ) (q : Page) : Type 0 where
  pub valid : IsValid q
  pub gone : get_record q (id_of p k) ≡ no_record p (id_of p k)
  pub keeps :
      (m : ℕ)
      → Holds p m
      → ¬ (m ≡ k)
      → Holds q m × (get_record q (id_of p m) ≡ get_record p (id_of p m))
  pub only : (m : ℕ) → Holds q m → (¬ (m ≡ k)) × Holds p m
  pub trimmed : k ≡ num p → 0 < num q → (slots q (num q)).used ≡ true
  pub untouched : ¬ (k ≡ num p) → num q ≡ num p
  pub same_page : page_number q ≡ page_number p
  pub space : upper q ≡ upper p + (slots p k).item_length

-- A slot within the string that is not used names no record.
pub get_record_unused :
    (q : Page) (k : ℕ)
    → 0 < k
    → slot_size * k ≤ length q.data_
    → (slots q k).used ≡ false
    → get_record q (id_of q k) ≡ no_record q (id_of q k)
unfolding get_record validate_record_id
get_record_unused q k pos room off =
    rw (==-refl (page_number q), get_slot_lem q.data_ k pos room, off)

module _ {p : Page} (v : IsValid p) (k : ℕ) (h : Holds p k) where
  -- Without compaction of the slot array.
  pub delete_record_with-Emptied :
      (allow : Bool)
      → (allow && k == num p) ≡ false
      → Returns (delete_record_with p (id_of p k) allow) (Emptied p k)
  unfolding delete_record_with freed
  delete_record_with-Emptied allow e =
      let (c, run, cl) = close_gap-Closed v k h in
      let read = get_slot_lem c k h.0 (top v k h c cl) in
      let same : slot_of c k ≡ slots p k = cl.shifted k h.0 h.1 ∙ ground arith in
      (
        freed v k h c cl,
        rw (validate_used v k h, run, read, same, e) refl,
        freed-Emptied v k h c cl,
      )

  -- With compaction.
  compacted :
      k ≡ num p → (q : Page) × (Emptied p k q) × Returns (delete_record p (id_of p k)) (Compacted q)
  unfolding delete_record delete_record_with freed
  compacted e =
      let (c, run, cl) = close_gap-Closed v k h in
      let read = get_slot_lem c k h.0 (top v k h c cl) in
      let same : slot_of c k ≡ slots p k = cl.shifted k h.0 h.1 ∙ ground arith in
      let em = freed-Emptied v k h c cl in
      let at_end : k == num p ≡ true = ground arith in
      let (r, run', cp) =
        compact_slots-Compacted em.valid (omega (arith, em.same_num, h.0))
          (ap (λ n. (slots (freed v k h c cl) n).used) (em.same_num ∙ sym e) ∙ em.off) in
      (freed v k h c cl, em, (r, rw (validate_used v k h, run, read, same, at_end) run', cp))

  gone_from :
      (q : Page)
      → IsValid q
      → page_number q ≡ page_number p
      → (slots q k).used ≡ false
      → get_record q (id_of p k) ≡ no_record p (id_of p k)
  gone_from q w same off =
      let room : slot_size * k ≤ length q.data_ = omega (arith, w.whole, num-lt v, h.1) in
      ap (λ n. get_record q (record { page_number = n; slot_number = k })) (sym same)
      ∙ get_record_unused q k h.0 room off
      ∙ ap
          (λ n. throws (
            invalid_record (record {
              record_id = record { page_number = n; slot_number = k };
              page_number = n;
            })))
          same

  -- A record of the page reads the same on a page where it stands as it stood.
  pub reads_same :
      (q : Page) (m : ℕ)
      → IsValid q
      → page_number q ≡ page_number p
      → Holds p m
      → Holds q m
      → record_of q m ≡ record_of p m
      → get_record q (id_of p m) ≡ get_record p (id_of p m)
  reads_same q m w same held held' e =
      ap (λ n. get_record q (record { page_number = n; slot_number = m })) (sym same)
      ∙ get_record-Holds w m held'
      ∙ ap ok e
      ∙ sym (get_record-Holds v m held)

  Removed-inside : ¬ (k ≡ num p) → Returns (delete_record p (id_of p k)) (Removed p k)
  unfolding delete_record
  Removed-inside ne =
      let (q, run, em) = delete_record_with-Emptied true (==-ne k (num p) ne) in
      (
        q,
        run,
        record {
          valid = em.valid;
          gone = gone_from q em.valid em.same_page em.off;
          keeps = λ m held mk.
              let (held', e) = em.keeps m held mk in
              (held', reads_same q m em.valid em.same_page held held' e);
          only = em.only;
          trimmed = λ e. absurd (ne e);
          untouched = λ _. em.same_num;
          same_page = em.same_page;
          space = em.space;
        },
      )

  Removed-last : k ≡ num p → Returns (delete_record p (id_of p k)) (Removed p k)
  Removed-last at_end =
      let (q, em, (r, run, cp)) = compacted at_end in
      let same_page : page_number r ≡ page_number p = cp.same_page ∙ em.same_page in
      let same_slot = λ (m : ℕ). ap (λ (d : List ℕ). slot_of d m) cp.same_data in
      let held_in_q = λ (m : ℕ) (w : Holds r m).
        let u : (slots q m).used ≡ true = sym (ap (λ (s : PageSlot). s.used) (same_slot m)) ∙ w.2 in
        let w' : Holds q m = (w.0, omega (arith, w.1, cp.shorter), u) in w' in
      let keeps : (m : ℕ)
          → Holds p m
          → ¬ (m ≡ k)
          → Holds r m × (get_record r (id_of p m) ≡ get_record p (id_of p m)) =
        λ m held mk.
          let (held', e) = em.keeps m held mk in
          let within : m ≤ num r = elim (Bool-cases (ltb (num r) m)) [
            | inl out ↦
                let off = cp.dropped m (ground arith) held'.1 in absurd (ground (arith, held'.2))
            | inr is_in ↦ ground arith
          ] in
          let held_r : Holds r m =
            (held.0, within, ap (λ (s : PageSlot). s.used) (same_slot m) ∙ held'.2) in
          let same : record_of r m ≡ record_of q m =
            ap (λ (d : List ℕ). slice d (slot_of d m).item_offset (slot_of d m).item_length)
              cp.same_data in
          (held_r, reads_same r m cp.valid same_page held held_r (same ∙ e)) in
      (
        r,
        run,
        record {
          valid = cp.valid;
          gone =
              gone_from r cp.valid same_page (ap (λ (s : PageSlot). s.used) (same_slot k) ∙ em.off);
          keeps = keeps;
          only = λ m w. em.only m (held_in_q m w);
          trimmed = λ _ some. ap (λ (s : PageSlot). s.used) (same_slot (num r)) ∙ cp.last some;
          untouched = λ ne. absurd (ne at_end);
          same_page = same_page;
          space = cp.same_upper ∙ em.space;
        },
      )

  -- On a valid page deleteRecord of a record that the page holds succeeds: the page stays valid, the
  -- identifier reads no record any more, every other record keeps its identifier and its bytes, no
  -- record appears, the record's bytes are free again, and the slot array ends with a used slot if
  -- the record stood in its last slot, and else keeps its length.
  pub delete_record-Removed : Returns (delete_record p (id_of p k)) (Removed p k)
  delete_record-Removed = elim (Bool-cases (k == num p)) [
    | inl e ↦ Removed-last (ground arith)
    | inr e ↦ Removed-inside (ground arith)
  ]
