-- ===== src/Page/Remove.antt =====
-- deleteRecord of src/page.cpp on a valid page.
use hit_database_exp3p2_cpp.Base.{
  ℕ, ◌+◌, ◌*◌, ◌≤◌, ◌<◌, ◌≡◌, refl, sym, ◌∙◌, ap, inl, inr, false, List, arith, length, byte, slice,
  ltb, ◌==◌, Bool-cases, slice_ext,
}
use hit_database_exp3p2_cpp.Page.{Page, data_size, page_number, next_page_number}
use hit_database_exp3p2_cpp.Page.Delete.{free_slot}
use hit_database_exp3p2_cpp.Page.Slot.{PageSlot, slot_size, add16}
use hit_database_exp3p2_cpp.Page.Slot.Fills.{
  add16-lt, length-delete_fill, byte-delete_fill, slot_of-delete_fill_ne, slot_of-delete_fill_self,
}
use hit_database_exp3p2_cpp.Page.Layout.{Layout}
use hit_database_exp3p2_cpp.Page.Layout.Clear.{shift, gap, gap_below, clear_lem}
use hit_database_exp3p2_cpp.Page.Close.{Closed}
use hit_database_exp3p2_cpp.Page.Valid.{
  slots, num, upper, free, IsValid, Holds, record_of, num-lt, free-le,
}

-- Page `q` is page `p` with slot `k` emptied, all slots kept.
pub record Emptied (p : Page) (k : ℕ) (q : Page) : Type 0 where
  pub valid : IsValid q
  pub off : (slots q k).used ≡ false
  pub keeps : (m : ℕ) → Holds p m → ¬ (m ≡ k) → Holds q m × (record_of q m ≡ record_of p m)
  pub only : (m : ℕ) → Holds q m → (¬ (m ≡ k)) × Holds p m
  pub same_num : num q ≡ num p
  pub same_page : page_number q ≡ page_number p
  pub same_next : next_page_number q ≡ next_page_number p
  pub some_free : 0 < free q
  pub space : upper q ≡ upper p + (slots p k).item_length

module _ {p : Page} (v : IsValid p) (k : ℕ) (h : Holds p k) (c : List ℕ) (cl : Closed p k c) where
  unfoldable pub freed : Page
  freed = free_slot p k c (slots p k)

  pub top : slot_size * k ≤ length c
  top = omega (arith, cl.whole, num-lt v, h.1)

  new_upper : add16 (upper p) (slots p k).item_length ≡ upper p + (slots p k).item_length
  new_upper = add16-lt _ _ (omega (arith, v.layout.starts k h, v.layout.ends k h))

  new_free : add16 (free p) 1 ≡ free p + 1
  new_free = add16-lt _ _ (omega (arith, free-le v, num-lt v))

  slot_freed : slots freed k ≡ record { used = false; item_offset = 0; item_length = 0 }
  unfolding freed free_slot
  slot_freed = slot_of-delete_fill_self c k false 0 0 h.0 top (omega arith) (omega arith)

  slot_other :
      (m : ℕ) → 0 < m → m ≤ num p → ¬ (m ≡ k) → slots freed m ≡ shift (slots p k) (slots p m)
  unfolding freed free_slot
  slot_other m a b ne =
      slot_of-delete_fill_ne c k false 0 0 h.0 top m a (λ e. ne (sym e)) ∙ cl.shifted m a b

  byte_freed : (i : ℕ) → slot_size * k ≤ i → byte freed.data_ i ≡ byte c i
  unfolding freed free_slot
  byte_freed i l = byte-delete_fill c k false 0 0 h.0 top i l

  length_freed : length freed.data_ ≡ data_size
  unfolding freed free_slot
  length_freed = length-delete_fill c k false 0 0 h.0 top ∙ cl.whole

  used_other : (m : ℕ) → 0 < m → m ≤ num p → ¬ (m ≡ k) → (slots freed m).used ≡ (slots p m).used
  used_other m a b ne = ap (λ (s : PageSlot). s.used) (slot_other m a b ne) ∙ ground arith

  Layout-freed : Layout (slots freed) (num p) (upper p + (slots p k).item_length) (free p + 1)
  Layout-freed =
      clear_lem (slots p) (num p) (upper p) (free p) k v.layout h (slots freed)
        (ap (λ (s : PageSlot). s.used) slot_freed) slot_other

  -- A record that stays has its bytes, where its slot now says.
  kept_before :
      (m : ℕ)
      → Holds p m
      → (slots p m).item_offset < (slots p k).item_offset
      → slice freed.data_
          ((slots p m).item_offset + (slots p k).item_length)
          (slots p m).item_length
        ≡ record_of p m
  kept_before m w lt =
      let x = (slots p m).item_offset in
      let size = (slots p k).item_length in
      let le = gap_below (slots p) (num p) (upper p) (free p) k v.layout h m w lt in
      slice_ext freed.data_ p.data_ _ _ _ (omega (arith, length_freed, v.layout.ends k h))
        (omega (arith, v.whole, v.layout.ends m w))
        (λ i l.
          let swap : x + size + i ≡ x + i + size = omega arith in
          byte_freed _ (omega (arith, v.order, v.layout.starts m w, h.1))
          ∙ ap (byte c) swap
          ∙ cl.moved (x + i) (omega (arith, v.layout.starts m w)) (omega arith))

  kept_after :
      (m : ℕ)
      → Holds p m
      → (slots p k).item_offset < (slots p m).item_offset
      → slice freed.data_ (slots p m).item_offset (slots p m).item_length ≡ record_of p m
  kept_after m w lt =
      let ge = gap (slots p) (num p) (upper p) (free p) k v.layout h m w lt in
      slice_ext freed.data_ p.data_ _ _ _ (omega (arith, length_freed, v.layout.ends m w))
        (omega (arith, v.whole, v.layout.ends m w))
        (λ i l.
          byte_freed _ (omega (arith, v.order, v.layout.starts m w, h.1))
          ∙ cl.above _ (omega arith))

  record_kept : (m : ℕ) → Holds p m → ¬ (m ≡ k) → record_of freed m ≡ record_of p m
  record_kept m w ne =
      rw (slot_other m w.0 w.1 ne)
        (elim (Bool-cases (ltb (slots p m).item_offset (slots p k).item_offset)) [
          | inl before ↦ rw (w.2, before) (kept_before m w (ground arith))
          | inr after ↦ rw (w.2, after) (kept_after m w (ground (arith, v.layout.apart m k w h ne)))
        ])

  pub freed-Emptied : Emptied p k freed
  unfolding freed free_slot
  freed-Emptied = record {
    valid = record {
      whole = length_freed;
      lower = v.lower;
      order = rw new_upper (omega (arith, v.order));
      layout = rw (new_upper, new_free) Layout-freed;
    };
    off = ap (λ (s : PageSlot). s.used) slot_freed;
    keeps = λ m w ne. ((w.0, w.1, used_other m w.0 w.1 ne ∙ w.2), record_kept m w ne);
    only = λ m w. elim (Bool-cases (m == k)) [
      | inl e ↦ let e' : m ≡ k = ground arith in absurd (ground (arith, w.2, slot_freed))
      | inr e ↦
          let ne : ¬ (m ≡ k) = ground arith in (ne, (w.0, w.1, sym (used_other m w.0 w.1 ne) ∙ w.2))
    ];
    same_num = refl;
    same_page = refl;
    same_next = refl;
    some_free = rw new_free (omega arith);
    space = new_upper;
  }
