-- ===== src/Page/Update.antt =====
-- updateRecord of src/page.cpp on a valid page.
use hit_database_exp3p2_cpp.Base.{
  ℕ, ◌+◌, ◌-◌, ◌*◌, ◌≤◌, ◌<◌, ◌≡◌, refl, sym, ◌∙◌, ap, inl, inr, true, false, List, arith, length,
  leb,
}
use hit_database_exp3p2_cpp.Result.{ok, throws, Returns}
use hit_database_exp3p2_cpp.Result.Exceptions.{insufficient_space}
use hit_database_exp3p2_cpp.Page.{Page, page_number, get_record}
use hit_database_exp3p2_cpp.Page.Delete.{update_record}
use hit_database_exp3p2_cpp.Page.Slot.{slot_size}
use hit_database_exp3p2_cpp.Page.Slot.Fills.{get_slot_lem}
use hit_database_exp3p2_cpp.Page.Insert.{get_free_space-IsValid}
use hit_database_exp3p2_cpp.Page.InsertInSlot.{Inserted, insert_record_in_slot-Inserted}
use hit_database_exp3p2_cpp.Page.Remove.{Emptied}
use hit_database_exp3p2_cpp.Page.Removal.{delete_record_with-Emptied, reads_same}
use hit_database_exp3p2_cpp.Page.Valid.{
  slots, num, upper, IsValid, Holds, id_of, read_slot, validate_used, get_record-Holds,
}

-- Page `q` is page `p` with another record in slot `k`.
pub record Updated (p : Page) (k : ℕ) (r : List ℕ) (q : Page) : Type 0 where
  pub valid : IsValid q
  pub holds : Holds q k
  pub reads : get_record q (id_of p k) ≡ ok r
  pub keeps :
      (m : ℕ)
      → Holds p m
      → ¬ (m ≡ k)
      → Holds q m × (get_record q (id_of p m) ≡ get_record p (id_of p m))
  pub only : (m : ℕ) → Holds q m → Holds p m
  pub same_page : page_number q ≡ page_number p

module _ {p : Page} (v : IsValid p) (k : ℕ) (h : Holds p k) (r : List ℕ) where
  -- The bytes that the page has for the record once the old one is gone.
  abbrev available : ℕ
  available = upper p - slot_size * num p + (slots p k).item_length

  -- On a valid page, if the new bytes of a record that it holds are more than the free bytes and the
  -- old record's together, updateRecord throws InsufficientSpaceException with those numbers.
  pub update_record_full :
      available < length r
      → update_record p (id_of p k) r
        ≡ throws (
            insufficient_space (record {
              page_number = page_number p;
              space_requested = length r;
              space_available = available;
            }))
  unfolding update_record
  update_record_full big =
      let test : leb (length r) available ≡ false = ground arith in
      rw
        (
          validate_used v k h,
          get_slot_lem p.data_ k h.0 (read_slot v k h.0 h.1),
          get_free_space-IsValid v r,
          test,
        )
        refl

  updated : (q : Page) → Emptied p k q → (u : Page) → Inserted q k r u → Updated p k r u
  updated q em u i =
      let same : page_number u ≡ page_number p = i.same_page ∙ em.same_page in
      record {
        valid = i.valid;
        holds = i.holds;
        reads =
            ap (λ n. get_record u (record { page_number = n; slot_number = k })) (sym same)
            ∙ get_record-Holds i.valid k i.holds
            ∙ ap ok i.reads;
        keeps = λ m held mk.
            let (held', e) = em.keeps m held mk in
            let (held'', e') = i.keeps m held' in
            (held'', reads_same v k h u m i.valid same held held'' (e' ∙ e));
        only = λ m w. elim (i.only m w) [ inl e ↦ rw e h | inr w' ↦ (em.only m w').1 ];
        same_page = same;
      }

  -- On a valid page, if the new bytes of a record that it holds are not none and fit in the free
  -- bytes and the old record's, updateRecord succeeds: the page stays valid, the identifier reads
  -- the new bytes, every other record keeps its identifier and its bytes, and none appears.
  pub update_record-Updated :
      0 < length r → length r ≤ available → Returns (update_record p (id_of p k) r) (Updated p k r)
  unfolding update_record
  update_record-Updated some_bytes fits =
      let (q, gone, em) = delete_record_with-Emptied v k h false refl in
      let (u, put, i) =
        insert_record_in_slot-Inserted em.valid k r h.0 (omega (arith, em.same_num, h.1)) em.off
          some_bytes (omega (arith, em.same_num, em.space, v.order)) em.some_free in
      let test : leb (length r) available ≡ true = ground arith in
      (
        u,
        rw
            (
              validate_used v k h,
              get_slot_lem p.data_ k h.0 (read_slot v k h.0 h.1),
              get_free_space-IsValid v r,
              test,
              gone,
            )
            put,
        updated q em u i,
      )
