-- ===== src/File/Records.antt =====
-- Records on the pages of a file, as main() of src/main.cpp adds one: a page is read, the record is
-- inserted, and the page is written back.
use hit_database_exp3p2_cpp.Base.{
  ℕ, ◌+◌, ◌*◌, ◌<◌, ◌≤◌, ◌≡◌, refl, sym, subst, ◌∙◌, ap, false, some, List, ◌∷◌, ◌++◌, length,
  arith,
}
use hit_database_exp3p2_cpp.Result.{Result, ok}
use hit_database_exp3p2_cpp.Result.Exceptions.{RecordId}
use hit_database_exp3p2_cpp.Page.{
  Page, page_number, next_page_number, set_next_page_number, insert_record, get_record,
  validate_record_id,
}
use hit_database_exp3p2_cpp.Page.Slot.{slot_size}
use hit_database_exp3p2_cpp.Page.Valid.{IsValid, num, upper, free, slots}
use hit_database_exp3p2_cpp.Page.Insert.{Stored, needed, insert_record-Stored}
use hit_database_exp3p2_cpp.File.{read_page, write_page}
use hit_database_exp3p2_cpp.File.Stream.{File, M, return, ◌>>=◌, ◌>>◌, fetch}
use hit_database_exp3p2_cpp.File.Access.{read_page_lem}
use hit_database_exp3p2_cpp.File.Links.{IsFile, own}
use hit_database_exp3p2_cpp.File.Relink.{Links-at}
use hit_database_exp3p2_cpp.File.Store.{write_page_written}

-- A call on a page, which does not touch the file.
abbrev pub on_page : {A : Type 0} → Result A → M A
on_page r f = (r, f)

unfoldable pub add_record : ℕ → List ℕ → M RecordId
add_record n record_data = do
  page ← read_page n
  (changed, rid) ← on_page (insert_record page record_data)
  write_page changed
  return rid

-- The pointer to the next page has no part in the records.
set_next-IsValid : (q : Page) (k : ℕ) → IsValid q → IsValid (set_next_page_number q k)
set_next-IsValid q k v = record {
  whole = v.whole;
  lower = v.lower;
  order = v.order;
  layout = v.layout;
}

set_next-Stored :
    (p q : Page) (r : List ℕ) (rid : RecordId) (k : ℕ)
    → Stored p r q rid
    → Stored p r (set_next_page_number q k) rid
unfolding get_record validate_record_id
set_next-Stored p q r rid k s = record {
  valid = set_next-IsValid q k s.valid;
  on_page = s.on_page;
  fresh = s.fresh;
  holds = s.holds;
  reads = s.reads;
  keeps = s.keeps;
  only = s.only;
  same_page = s.same_page;
}

module _ (f : File) (n : ℕ) (q : Page) (r : List ℕ) (read : read_page n f ≡ (ok q, f)) where
  add_record_lem :
      (q' : Page) (rid : RecordId) (f' : File)
      → insert_record q r ≡ ok (q', rid)
      → write_page q' f ≡ (ok tt, f')
      → add_record n r f ≡ (ok rid, f')
  unfolding add_record
  add_record_lem q' rid f' inserted wrote = rw read (rw inserted (rw wrote refl))

pub add_record_written :
    (f : File) (n : ℕ) (q : Page) (xs ys unused r : List ℕ)
    → IsFile f (xs ++ n ∷ ys) unused
    → fetch f n ≡ some q
    → IsValid q
    → 0 < length r
    → needed q r + slot_size * num q ≤ upper q
    → (free q ≡ 0 → (slots q (num q + 1)).used ≡ false)
    → (rid : RecordId) × (f' : File) × (p : Page) × (add_record n r f ≡ (ok rid, f'))
      × IsFile f' (xs ++ n ∷ ys) unused
      × (rid.page_number ≡ n)
      × (read_page n f' ≡ (ok p, f'))
      × Stored q r p rid
      × (f'.filename ≡ f.filename)
add_record_written f n q xs ys unused r is here v some_bytes room clean =
    let (pos, below, q0, here0, num0, rest) =
      Links-at (fetch f) own f.file_header.num_pages f.file_header.first_used_page xs n ys
        is.used_links in
    let same : q0 ≡ q = cc in
    let number : page_number q ≡ n = ap (λ (p : Page). page_number p) (sym same) ∙ num0 in
    let ((q', rid), inserted, stored) = insert_record-Stored v r some_bytes room clean in
    let number' : page_number q' ≡ n = stored.same_page ∙ number in
    let is' = subst (λ k. IsFile f (xs ++ k ∷ ys) unused) (sym number') is in
    let (p0, f', there, wrote, still, read, named, keeps, at) =
      write_page_written f q' xs ys unused is' in
    (
      rid,
      f',
      set_next_page_number q' (next_page_number p0),
      add_record_lem f n q r (read_page_lem f is.good n q here below (omega arith)) q' rid f'
          inserted wrote,
      subst (λ k. IsFile f' (xs ++ k ∷ ys) unused) number' still,
      ap (λ (i : RecordId). i.page_number) stored.on_page ∙ number,
      subst (λ k. read_page k f' ≡ (ok (set_next_page_number q' (next_page_number p0)), f')) number'
          read,
      set_next-Stored q q' r rid (next_page_number p0) stored,
      named,
    )

-- In a well-formed file, a used page that is valid takes a record that is not empty and for which it has
-- room (with a slot, if none is free, whose bytes read as an unused one): adding the record to the
-- page on disk does not throw, the file stays well-formed with the same used and free pages, and the
-- page that readPage then returns for the record's identifier is valid, reads the record back, and
-- holds every other record as the page did before.
pub add_record-Stored :
    (f : File) (n : ℕ) (q : Page) (xs ys unused r : List ℕ)
    → IsFile f (xs ++ n ∷ ys) unused
    → fetch f n ≡ some q
    → IsValid q
    → 0 < length r
    → needed q r + slot_size * num q ≤ upper q
    → (free q ≡ 0 → (slots q (num q + 1)).used ≡ false)
    → (rid : RecordId) × (f' : File) × (p : Page) × (add_record n r f ≡ (ok rid, f'))
      × IsFile f' (xs ++ n ∷ ys) unused
      × (rid.page_number ≡ n)
      × (read_page n f' ≡ (ok p, f'))
      × Stored q r p rid
add_record-Stored f n q xs ys unused r is here v some_bytes room clean =
    let (rid, f', p, run, is', on, read, stored, named) =
      add_record_written f n q xs ys unused r is here v some_bytes room clean in
    (rid, f', p, run, is', on, read, stored)
