-- ===== src/Buffer/Frames.antt =====
-- The frames of the pool: StatedPage of src/buffer.h, and its writes to a file.
use hit_database_exp3p2_cpp.Base.{
  ℕ, ◌≡◌, refl, sym, subst, true, false, none, some, List, ◌∷◌, ◌++◌, ==-refl, ==-ne,
}
use hit_database_exp3p2_cpp.Result.{ok, undefined, Returns}
use hit_database_exp3p2_cpp.Page.{Page, page_number, next_page_number, set_next_page_number}
use hit_database_exp3p2_cpp.HashTable.{FileRef}
use hit_database_exp3p2_cpp.File.{read_page, write_page}
use hit_database_exp3p2_cpp.File.Stream.{File, fetch}
use hit_database_exp3p2_cpp.File.Links.{IsFile}
use hit_database_exp3p2_cpp.File.Store.{write_page-read}
use hit_database_exp3p2_cpp.Buffer.{
  StatedPage, Files, store, clear, is_empty, refuse_null, dump_to_file, occupy_for,
}

-- A frame that is occupied for a page is not empty, is pinned once, clean and referenced, and has the
-- file and the page number; clearing it leaves what clearing it before would have left, an empty
-- frame.
pub occupy_for-clear :
    (s : StatedPage) (r : FileRef) (n : ℕ)
    → Returns (occupy_for s (some r) n) (λ t.
      (is_empty t ≡ false)
      × (t.pin_cnt ≡ 1)
      × (t.dirty ≡ false)
      × (t.recently_referenced ≡ true)
      × (t.file ≡ some r)
      × (t.page_no ≡ n)
      × (t.frame_no ≡ s.frame_no)
      × (clear t ≡ clear s)
      × (is_empty (clear t) ≡ true))
unfolding occupy_for clear is_empty
occupy_for-clear s r n = (_, refl, (refl, refl, refl, refl, refl, refl, refl, refl, refl))

-- On a frame that was cleared, `dump_to_file()` and `occupy_for` of a null pointer do not throw
-- std::invalid_argument: the message reads the file's name through the null member, which is
-- undefined.
pub clear-null :
    (s : StatedPage) (files : Files) (n : ℕ)
    → (dump_to_file (clear s) files ≡ (undefined, files))
      × (occupy_for (clear s) none n ≡ undefined)
unfolding dump_to_file occupy_for refuse_null clear
clear-null s files n = (refl, refl)

store_self : (files : Files) (a : ℕ) (f : File) → store files a f a ≡ f
store_self files a f = rw (==-refl a) refl

store_ne : (files : Files) (a b : ℕ) (f : File) → ¬ (b ≡ a) → store files a f b ≡ files b
store_ne files a b f ne = rw (==-ne b a ne) refl

dump_to_file_lem :
    (s : StatedPage) (files : Files) (r : FileRef) (f : File)
    → s.file ≡ some r
    → write_page s.page (files r.address) ≡ (ok tt, f)
    → dump_to_file s files ≡ (ok tt, store files r.address f)
unfolding dump_to_file
dump_to_file_lem s files r f e w = rw (e, dump_to_file) (rw w refl)

-- A frame whose file is well-formed and whose page carries the number of a used page of it is dumped
-- without an exception: the file stays well-formed with the same used and free pages, readPage of that
-- number then returns the frame's page with the pointer that the page on disk had, and every other
-- file object is as before.
pub dump_to_file-read :
    (s : StatedPage) (files : Files) (r : FileRef) (xs ys free : List ℕ) (b : ℕ)
    → s.file ≡ some r
    → IsFile (files r.address) (xs ++ page_number s.page ∷ ys) free
    → ¬ (b ≡ r.address)
    → (files' : Files) × (p : Page) × (fetch (files r.address) (page_number s.page) ≡ some p)
      × (dump_to_file s files ≡ (ok tt, files'))
      × IsFile (files' r.address) (xs ++ page_number s.page ∷ ys) free
      × (read_page (page_number s.page) (files' r.address)
          ≡ (ok (set_next_page_number s.page (next_page_number p)), files' r.address))
      × (files' b ≡ files b)
dump_to_file-read s files r xs ys free b e is other =
    let (p, f', here, wrote, still, read) =
      write_page-read (files r.address) s.page xs ys free is in
    let back = sym (store_self files r.address f') in
    (
      store files r.address f',
      p,
      here,
      dump_to_file_lem s files r f' e wrote,
      subst (λ f. IsFile f (xs ++ page_number s.page ∷ ys) free) back still,
      subst
          (λ f.
            read_page (page_number s.page) f
            ≡ (ok (set_next_page_number s.page (next_page_number p)), f))
          back read,
      store_ne files r.address b f' other,
    )
