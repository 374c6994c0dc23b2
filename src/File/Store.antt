-- ===== src/File/Store.antt =====
-- writePage and readPage (src/file.cpp).
use hit_database_exp3p2_cpp.Base.{
  ℕ, ◌+◌, ◌≤◌, ◌<◌, ◌≡◌, ◌^◌, refl, sym, ◌∙◌, some, List, ◌∷◌, ◌++◌, ==-ne, arith, length, true,
}
use hit_database_exp3p2_cpp.Result.{ok, throws}
use hit_database_exp3p2_cpp.Result.Exceptions.{invalid_page}
use hit_database_exp3p2_cpp.Page.{Page, page_number, next_page_number, set_next_page_number}
use hit_database_exp3p2_cpp.File.{read_page, write_page}
use hit_database_exp3p2_cpp.File.Stream.{File, fetch, write_page_at}
use hit_database_exp3p2_cpp.File.Access.{
  with_page, read_page_lem, read_page_unused, read_page_header_lem, fetch-with_page_self,
  fetch-with_page_ne, length-with_page_in,
}
use hit_database_exp3p2_cpp.File.Links.{
  IsFile, NotIn, NotIn-append, NotIn-tag, own, zero_tag, Links-frame, IsFile-with_header,
}
use hit_database_exp3p2_cpp.File.Relink.{relink, Links-at, Ascending-Distinct, NotIn-middle}
use hit_database_exp3p2_cpp.File.Kept.{Keeps, Keeps-one}
use hit_database_exp3p2_cpp.File.Written.{Links-with_page}

module _ (f : File) (good : f.good ≡ true) (q p : Page)
    (here : fetch f (page_number q) ≡ some p) where
  -- What writePage puts on disk.
  abbrev stored : Page
  stored = set_next_page_number q (next_page_number p)

  write_page_used :
      ¬ (page_number p ≡ 0) → write_page q f ≡ (ok tt, with_page f (page_number q) stored)
  unfolding write_page write_page_at
  write_page_used used =
      rw (read_page_header_lem f good (page_number q) p here, ==-ne (page_number p) 0 used, good)
        refl

  write_page_free :
      page_number p ≡ 0
      → write_page q f
        ≡ (throws (invalid_page (record { page_number = page_number q; filename = f.filename })), f)
  unfolding write_page
  write_page_free free = rw (read_page_header_lem f good (page_number q) p here, free) refl

module _ (f : File) (q : Page) (xs ys free : List ℕ) (is : IsFile f (xs ++ page_number q ∷ ys) free)
    (p : Page) (here : fetch f (page_number q) ≡ some p) (num : page_number p ≡ page_number q)
    (pos : 0 < page_number q) (below : page_number q < f.file_header.num_pages) where
  abbrev n : ℕ
  n = page_number q

  abbrev new : Page
  new = set_next_page_number q (next_page_number p)

  abbrev f' : File
  f' = with_page f n new

  small : n < 2 ^ 32
  small = let s = is.small in omega arith

  near : n ≤ length f.pages + 1
  near = let c = is.count in omega arith

  distinct : NotIn n (xs ++ ys)
  distinct = NotIn-middle xs n ys (Ascending-Distinct 0 (xs ++ n ∷ ys) is.ascending)

  others : (x : ℕ) → 0 < x → x < f.file_header.num_pages → ¬ (n ≡ x) → fetch f' x ≡ fetch f x
  others x a b ne =
      fetch-with_page_ne f is.good n new pos small near x a (let s = is.small in omega arith) ne

  IsFile-stored : IsFile (record f' { file_header = f.file_header }) (xs ++ n ∷ ys) free
  IsFile-stored =
      let c = is.count in
      let s = is.small in
      let same = length-with_page_in f is.good n new pos small (omega arith) in
      IsFile-with_header f' f.file_header (xs ++ n ∷ ys) free is.good (omega arith) s
        (relink (fetch f) (fetch f') f.file_header.num_pages n p new others here
          (fetch-with_page_self f is.good n new pos small) (sym num) f.file_header.first_used_page
          xs ys ys is.used_links (Ascending-Distinct 0 (xs ++ n ∷ ys) is.ascending)
          (λ rest.
            Links-frame (fetch f) (fetch f') own f.file_header.num_pages f.file_header.num_pages
              (next_page_number p) ys n (omega arith) others (NotIn-append n xs ys distinct).1
              rest))
        (Links-with_page f is.good f.file_header.num_pages n new pos small (omega arith) near
          zero_tag f.file_header.num_pages f.file_header.first_free_page free (omega arith)
          (NotIn-tag (fetch f) zero_tag f.file_header.num_pages f.file_header.first_free_page free n
            p here (omega arith) is.free_links)
          is.free_links)
        is.ascending is.distinct is.counted (is.all ∙ sym same)

pub write_page_written :
    (f : File) (q : Page) (xs ys free : List ℕ)
    → IsFile f (xs ++ page_number q ∷ ys) free
    → (p : Page) × (f' : File) × (fetch f (page_number q) ≡ some p)
      × (write_page q f ≡ (ok tt, f'))
      × IsFile f' (xs ++ page_number q ∷ ys) free
      × (read_page (page_number q) f' ≡ (ok (set_next_page_number q (next_page_number p)), f'))
      × (f'.filename ≡ f.filename)
      × Keeps f f' (page_number q)
      × (fetch f' (page_number q) ≡ some (set_next_page_number q (next_page_number p)))
write_page_written f q xs ys free is =
    let (pos, below, p, here, num, rest) =
      Links-at (fetch f) own f.file_header.num_pages f.file_header.first_used_page xs
        (page_number q) ys is.used_links in
    let s = is.small in
    let new = set_next_page_number q (next_page_number p) in
    let f' = with_page f (page_number q) new in
    (
      p,
      f',
      here,
      write_page_used f is.good q p here (omega arith),
      IsFile-stored f q xs ys free is p here num pos below,
      read_page_lem f' is.good (page_number q) new
          (fetch-with_page_self f is.good (page_number q) new pos (omega arith)) below
          (omega arith),
      refl,
      (let c = is.count in
          Keeps-one f is.good (page_number q) new pos (omega arith) (omega arith) (omega arith)
            f.file_header),
      fetch-with_page_self f is.good (page_number q) new pos (omega arith),
    )

-- In a well-formed file, writePage of a page under the number of a used one does not throw; the
-- file stays well-formed with the same used and free pages; and readPage of that number then
-- returns the page that was written, with the pointer that the page on disk had.
pub write_page-read :
    (f : File) (q : Page) (xs ys free : List ℕ)
    → IsFile f (xs ++ page_number q ∷ ys) free
    → (p : Page) × (f' : File) × (fetch f (page_number q) ≡ some p)
      × (write_page q f ≡ (ok tt, f'))
      × IsFile f' (xs ++ page_number q ∷ ys) free
      × (read_page (page_number q) f' ≡ (ok (set_next_page_number q (next_page_number p)), f'))
write_page-read f q xs ys free is =
    let (p, f', here, wrote, still, read, named, keeps, at) =
      write_page_written f q xs ys free is in
    (p, f', here, wrote, still, read)

-- In a well-formed file, readPage of a free page and writePage of a page under the number of a free
-- one throw InvalidPageException with that number, and leave the file as it is.
pub free_page_refused :
    (f : File) (q : Page) (used xs ys : List ℕ)
    → IsFile f used (xs ++ page_number q ∷ ys)
    → (read_page (page_number q) f ≡ (
      throws (invalid_page (record { page_number = page_number q; filename = f.filename })),
      f,
    ))
      × (write_page q f ≡ (
        throws (invalid_page (record { page_number = page_number q; filename = f.filename })),
        f,
      ))
free_page_refused f q used xs ys is =
    let (pos, below, p, here, unused, rest) =
      Links-at (fetch f) zero_tag f.file_header.num_pages f.file_header.first_free_page xs
        (page_number q) ys is.free_links in
    (
      read_page_unused f is.good (page_number q) p here below unused,
      write_page_free f is.good q p here unused,
    )
