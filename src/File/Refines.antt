-- ===== src/File/Refines.antt =====
-- A file against a map from page numbers to pages, through any calls of allocatePage, deletePage and
-- writePage (src/file.cpp).
use hit_database_exp3p2_cpp.Base.{
  ℕ, ◌≤◌, ◌<◌, ◌≡◌, refl, sym, ◌∙◌, ap, subst, Option, none, some, true, false, List, arith, inl,
  inr, Bool-cases, ltb,
}
use hit_database_exp3p2_cpp.Result.{ok, throws}
use hit_database_exp3p2_cpp.Result.Exceptions.{invalid_page}
use hit_database_exp3p2_cpp.Page.{Page, next_page_number, set_next_page_number}
use hit_database_exp3p2_cpp.File.{read_page}
use hit_database_exp3p2_cpp.File.Stream.{File, fetch}
use hit_database_exp3p2_cpp.File.Reached.{Reached, Pages, Shows}
use hit_database_exp3p2_cpp.File.Reached.Represented.{Reached-Represents}
use hit_database_exp3p2_cpp.File.Access.{read_header_lem, read_page_lem, read_page_unused}
use hit_database_exp3p2_cpp.File.Links.{IsFile}

-- What readPage answers for what the map has.
abbrev pub Answers : File → ℕ → Option Page → Type 0
Answers f n none =
    read_page n f ≡ (throws (invalid_page (record { page_number = n; filename = f.filename })), f)
Answers f n (some q) = (k : ℕ) × (read_page n f ≡ (ok (set_next_page_number q k), f))

inside-Answers :
    (f : File) (n : ℕ) (p : Page) (o : Option Page)
    → f.good ≡ true
    → 0 < n
    → n < f.file_header.num_pages
    → fetch f n ≡ some p
    → Shows n p o
    → Answers f n o
inside-Answers f n p none good pos below here s = read_page_unused f good n p here below s.0
inside-Answers f n p (some q) good pos below here s = (
  next_page_number p,
  read_page_lem f good n p here below (omega (arith, s.0))
      ∙ ap (λ (r : Page). (ok (set_next_page_number r (next_page_number p)), f)) s.1,
)

-- A page number that is not below the number of pages is refused.
beyond-refused : (f : File) (n : ℕ) → f.good ≡ true → f.file_header.num_pages ≤ n → Answers f n none
unfolding read_page
beyond-refused f n good above =
    let off : ltb n f.file_header.num_pages ≡ false = ground arith in
    rw (read_header_lem f good, off) refl

-- After any calls of allocatePage, deletePage and writePage that return, on a file that starts without
-- pages, where each allocation has a number left for a new page or a free page that is not left alone
-- with others, and each deletion and write names a used page: the file is well-formed, with the used and
-- free pages of the same calls on the lists; and readPage of any number but 0 answers as a map
-- does after the same calls, in which an allocated page is an empty one and a written page is what was
-- written: it returns the map's page with a pointer of the file's own, or throws
-- InvalidPageException where the map has none.
pub read_page-Reached :
    {f : File} {used free : List ℕ} {m : Pages}
    → Reached f used free m
    → (n : ℕ) → 0 < n
    → IsFile f used free × Answers f n (m n)
read_page-Reached {f} {m = m} reached n pos =
    let rep = Reached-Represents reached in
    (
      rep.is,
      elim (Bool-cases (ltb n f.file_header.num_pages)) [
        | inl low ↦
            let below : n < f.file_header.num_pages = ground arith in
            let (p, here, shown) = rep.stands n pos below in
            inside-Answers f n p (m n) rep.is.good pos below here shown
        | inr high ↦
            let above : f.file_header.num_pages ≤ n = ground arith in
            subst (λ o. Answers f n o) (sym (rep.beyond n above))
              (beyond-refused f n rep.is.good above)
      ],
    )
