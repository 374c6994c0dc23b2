-- ===== src/File/Append/Wraps.antt =====
-- allocatePage in a file with all the page numbers that 32 bits allow (src/file.cpp).
use hit_database_exp3p2_cpp.Base.{
  ℕ, ◌+◌, ◌≤◌, ◌≡◌, ◌^◌, ◌%◌, refl, subst, ◌∙◌, ap, List, [], ◌∷◌, ◌++◌, arith, length, true,
  le→ltb,
}
use hit_database_exp3p2_cpp.Result.{ok, throws}
use hit_database_exp3p2_cpp.Result.Exceptions.{invalid_page}
use hit_database_exp3p2_cpp.Page.{Page, page_number}
use hit_database_exp3p2_cpp.File.{allocate_page, read_page, Allocation}
use hit_database_exp3p2_cpp.File.Stream.{File, fetch}
use hit_database_exp3p2_cpp.File.Access.{read_header_lem}
use hit_database_exp3p2_cpp.File.Allocate.{written, written-good}
use hit_database_exp3p2_cpp.File.Links.{Links, IsFile, own}
use hit_database_exp3p2_cpp.File.Relink.{Links-at, Links-pos, snoc, length-snoc}
use hit_database_exp3p2_cpp.File.Append.Lists.{
  new_page, first, behind, append_empty, append_tail, to_append,
}

module _ (f : File) (used : List ℕ) (is : IsFile f used []) where
  -- What allocatePage writes and returns, whatever the number of pages.
  abbrev Lengthens : ℕ → Type 0
  Lengthens fuel =
      (a : Allocation) × (allocate_page fuel f
        ≡ (ok a.new_page, record (written f a) { file_header = a.header }))
      × (a.new_page ≡ new_page f used is)
      × (a.header.num_pages ≡ (f.file_header.num_pages + 1) % 2 ^ 32)

  behind_last :
      (fuel : ℕ) (xs : List ℕ) (y : ℕ) → used ≡ xs ++ y ∷ [] → length used ≤ fuel → Lengthens fuel
  behind_last fuel xs y split enough =
      let top = f.file_header.num_pages in
      let start = f.file_header.first_used_page in
      let links = subst (λ us. Links (fetch f) own top start us) split is.used_links in
      let (pos, below, p, here, num, last) = Links-at (fetch f) own top start xs y [] links in
      let lens = ap (λ (us : List ℕ). length us) split in
      let more = length-snoc xs y in
      let some_used = Links-pos (fetch f) own top start xs y [] links in
      (
        behind f used is p,
        to_append f used is fuel (behind f used is p)
            (append_tail f used is fuel xs y p links here num last pos (omega arith) (omega arith)),
        refl,
        refl,
      )

  either_way : (fuel : ℕ) (us : List ℕ) → used ≡ us → length used ≤ fuel → Lengthens fuel
  either_way fuel [] e enough = (
    first f used is,
    to_append f used is fuel (first f used is) (
        append_empty f used is fuel (
          subst (λ us. Links (fetch f) own f.file_header.num_pages f.file_header.first_used_page us)
            e is.used_links)),
    refl,
    refl,
  )
  either_way fuel (x ∷ xs) e enough =
      let (ys, y, split) = snoc x xs in behind_last fuel ys y (e ∙ split) enough

read_page_beyond :
    (f : File) (n : ℕ)
    → f.good ≡ true
    → f.file_header.num_pages ≡ 0
    → read_page n f ≡ (throws (invalid_page (record { page_number = n; filename = f.filename })), f)
unfolding read_page
read_page_beyond f n good none_counted =
    rw (read_header_lem f good, le→ltb n f.file_header.num_pages (omega arith)) refl

-- In a well-formed file without a free page whose next page number is the largest of 32 bits,
-- allocatePage returns a page with that number, and the file header then counts no page: readPage of
-- every number throws InvalidPageException. Fuel for each used page is enough.
pub allocate_page_wraps :
    (fuel : ℕ) (f : File) (used : List ℕ) (n : ℕ)
    → IsFile f used []
    → f.file_header.num_pages + 1 ≡ 2 ^ 32
    → length used ≤ fuel
    → (p : Page) × (f' : File) × (allocate_page fuel f ≡ (ok p, f'))
      × (page_number p ≡ f.file_header.num_pages)
      × (f'.file_header.num_pages ≡ 0)
      × (read_page n f'
          ≡ (throws (invalid_page (record { page_number = n; filename = f'.filename })), f'))
allocate_page_wraps fuel f used n is full enough =
    let (a, run, page, count) = either_way f used is fuel used refl enough in
    let f' = record (written f a) { file_header = a.header } in
    let wrapped : a.header.num_pages ≡ 0 = omega arith in
    (
      a.new_page,
      f',
      run,
      ap (λ (q : Page). page_number q) page,
      wrapped,
      read_page_beyond f' n (written-good f is.good a) wrapped,
    )
