-- ===== src/File/Access.antt =====
-- What the stream reads after a write of a page, and the reads that succeed (src/file.cpp).
use hit_database_exp3p2_cpp.Base.{
  ℕ, zero, suc, ◌+◌, ◌^◌, ◌≤◌, ◌<◌, ◌≡◌, refl, ◌∙◌, ap, true, some, List, [], ◌∷◌, arith, length,
  if◌then◌else◌, lt→ltb, ==-ne, Bool-cases, inl, inr,
}
use hit_database_exp3p2_cpp.Result.{ok, throws}
use hit_database_exp3p2_cpp.Result.Exceptions.{invalid_page}
use hit_database_exp3p2_cpp.Page.{Page, page_number, is_used}
use hit_database_exp3p2_cpp.File.{read_page, read_page_or_free, write_if_used}
use hit_database_exp3p2_cpp.File.Stream.{
  File, FileHeader, get_elem?, put, page_index, fetch, read_header, write_header, read_raw,
  read_page_header, write_page_at,
}

get_elem?-put_self : (xs : List Page) (i : ℕ) (p : Page) → get_elem? (put xs i p) i ≡ some p
get_elem?-put_self [] zero p = refl
get_elem?-put_self [] (suc i) p = get_elem?-put_self [] i p
get_elem?-put_self (x ∷ xs) zero p = refl
get_elem?-put_self (x ∷ xs) (suc i) p = get_elem?-put_self xs i p

get_elem?-put_ne :
    (xs : List Page) (i j : ℕ) (p : Page)
    → i ≤ length xs
    → ¬ (i ≡ j)
    → get_elem? (put xs i p) j ≡ get_elem? xs j
get_elem?-put_ne [] zero zero p h ne = absurd (ne refl)
get_elem?-put_ne [] zero (suc j) p h ne = refl
get_elem?-put_ne [] (suc i) j p h ne = absurd (omega arith)
get_elem?-put_ne (x ∷ xs) zero zero p h ne = absurd (ne refl)
get_elem?-put_ne (x ∷ xs) zero (suc j) p h ne = refl
get_elem?-put_ne (x ∷ xs) (suc i) zero p h ne = refl
get_elem?-put_ne (x ∷ xs) (suc i) (suc j) p h ne =
    get_elem?-put_ne xs i j p (omega arith) (λ e. ne (ap suc e))

length-put_in :
    (xs : List Page) (i : ℕ) (p : Page) → i < length xs → length (put xs i p) ≡ length xs
length-put_in [] i p h = absurd (omega arith)
length-put_in (x ∷ xs) zero p h = refl
length-put_in (x ∷ xs) (suc i) p h = ap suc (length-put_in xs i p (omega arith))

length-put_end : (xs : List Page) (p : Page) → length (put xs (length xs) p) ≡ suc (length xs)
length-put_end [] p = refl
length-put_end (x ∷ xs) p = ap suc (length-put_end xs p)

length-put_le : (xs : List Page) (i : ℕ) (p : Page) → length xs ≤ length (put xs i p)
length-put_le [] i p = omega arith
length-put_le (x ∷ xs) zero p = omega arith
length-put_le (x ∷ xs) (suc i) p = let rest = length-put_le xs i p in omega arith

-- A file after a page is written in its place.
abbrev pub with_page : File → ℕ → Page → File
with_page f n p = record f { pages = put f.pages (page_index n) p }

pub length-with_page_le :
    (f : File) (n : ℕ) (p : Page) → length f.pages ≤ length (with_page f n p).pages
length-with_page_le f n p = length-put_le f.pages (page_index n) p

-- The pages do not depend on the header.
pub fetch-with_header : (f : File) (h : FileHeader) → fetch (record f { file_header = h }) ≡ fetch f
unfolding fetch
fetch-with_header f h = refl

module _ (f : File) (good : f.good ≡ true) where
  pub read_header_lem : read_header f ≡ (ok f.file_header, f)
  unfolding read_header
  read_header_lem = rw good refl

  pub write_header_lem : (h : FileHeader) → write_header h f ≡ (ok tt, record f { file_header = h })
  unfolding write_header
  write_header_lem h = rw good refl

  pub write_page_at_lem :
      (n : ℕ) (p : Page) → write_page_at n p.header p f ≡ (ok tt, with_page f n p)
  unfolding write_page_at
  write_page_at_lem n p = rw good refl

  module _ (n : ℕ) (p : Page) (pos : 0 < n) (small : n < 2 ^ 32) where
    pub fetch-with_page_self : fetch (with_page f n p) n ≡ some p
    unfolding fetch
    fetch-with_page_self = rw good (get_elem?-put_self f.pages (page_index n) p)

    module _ (near : n ≤ length f.pages + 1) where
      index-le : page_index n ≤ length f.pages
      unfolding page_index
      index-le = omega arith

      pub fetch-with_page_ne :
          (m : ℕ) → 0 < m → m < 2 ^ 32 → ¬ (n ≡ m) → fetch (with_page f n p) m ≡ fetch f m
      unfolding fetch
      fetch-with_page_ne m a b ne =
          rw good
            (get_elem?-put_ne f.pages (page_index n) (page_index m) p index-le (apart m a b ne))
        where
          apart : (m : ℕ) → 0 < m → m < 2 ^ 32 → ¬ (n ≡ m) → ¬ (page_index n ≡ page_index m)
          apart m a b ne = unfold page_index in λ e. ne (omega arith)

    pub length-with_page_in : n ≤ length f.pages → length (with_page f n p).pages ≡ length f.pages
    unfolding page_index
    length-with_page_in h = length-put_in f.pages (page_index n) p (omega arith)

    pub length-with_page_end :
        n ≡ length f.pages + 1 → length (with_page f n p).pages ≡ suc (length f.pages)
    unfolding page_index
    length-with_page_end e =
        let i : page_index n ≡ length f.pages = omega arith in
        ap (λ k. length (put f.pages k p)) i ∙ length-put_end f.pages p

  module _ (n : ℕ) (p : Page) (here : fetch f n ≡ some p) where
    read_raw_lem : read_raw n f ≡ (ok p, f)
    unfolding read_raw
    read_raw_lem = rw (here, read_raw) refl

    pub read_page_header_lem : read_page_header n f ≡ (ok p.header, f)
    unfolding read_page_header
    read_page_header_lem = rw (here, read_page_header) refl

    pub read_free_lem : read_page_or_free n true f ≡ (ok p, f)
    unfolding read_page_or_free
    read_free_lem = rw read_raw_lem refl

    pub read_page_lem :
        n < f.file_header.num_pages → ¬ (page_number p ≡ 0) → read_page n f ≡ (ok p, f)
    unfolding read_page read_page_or_free
    read_page_lem h used =
        rw
          (
            read_header_lem,
            lt→ltb n f.file_header.num_pages h,
            read_raw_lem,
            ==-ne (page_number p) 0 used,
          )
          refl

    -- A page that is not used is refused.
    pub read_page_unused :
        n < f.file_header.num_pages
        → page_number p ≡ 0
        → read_page n f
          ≡ (throws (invalid_page (record { page_number = n; filename = f.filename })), f)
    unfolding read_page read_page_or_free
    read_page_unused h e =
        rw (read_header_lem, lt→ltb n f.file_header.num_pages h, read_raw_lem, e) refl

  -- The file after the second write of allocatePage and deletePage, which only a used page gets.
  pub write_if_used_lem :
      (p : Page)
      → write_if_used p f ≡ (ok tt, (if is_used p then with_page f (page_number p) p else f))
  write_if_used_lem p = elim (Bool-cases (is_used p)) [
    | inl e ↦ rw e (write_page_at_lem (page_number p) p)
    | inr e ↦ rw e refl
  ]
