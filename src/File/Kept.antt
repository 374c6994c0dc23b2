-- ===== src/File/Kept.antt =====
-- The pages that allocatePage and deletePage do not give or take (src/file.cpp).
use native.Mathlib.Decide.{ℕ_discrete}
use hit_database_exp3p2_cpp.Base.{
  ℕ, ◌+◌, ◌≤◌, ◌<◌, ◌≡◌, ◌^◌, sym, ◌∙◌, ap, some, arith, length, true,
}
use hit_database_exp3p2_cpp.Page.{Page, next_page_number, set_next_page_number}
use hit_database_exp3p2_cpp.File.Stream.{File, FileHeader, fetch}
use hit_database_exp3p2_cpp.File.Access.{
  with_page, fetch-with_page_self, fetch-with_page_ne, fetch-with_header, length-with_page_le,
}

-- Every page but `n` stays on disk as it is, but for its pointer.
abbrev pub Keeps : File → File → ℕ → Type 0
Keeps f f' n =
    (x : ℕ) (q : Page)
    → 0 < x
    → x < f.file_header.num_pages
    → ¬ (n ≡ x)
    → fetch f x ≡ some q
    → (k : ℕ) × (fetch f' x ≡ some (set_next_page_number q k))

module _ (f : File) (good : f.good ≡ true) (n : ℕ) (p : Page) (pos : 0 < n) (small : n < 2 ^ 32)
    (near : n ≤ length f.pages + 1) (narrow : f.file_header.num_pages ≤ 2 ^ 32)
    (h : FileHeader) where
  -- One page is written.
  pub Keeps-one : Keeps f (record (with_page f n p) { file_header = h }) n
  Keeps-one x q a b ne e = (
    next_page_number q,
    ap (λ d. d x) (fetch-with_header (with_page f n p) h)
        ∙ fetch-with_page_ne f good n p pos small near x a (omega arith) ne
        ∙ e,
  )

  pub fetch-one : fetch (record (with_page f n p) { file_header = h }) n ≡ some p
  fetch-one =
      ap (λ d. d n) (fetch-with_header (with_page f n p) h)
      ∙ fetch-with_page_self f good n p pos small

  module _ (y k : ℕ) (r : Page) (there : fetch f y ≡ some r) (pos_y : 0 < y)
      (below_y : y < f.file_header.num_pages) (near_y : y ≤ length f.pages + 1)
      (apart : ¬ (n ≡ y)) where
    small_y : y < 2 ^ 32
    small_y = omega arith

    near_y' : y ≤ length (with_page f n p).pages + 1
    near_y' = omega (arith, length-with_page_le f n p)

    near_n' : n ≤ length (with_page f y (set_next_page_number r k)).pages + 1
    near_n' = omega (arith, length-with_page_le f y (set_next_page_number r k))

    -- Then the pointer of another page is changed.
    pub Keeps-then :
        Keeps f
          (record (with_page (with_page f n p) y (set_next_page_number r k)) { file_header = h })
          n
    Keeps-then x q a b ne e = elim (ℕ_discrete y x) [
      | yes same ↦
          let qr : q ≡ r = let e' : fetch f y ≡ some q = ap (fetch f) same ∙ e in cc in
          (
            k,
            ap (λ d. d x)
                  (fetch-with_header (with_page (with_page f n p) y (set_next_page_number r k)) h)
                ∙ ap (fetch (with_page (with_page f n p) y (set_next_page_number r k))) (sym same)
                ∙ fetch-with_page_self (with_page f n p) good y (set_next_page_number r k) pos_y
                    small_y
                ∙ ap (λ (u : Page). some (set_next_page_number u k)) (sym qr),
          )
      | no other ↦ (
        next_page_number q,
        ap (λ d. d x)
              (fetch-with_header (with_page (with_page f n p) y (set_next_page_number r k)) h)
            ∙ fetch-with_page_ne (with_page f n p) good y (set_next_page_number r k) pos_y small_y
                near_y' x a (omega arith) other
            ∙ fetch-with_page_ne f good n p pos small near x a (omega arith) ne
            ∙ e,
      )
    ]

    pub fetch-then :
        fetch
          (record (with_page (with_page f n p) y (set_next_page_number r k)) { file_header = h })
          n
        ≡ some p
    fetch-then =
        ap (λ d. d n)
          (fetch-with_header (with_page (with_page f n p) y (set_next_page_number r k)) h)
        ∙ fetch-with_page_ne (with_page f n p) good y (set_next_page_number r k) pos_y small_y
            near_y' n pos small (λ e. apart (sym e))
        ∙ fetch-with_page_self f good n p pos small

    -- The pointer of another page is changed before.
    pub Keeps-before :
        Keeps f
          (record (with_page (with_page f y (set_next_page_number r k)) n p) { file_header = h })
          n
    Keeps-before x q a b ne e =
        let f1 = with_page f y (set_next_page_number r k) in
        let outer =
          ap (λ d. d x) (fetch-with_header (with_page f1 n p) h)
          ∙ fetch-with_page_ne f1 good n p pos small near_n' x a (omega arith) ne in
        elim (ℕ_discrete y x) [
          | yes same ↦
              let qr : q ≡ r = let e' : fetch f y ≡ some q = ap (fetch f) same ∙ e in cc in
              (
                k,
                outer
                    ∙ ap (fetch f1) (sym same)
                    ∙ fetch-with_page_self f good y (set_next_page_number r k) pos_y small_y
                    ∙ ap (λ (u : Page). some (set_next_page_number u k)) (sym qr),
              )
          | no other ↦ (
            next_page_number q,
            outer
                ∙ fetch-with_page_ne f good y (set_next_page_number r k) pos_y small_y near_y x a
                    (omega arith) other
                ∙ e,
          )
        ]
