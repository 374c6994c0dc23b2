-- ===== src/File/Unlink.antt =====
-- The page before the deleted one, and what deletePage writes (src/file.cpp).
use hit_database_exp3p2_cpp.Base.{
  ℕ, ◌+◌, ◌<◌, ◌≡◌, ◌^◌, ◌%◌, refl, sym, ◌∙◌, ap, Option, some, List, [], ◌∷◌, ◌++◌, length, true,
  false, Bool, ◌==◌, if◌then◌else◌, ==-ne, ==-refl,
}
use hit_database_exp3p2_cpp.Result.{ok}
use hit_database_exp3p2_cpp.Page.{
  Page, page_number, next_page_number, set_next_page_number, initialize, is_used,
}
use hit_database_exp3p2_cpp.File.{delete_page, unlink_page}
use hit_database_exp3p2_cpp.File.Stream.{File, FileHeader, fetch}
use hit_database_exp3p2_cpp.File.Access.{
  with_page, read_header_lem, read_page_lem, write_header_lem, write_page_at_lem, write_if_used_lem,
}
use hit_database_exp3p2_cpp.File.Links.{Links, NotIn, own}
use hit_database_exp3p2_cpp.File.Walks.{walk_split, Passes}

-- No page before `y` points to `n` when `n` is none of the pages up to `y`.
Passes-NotIn :
    (n : ℕ) (xs : List ℕ) (y : ℕ) (ys : List ℕ) → NotIn n (xs ++ y ∷ ys) → Passes (λ k. k == n) xs y
Passes-NotIn n [] y ys out = tt
Passes-NotIn n (x ∷ []) y ys out = ==-ne y n (λ e. out.1.0 (sym e))
Passes-NotIn n (x ∷ z ∷ xs) y ys out =
    (==-ne z n (λ e. out.1.0 (sym e)), Passes-NotIn n (z ∷ xs) y ys out.1)

-- The first page of a list is none that is not in it.
first-NotIn :
    (disk : ℕ → Option Page) (top first n : ℕ) (xs : List ℕ) (y : ℕ) (ys zs : List ℕ)
    → Links disk own top first (xs ++ y ∷ ys)
    → NotIn n (xs ++ y ∷ zs)
    → ¬ (n ≡ first)
first-NotIn disk top first n [] y ys zs (a, b, c, q, d, t, l) out = λ e. out.0 (e ∙ a)
first-NotIn disk top first n (x ∷ xs) y ys zs (a, b, c, q, d, t, l) out = λ e. out.0 (e ∙ a)

module _ (f : File) (good : f.good ≡ true) (n : ℕ) (p : Page) (here : fetch f n ≡ some p)
    (below : n < f.file_header.num_pages) (tagged : ¬ (page_number p ≡ 0)) where
  -- The file that deletePage leaves, by what it unlinks.
  abbrev pub left : Page → FileHeader → File
  left e h =
      let g = if is_used e then with_page f (page_number e) e else f in
      record (with_page g n (set_next_page_number initialize h.first_free_page)) {
        file_header = record h {
          first_free_page = n;
          num_free_pages = (h.num_free_pages + 1) % 2 ^ 32;
        };
      }

  pub delete_page_lem :
      (fuel : ℕ) (e : Page) (h : FileHeader)
      → unlink_page fuel n f.file_header p f ≡ (ok (e, h), f)
      → delete_page fuel n f ≡ (ok tt, left e h)
  unfolding delete_page
  delete_page_lem fuel e h un =
      let g = if is_used e then with_page f (page_number e) e else f in
      let cleared = set_next_page_number initialize h.first_free_page in
      let good_g = still (is_used e) e in
      rw
        (
          read_header_lem f good,
          read_page_lem f good n p here below tagged,
          un,
          write_if_used_lem f good e,
          write_page_at_lem g good_g n cleared,
          write_header_lem (with_page g n cleared) good_g
              (record h { first_free_page = n; num_free_pages = (h.num_free_pages + 1) % 2 ^ 32 }),
        )
        refl
    where
      still : (b : Bool) (e : Page) → (if b then with_page f (page_number e) e else f).good ≡ true
      still true e = good
      still false e = good

  pub unlink_head :
      (fuel : ℕ)
      → f.file_header.first_used_page ≡ n
      → unlink_page fuel n f.file_header p f
        ≡ (ok (initialize, record (f.file_header) { first_used_page = next_page_number p }), f)
  unfolding unlink_page
  unlink_head fuel e = rw (e, ==-refl n) refl

  pub unlink_behind :
      (fuel : ℕ) (xs : List ℕ) (y : ℕ) (ys : List ℕ) (q : Page)
      → page_number p ≡ n
      → Links (fetch f) own f.file_header.num_pages f.file_header.first_used_page (xs ++ y ∷ n ∷ ys)
      → NotIn n (xs ++ y ∷ ys)
      → fetch f y ≡ some q
      → next_page_number q ≡ n
      → length xs < fuel
      → unlink_page fuel n f.file_header p f
        ≡ (ok (set_next_page_number q (next_page_number p), f.file_header), f)
  unfolding unlink_page
  unlink_behind fuel xs y ys q num l out there next enough =
      let first = f.file_header.first_used_page in
      rw
        (
          ==-ne n first
              (first-NotIn (fetch f) f.file_header.num_pages first n xs y (n ∷ ys) ys l out),
          num,
          walk_split f good (λ k. k == n) fuel first initialize xs y (n ∷ ys) q l
              (Passes-NotIn n xs y ys out) there (ap (λ k. k == n) next ∙ ==-refl n) enough,
        )
        refl
