-- ===== src/File/Append/Runs.antt =====
-- allocatePage when no page is free, with and without a used page (src/file.cpp).
use hit_database_exp3p2_cpp.Base.{
  ℕ, ◌+◌, ◌≤◌, ◌<◌, ◌≡◌, ◌^◌, refl, sym, subst, ◌∙◌, ap, some, List, [], ◌∷◌, ◌++◌, arith, length,
  ==-ne,
}
use hit_database_exp3p2_cpp.Result.{ok}
use hit_database_exp3p2_cpp.Page.{Page, page_number, set_next_page_number, initialize}
use hit_database_exp3p2_cpp.File.{allocate_page}
use hit_database_exp3p2_cpp.File.Stream.{File, FileHeader, fetch}
use hit_database_exp3p2_cpp.File.Access.{with_page}
use hit_database_exp3p2_cpp.File.Links.{Links, IsFile, own}
use hit_database_exp3p2_cpp.File.Relink.{Links-at, Links-pos, snoc, length-snoc, assoc}
use hit_database_exp3p2_cpp.File.Kept.{Keeps, Keeps-one, Keeps-then, fetch-one, fetch-then}
use hit_database_exp3p2_cpp.File.Allocate.{written}
use hit_database_exp3p2_cpp.File.Append.Lists.{
  new_page, grown, first, behind, append_empty, append_tail, to_append, lengthened, top-pos,
  IsFile-first, IsFile-behind,
}

module _ (f : File) (used : List ℕ) (is : IsFile f used [])
    (room : f.file_header.num_pages + 1 < 2 ^ 32) where
  abbrev h : FileHeader
  h = f.file_header

  abbrev top : ℕ
  top = h.num_pages

  -- What allocatePage returns and leaves.
  abbrev pub Appended : ℕ → Type 0
  Appended fuel =
      (p : Page) × (f' : File) × (allocate_page fuel f ≡ (ok p, f'))
      × (page_number p ≡ top)
      × IsFile f' (used ++ top ∷ []) []
      × Keeps f f' top
      × (p ≡ (new_page f used is))
      × (fetch f' top ≡ some p)

  near : top ≤ length f.pages + 1
  near = let c = is.count in omega arith

  run_empty : (fuel : ℕ) → used ≡ [] → Appended fuel
  unfolding initialize
  run_empty fuel e =
      let none_used : h.first_used_page ≡ 0 =
        subst (λ us. Links (fetch f) own top h.first_used_page us) e is.used_links in
      (
        (new_page f used is),
        record (lengthened f used is) { file_header = (first f used is).header },
        to_append f used is fuel (first f used is) (append_empty f used is fuel none_used),
        refl,
        subst
            (λ us.
              IsFile (record (lengthened f used is) { file_header = (first f used is).header })
                (us ++ top ∷ []) [])
            (sym e) (IsFile-first f used is room e),
        Keeps-one f is.good top (new_page f used is) (top-pos f used is) (omega arith) near
            (omega arith) (first f used is).header,
        refl,
        fetch-one f is.good top (new_page f used is) (top-pos f used is) (omega arith) near
            (omega arith) (first f used is).header,
      )

  behind-written :
      (p : Page) (y : ℕ)
      → page_number p ≡ y
      → 0 < y
      → written f (behind f used is p)
        ≡ with_page (lengthened f used is) y (set_next_page_number p top)
  behind-written p y num pos =
      rw (==-ne (page_number p) 0 (omega arith))
        (ap (λ k. with_page (lengthened f used is) k (set_next_page_number p top)) num)

  run_tail :
      (fuel : ℕ) (xs : List ℕ) (y : ℕ) → used ≡ xs ++ y ∷ [] → length used ≤ fuel → Appended fuel
  run_tail fuel xs y split enough =
      let links = subst (λ us. Links (fetch f) own top h.first_used_page us) split is.used_links in
      let (pos, below, p, here, num, last) =
        Links-at (fetch f) own top h.first_used_page xs y [] links in
      (
        (new_page f used is),
        record (with_page (lengthened f used is) y (set_next_page_number p top)) {
          file_header = (grown f used is);
        },
        (let lens = ap (λ (us : List ℕ). length us) split in
            let more = length-snoc xs y in
            to_append f used is fuel (behind f used is p) (
              append_tail f used is fuel xs y p links here num last pos
                (let q = Links-pos (fetch f) own top h.first_used_page xs y [] links in omega arith)
                (omega arith))
            ∙ ap
                (λ (g : File).
                  (ok (new_page f used is), record g { file_header = (grown f used is) }))
                (behind-written p y num pos)),
        refl,
        subst
            (λ us.
              IsFile
                (record (with_page (lengthened f used is) y (set_next_page_number p top)) {
                  file_header = (grown f used is);
                })
                us [])
            (sym (ap (λ us. us ++ top ∷ []) split ∙ assoc xs y (top ∷ [])))
            (IsFile-behind f used is room xs y p split here num last pos below),
        (let c = is.count in
            Keeps-then f is.good top (new_page f used is) (top-pos f used is) (omega arith) near
              (omega arith) (grown f used is) y top p here pos below (omega arith) (omega arith)),
        refl,
        (let c = is.count in
            fetch-then f is.good top (new_page f used is) (top-pos f used is) (omega arith) near
              (omega arith) (grown f used is) y top p here pos below (omega arith) (omega arith)),
      )

  pub by_used : (fuel : ℕ) (us : List ℕ) → used ≡ us → length used ≤ fuel → Appended fuel
  by_used fuel [] e enough = run_empty fuel e
  by_used fuel (x ∷ xs) e enough =
      let (ys, y, split) = snoc x xs in run_tail fuel ys y (e ∙ split) enough
