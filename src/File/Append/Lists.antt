-- ===== src/File/Append/Lists.antt =====
-- The lists of a file that has grown by a page (src/file.cpp).
use hit_database_exp3p2_cpp.Base.{
  ℕ, ◌+◌, ◌<◌, ◌≡◌, ◌^◌, ◌%◌, refl, sym, subst, ◌∙◌, ap, some, List, [], ◌∷◌, ◌++◌, arith, length,
  ◌==◌, ==-ne, ltb, if◌then◌else◌,
}
use hit_database_exp3p2_cpp.Result.{ok}
use hit_database_exp3p2_cpp.Page.{
  Page, page_number, next_page_number, set_page_number, set_next_page_number, initialize,
}
use hit_database_exp3p2_cpp.File.{allocate_page, reuse_page, append_page, Allocation}
use hit_database_exp3p2_cpp.File.Allocate.{allocate_page_lem, written}
use hit_database_exp3p2_cpp.File.Stream.{File, FileHeader, fetch}
use hit_database_exp3p2_cpp.File.Access.{
  with_page, fetch-with_page_self, fetch-with_page_ne, length-with_page_in, length-with_page_end,
}
use hit_database_exp3p2_cpp.File.Links.{
  Links, Ascending, IsFile, own, NotIn-top, IsFile-with_header,
}
use hit_database_exp3p2_cpp.File.Relink.{Ascending-Distinct, length-snoc, assoc}
use hit_database_exp3p2_cpp.File.Written.{Links-with_page, Links-with_page_in}
use hit_database_exp3p2_cpp.File.Relink.{Ascending-snoc}
use hit_database_exp3p2_cpp.File.Walks.{Passes-tail, walk_split}

module _ (f : File) (used : List ℕ) (is : IsFile f used []) where
  abbrev h : FileHeader
  h = f.file_header

  abbrev top : ℕ
  top = h.num_pages

  abbrev pub new_page : Page
  new_page = set_page_number initialize top

  abbrev pub grown : FileHeader
  grown = record h { num_pages = (top + 1) % 2 ^ 32 }

  abbrev pub first : Allocation
  first = record {
    new_page = new_page;
    existing_page = initialize;
    header = record grown { first_used_page = top };
  }

  abbrev pub behind : Page → Allocation
  behind p = record {
    new_page = new_page;
    existing_page = set_next_page_number p top;
    header = grown;
  }

  pub append_empty : (fuel : ℕ) → h.first_used_page ≡ 0 → append_page fuel h f ≡ (ok first, f)
  unfolding append_page
  append_empty fuel e = rw e refl

  pub append_tail :
      (fuel : ℕ) (xs : List ℕ) (y : ℕ) (p : Page)
      → Links (fetch f) own top h.first_used_page (xs ++ y ∷ [])
      → fetch f y ≡ some p
      → page_number p ≡ y
      → next_page_number p ≡ 0
      → 0 < y
      → ¬ (h.first_used_page ≡ 0)
      → length xs < fuel
      → append_page fuel h f ≡ (ok (behind p), f)
  unfolding append_page
  append_tail fuel xs y p l here num last pos ne enough =
      rw
        (
          ==-ne h.first_used_page 0 ne,
          walk_split f is.good (λ k. k == 0) fuel h.first_used_page initialize xs y [] p l
              (Passes-tail (fetch f) top h.first_used_page xs y [] l) here (ap (λ k. k == 0) last)
              enough,
          ==-ne (page_number p) 0 (omega arith),
        )
        refl

  abbrev pub lengthened : File
  lengthened = with_page f top new_page

  pub top-pos : 0 < top
  top-pos = rw is.count (omega arith)

  pub to_append :
      (fuel : ℕ) (a : Allocation)
      → append_page fuel h f ≡ (ok a, f)
      → allocate_page fuel f ≡ (ok a.new_page, record (written f a) { file_header = a.header })
  to_append fuel a e =
      allocate_page_lem f is.good fuel a
        (ap (λ k. (if ltb 0 k then reuse_page fuel h else append_page fuel h) f) is.counted ∙ e)

  module _ (room : top + 1 < 2 ^ 32) where
    pub longer : length lengthened.pages ≡ top
    longer =
        let c = is.count in
        let e = length-with_page_end f is.good top new_page top-pos (omega arith) c in omega arith

    pub IsFile-first :
        used ≡ [] → IsFile (record lengthened { file_header = first.header }) (top ∷ []) []
    unfolding initialize
    IsFile-first empty =
        let l = longer in
        IsFile-with_header lengthened first.header (top ∷ []) [] is.good (omega arith) (omega arith)
          (
            refl,
            top-pos,
            omega arith,
            new_page,
            fetch-with_page_self f is.good top new_page top-pos (omega arith),
            refl,
            refl,
          )
          is.free_links (top-pos, tt) tt is.counted
          (let a = is.all in
            let c = is.count in let e = ap (λ (xs : List ℕ). length xs) empty in omega arith)

    module _ (xs : List ℕ) (y : ℕ) (p : Page) (split : used ≡ xs ++ y ∷ [])
        (here : fetch f y ≡ some p) (num : page_number p ≡ y) (last : next_page_number p ≡ 0)
        (pos : 0 < y) (below : y < top) where
      abbrev f2 : File
      f2 = with_page lengthened y (set_next_page_number p top)

      ascending : Ascending 0 (xs ++ y ∷ [])
      ascending = subst (λ us. Ascending 0 us) split is.ascending

      links : Links (fetch f) own top h.first_used_page (xs ++ y ∷ [])
      links = subst (λ us. Links (fetch f) own top h.first_used_page us) split is.used_links

      pub IsFile-behind : IsFile (record f2 { file_header = grown }) (xs ++ y ∷ top ∷ []) []
      unfolding initialize
      IsFile-behind =
          let c = is.count in
          let l = longer in
          let small : top < 2 ^ 32 = omega arith in
          let l2 =
            length-with_page_in lengthened is.good y (set_next_page_number p top) pos (omega arith)
              (omega arith) in
          let kept =
            Links-with_page f is.good top top new_page top-pos small (omega arith) (omega arith) own
              grown.num_pages h.first_used_page (xs ++ y ∷ []) (omega arith)
              (NotIn-top (fetch f) own top h.first_used_page (xs ++ y ∷ []) top (omega arith) links)
              links in
          IsFile-with_header f2 grown (xs ++ y ∷ top ∷ []) [] is.good (omega arith) (omega arith)
            (Links-with_page_in lengthened is.good grown.num_pages y (set_next_page_number p top)
              pos (omega arith) (omega arith) (omega arith) h.first_used_page top p new_page xs []
              (fetch-with_page_ne f is.good top new_page top-pos small (omega arith) y pos
                  (omega arith) (omega arith)
                ∙ here)
              refl kept (Ascending-Distinct 0 (xs ++ y ∷ []) ascending) top-pos (omega arith)
              (omega arith) (fetch-with_page_self f is.good top new_page top-pos small) refl
              (sym last) refl)
            is.free_links
            (subst (λ us. Ascending 0 us) (assoc xs y (top ∷ []))
              (Ascending-snoc 0 (fetch f) top h.first_used_page (xs ++ y ∷ []) top-pos links
                ascending))
            tt is.counted
            (let a = is.all in
              let e = ap (λ (us : List ℕ). length us) split in
              let e1 = length-snoc (xs ++ y ∷ []) top in
              let e2 = ap (λ (us : List ℕ). length us) (assoc xs y (top ∷ [])) in omega arith)
