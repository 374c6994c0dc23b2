-- ===== src/File/Remove.antt =====
-- deletePage (src/file.cpp).
use hit_database_exp3p2_cpp.Base.{
  ℕ, ◌+◌, ◌≤◌, ◌<◌, ◌≡◌, ◌^◌, ◌%◌, refl, sym, subst, ◌∙◌, ap, some, List, [], ◌∷◌, ◌++◌, arith,
  length, true, if◌then◌else◌, ==-ne,
}
use hit_database_exp3p2_cpp.Result.{ok}
use hit_database_exp3p2_cpp.Page.{
  Page, page_number, next_page_number, set_next_page_number, initialize, is_used,
}
use hit_database_exp3p2_cpp.File.{delete_page}
use hit_database_exp3p2_cpp.File.Stream.{File, FileHeader, fetch}
use hit_database_exp3p2_cpp.File.Access.{with_page, fetch-with_page_self, length-with_page_in}
use hit_database_exp3p2_cpp.File.Links.{
  Links, Ascending, NotIn, IsFile, own, zero_tag, NotIn-append, NotIn-tag, IsFile-with_header,
}
use hit_database_exp3p2_cpp.File.Relink.{
  Ascending-Distinct, Ascending-remove, NotIn-middle, Links-at, snoc, length-snoc, length-middle,
  assoc,
}
use hit_database_exp3p2_cpp.File.Kept.{Keeps, Keeps-one, Keeps-before}
use hit_database_exp3p2_cpp.File.Written.{Links-with_page, Links-with_page_out}
use hit_database_exp3p2_cpp.File.Unlink.{delete_page_lem, unlink_head, unlink_behind}

module _ (f : File) (free : List ℕ) (n : ℕ) where
  abbrev h : FileHeader
  h = f.file_header

  abbrev cleared : Page
  cleared = set_next_page_number initialize h.first_free_page

  -- The header after deletePage, by the first used page.
  abbrev freed : ℕ → FileHeader
  freed first = record h {
    first_used_page = first;
    first_free_page = n;
    num_free_pages = (h.num_free_pages + 1) % 2 ^ 32;
  }

  -- What the last write of a page leaves, by the file `g` before it.
  module _ (xs ys : List ℕ) (is : IsFile f (xs ++ n ∷ ys) free) (g : File) (good : g.good ≡ true)
      (same_length : length g.pages ≡ length f.pages) (first : ℕ)
      (used_links : Links (fetch g) own h.num_pages first (xs ++ ys))
      (free_links : Links (fetch g) zero_tag h.num_pages h.first_free_page free) where
    IsFile-cleared :
        IsFile (record (with_page g n cleared) { file_header = freed first }) (xs ++ ys) (n ∷ free)
    unfolding initialize
    IsFile-cleared =
        let (pos, below, p, here, num, rest) =
          Links-at (fetch f) own h.num_pages h.first_used_page xs n ys is.used_links in
        let c = is.count in
        let s = is.small in
        let a = is.all in
        let k = is.counted in
        let m = length-middle xs n ys in
        let near : n ≤ length g.pages + 1 = omega arith in
        let small : n < 2 ^ 32 = omega arith in
        let same = length-with_page_in g good n cleared pos small (omega arith) in
        let out =
          NotIn-tag (fetch f) zero_tag h.num_pages h.first_free_page free n p here (omega arith)
            is.free_links in
        let alone = NotIn-middle xs n ys (Ascending-Distinct 0 (xs ++ n ∷ ys) is.ascending) in
        IsFile-with_header (with_page g n cleared) (freed first) (xs ++ ys) (n ∷ free) good
          (omega arith) s
          (Links-with_page g good h.num_pages n cleared pos small (omega arith) near own h.num_pages
            first (xs ++ ys) (omega arith) alone used_links)
          (
            refl,
            pos,
            below,
            cleared,
            fetch-with_page_self g good n cleared pos small,
            refl,
            Links-with_page g good h.num_pages n cleared pos small (omega arith) near zero_tag
                h.num_pages h.first_free_page free (omega arith) out free_links,
          )
          (Ascending-remove 0 xs n ys is.ascending) (out, is.distinct) (omega arith) (omega arith)

  fetch-cleared :
      (g : File) (first : ℕ)
      → g.good ≡ true
      → 0 < n
      → n < 2 ^ 32
      → fetch (record (with_page g n cleared) { file_header = freed first }) n ≡ some cleared
  unfolding fetch
  fetch-cleared g first good pos small = fetch-with_page_self g good n cleared pos small

  -- What deletePage leaves.
  abbrev Deleted : ℕ → List ℕ → Type 0
  Deleted fuel rest =
      (f' : File) × (delete_page fuel n f ≡ (ok tt, f'))
      × IsFile f' rest (n ∷ free)
      × Keeps f f' n
      × (fetch f' n ≡ some cleared)

  run_head : (fuel : ℕ) (ys : List ℕ) → IsFile f (n ∷ ys) free → Deleted fuel ys
  unfolding initialize
  run_head fuel ys is =
      let (a, pos, below, p, here, num, l) = is.used_links in
      (
        record (with_page f n cleared) { file_header = freed (next_page_number p) },
        delete_page_lem f is.good n p here below (omega arith) fuel initialize
            (record h { first_used_page = next_page_number p })
            (unlink_head f is.good n p here below (omega arith) fuel a),
        IsFile-cleared [] ys is f is.good refl (next_page_number p) l is.free_links,
        (let c = is.count in
            let s = is.small in
            Keeps-one f is.good n cleared pos (omega arith) (omega arith) (omega arith)
              (freed (next_page_number p))),
        (let c = is.count in
            let s = is.small in fetch-cleared f (next_page_number p) is.good pos (omega arith)),
      )

  module _ (xs : List ℕ) (y : ℕ) (ys : List ℕ) (is : IsFile f ((xs ++ y ∷ []) ++ n ∷ ys) free) where
    links : Links (fetch f) own h.num_pages h.first_used_page (xs ++ y ∷ n ∷ ys)
    links =
        subst (λ us. Links (fetch f) own h.num_pages h.first_used_page us) (assoc xs y (n ∷ ys))
          is.used_links

    ascending : Ascending 0 (xs ++ y ∷ n ∷ ys)
    ascending = subst (λ us. Ascending 0 us) (assoc xs y (n ∷ ys)) is.ascending

    rewritten :
        (q' : Page) (y : ℕ)
        → page_number q' ≡ y
        → 0 < y
        → (if is_used q' then with_page f (page_number q') q' else f) ≡ with_page f y q'
    rewritten q' y num pos =
        rw (==-ne (page_number q') 0 (omega arith)) (ap (λ k. with_page f k q') num)

    run_behind : (fuel : ℕ) → length xs < fuel → Deleted fuel ((xs ++ y ∷ []) ++ ys)
    run_behind fuel enough =
        let c = is.count in
        let s = is.small in
        let (pos_y, below_y, q, there, num_y, (next, pos, below, p, here, num, l)) =
          Links-at (fetch f) own h.num_pages h.first_used_page xs y (n ∷ ys) links in
        let q' = set_next_page_number q (next_page_number p) in
        let g = with_page f y q' in
        let distinct = Ascending-Distinct 0 (xs ++ y ∷ n ∷ ys) ascending in
        let shorter =
          Links-with_page_out f is.good h.num_pages y q' pos_y (omega arith) (omega arith)
            (omega arith) h.first_used_page n q p xs ys there refl links distinct here refl in
        let out =
          subst (λ us. NotIn n us) (assoc xs y ys)
            (NotIn-middle (xs ++ y ∷ []) n ys
              (Ascending-Distinct 0 ((xs ++ y ∷ []) ++ n ∷ ys) is.ascending)) in
        let run : delete_page fuel n f
            ≡ (ok tt, record (with_page g n cleared) { file_header = freed h.first_used_page }) =
          delete_page_lem f is.good n p here below (omega arith) fuel q' h (
            unlink_behind f is.good n p here below (omega arith) fuel xs y ys q num links out there
              next enough)
          ∙ ap
              (λ (k : File).
                (ok tt, record (with_page k n cleared) { file_header = freed h.first_used_page }))
              (rewritten q' y num_y pos_y) in
        (
          record (with_page g n cleared) { file_header = freed h.first_used_page },
          run,
          IsFile-cleared (xs ++ y ∷ []) ys is g is.good
              (length-with_page_in f is.good y q' pos_y (omega arith) (omega arith))
              h.first_used_page
              (subst (λ us. Links (fetch g) own h.num_pages h.first_used_page us)
                (sym (assoc xs y ys)) shorter)
              (Links-with_page f is.good h.num_pages y q' pos_y (omega arith) (omega arith)
                (omega arith) zero_tag h.num_pages h.first_free_page free (omega arith)
                (NotIn-tag (fetch f) zero_tag h.num_pages h.first_free_page free y q there
                  (omega arith) is.free_links)
                is.free_links),
          Keeps-before f is.good n cleared pos (omega arith) (omega arith) (omega arith)
              (freed h.first_used_page) y (next_page_number p) q there pos_y below_y (omega arith)
              (NotIn-append n xs (y ∷ ys) out).1.0,
          fetch-cleared g h.first_used_page is.good pos (omega arith),
        )

  by_first :
      (fuel : ℕ) (xs ys : List ℕ)
      → IsFile f (xs ++ n ∷ ys) free
      → length xs ≤ fuel
      → Deleted fuel (xs ++ ys)
  by_first fuel [] ys is enough = run_head fuel ys is
  by_first fuel (x ∷ xs) ys is enough =
      let (zs, y, split) = snoc x xs in
      let lens = ap (λ (us : List ℕ). length us) split in
      let more = length-snoc zs y in
      subst (λ us. Deleted fuel (us ++ ys)) (sym split)
        (run_behind zs y ys (subst (λ us. IsFile f (us ++ n ∷ ys) free) split is) fuel
          (omega arith))

pub delete_page_freed :
    (fuel : ℕ) (f : File) (n : ℕ) (xs ys free : List ℕ)
    → IsFile f (xs ++ n ∷ ys) free
    → length xs ≤ fuel
    → (f' : File) × (delete_page fuel n f ≡ (ok tt, f'))
      × IsFile f' (xs ++ ys) (n ∷ free)
      × Keeps f f' n
      × (fetch f' n ≡ some (set_next_page_number initialize f.file_header.first_free_page))
delete_page_freed fuel f n xs ys free is enough = by_first f free n fuel xs ys is enough

-- In a well-formed file, deletePage takes a used page out of the used list, whose
-- other pages keep their order, and puts it at the head of the free list; it does not throw, and
-- the file is well-formed again. Fuel for each used page before it is enough.
pub delete_page-IsFile :
    (fuel : ℕ) (f : File) (n : ℕ) (xs ys free : List ℕ)
    → IsFile f (xs ++ n ∷ ys) free
    → length xs ≤ fuel
    → (f' : File) × (delete_page fuel n f ≡ (ok tt, f')) × IsFile f' (xs ++ ys) (n ∷ free)
delete_page-IsFile fuel f n xs ys free is enough =
    let (f', run, is', keeps, at) = delete_page_freed fuel f n xs ys free is enough in
    (f', run, is')
