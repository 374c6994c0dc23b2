-- ===== src/File/Reuse/Lists.antt =====
-- The lists of a file after its first free page is written again (src/file.cpp).
use hit_database_exp3p2_cpp.Base.{
  ℕ, ◌+◌, ◌≤◌, ◌<◌, ◌≡◌, ◌^◌, refl, sym, subst, ◌∙◌, ap, some, List, ◌∷◌, ◌++◌, arith, length,
  ==-ne,
}
use hit_database_exp3p2_cpp.Page.{Page, page_number, next_page_number, set_next_page_number}
use hit_database_exp3p2_cpp.File.Stream.{File, FileHeader, fetch}
use hit_database_exp3p2_cpp.File.Access.{
  with_page, fetch-with_page_self, fetch-with_page_ne, length-with_page_in,
}
use hit_database_exp3p2_cpp.File.Links.{
  Links, Ascending, NotIn, IsFile, own, zero_tag, NotIn-append, NotIn-tag, IsFile-with_header,
}
use hit_database_exp3p2_cpp.File.Relink.{Ascending-Distinct}
use hit_database_exp3p2_cpp.File.Written.{Links-with_page, Links-with_page_in}
use hit_database_exp3p2_cpp.File.Allocate.{written}
use hit_database_exp3p2_cpp.File.Sorted.{
  insert_sorted, length-insert_sorted, insert_sorted-Ascending,
}
use hit_database_exp3p2_cpp.File.Reuse.{taken, reused, behind}

module _ (f : File) (used free : List ℕ) (is : IsFile f used (f.file_header.first_free_page ∷ free))
    (fp : Page) (pos : 0 < f.file_header.first_free_page)
    (below : f.file_header.first_free_page < f.file_header.num_pages)
    (here : fetch f f.file_header.first_free_page ≡ some fp) (num : page_number fp ≡ 0)
    (free_links : Links (fetch f) zero_tag f.file_header.num_pages (next_page_number fp) free) where
  abbrev h : FileHeader
  h = f.file_header

  abbrev n : ℕ
  n = h.first_free_page

  abbrev pub after : ℕ → FileHeader
  after first = taken f free fp is.good here free_links is.counted first

  pub small : n < 2 ^ 32
  small = let s = is.small in omega arith

  pub near : n ≤ length f.pages + 1
  near = let c = is.count in omega arith

  out : NotIn n used
  out =
      NotIn-tag (fetch f) own h.num_pages h.first_used_page used n fp here (omega arith)
        is.used_links

  -- The lists after the page is written again.
  module _ (q : Page) where
    abbrev pub rewritten : File
    rewritten = with_page f n q

    same_length : length rewritten.pages ≡ length f.pages
    same_length = let c = is.count in length-with_page_in f is.good n q pos small (omega arith)

    used_stay : Links (fetch rewritten) own h.num_pages h.first_used_page used
    used_stay =
        Links-with_page f is.good h.num_pages n q pos small (let s = is.small in omega arith) near
          own h.num_pages h.first_used_page used (omega arith) out is.used_links

    free_stay : Links (fetch rewritten) zero_tag h.num_pages (next_page_number fp) free
    free_stay =
        Links-with_page f is.good h.num_pages n q pos small (let s = is.small in omega arith) near
          zero_tag h.num_pages (next_page_number fp) free (omega arith) is.distinct.0 free_links

    pub IsFile-head :
        page_number q ≡ n
        → next_page_number q ≡ h.first_used_page
        → Ascending 0 (n ∷ used)
        → IsFile (record rewritten { file_header = after n }) (n ∷ used) free
    IsFile-head number pointer ascending =
        let l = same_length in
        let c = is.count in
        let a = is.all in
        let k = is.counted in
        IsFile-with_header rewritten (after n) (n ∷ used) free is.good (omega arith) is.small
          (
            refl,
            pos,
            below,
            q,
            fetch-with_page_self f is.good n q pos small,
            number,
            subst (λ k. Links (fetch rewritten) own h.num_pages k used) (sym pointer) used_stay,
          )
          free_stay ascending is.distinct.1 (omega arith) (omega arith)

  -- The used list with the page behind page `y`, whose pointer is changed.
  module _ (xs : List ℕ) (y : ℕ) (ys : List ℕ) (split : used ≡ xs ++ y ∷ ys)
      (ins : insert_sorted n used ≡ xs ++ y ∷ n ∷ ys) (p : Page) (pos_y : 0 < y)
      (below_y : y < h.num_pages) (there : fetch f y ≡ some p) (num_y : page_number p ≡ y) where
    abbrev pub new_page : Page
    new_page =
        set_next_page_number (reused f free fp is.good here free_links is.counted)
          (next_page_number p)

    abbrev pub relinked : File
    relinked = with_page (rewritten new_page) y (set_next_page_number p n)

    pub ne : ¬ (n ≡ y)
    ne = (NotIn-append n xs (y ∷ ys) (subst (λ us. NotIn n us) split out)).1.0

    small_y : y < 2 ^ 32
    small_y = let s = is.small in omega arith

    there1 : fetch (rewritten new_page) y ≡ some p
    there1 = fetch-with_page_ne f is.good n new_page pos small near y pos_y small_y ne ∙ there

    pub IsFile-behind :
        IsFile
          (record relinked { file_header = after h.first_used_page })
          (insert_sorted n used)
          free
    IsFile-behind =
        let l = same_length new_page in
        let c = is.count in
        let s = is.small in
        let a = is.all in
        let k = is.counted in
        let near_y : y ≤ length (rewritten new_page).pages + 1 = omega arith in
        let l2 =
          length-with_page_in (rewritten new_page) is.good y (set_next_page_number p n) pos_y
            small_y (omega arith) in
        let longer = length-insert_sorted n used in
        let kept =
          subst (λ us. Links (fetch (rewritten new_page)) own h.num_pages h.first_used_page us)
            split (used_stay new_page) in
        let distinct =
          Ascending-Distinct 0 (xs ++ y ∷ ys) (subst (λ us. Ascending 0 us) split is.ascending) in
        IsFile-with_header relinked (after h.first_used_page) (insert_sorted n used) free is.good
          (omega arith) s
          (subst (λ us. Links (fetch relinked) own h.num_pages h.first_used_page us) (sym ins)
            (Links-with_page_in (rewritten new_page) is.good h.num_pages y
              (set_next_page_number p n) pos_y small_y (omega arith) near_y h.first_used_page n p
              new_page xs ys there1 refl kept distinct pos below (λ e. ne (sym e))
              (fetch-with_page_self f is.good n new_page pos small) refl refl refl))
          (Links-with_page (rewritten new_page) is.good h.num_pages y (set_next_page_number p n)
            pos_y small_y (omega arith) near_y zero_tag h.num_pages (next_page_number fp) free
            (omega arith)
            (NotIn-tag (fetch (rewritten new_page)) zero_tag h.num_pages (next_page_number fp) free
              y p there1 (omega arith) (free_stay new_page))
            (free_stay new_page))
          (insert_sorted-Ascending 0 n used pos out is.ascending) is.distinct.1 (omega arith)
          (omega arith)

    pub behind-written :
        written f (behind f free fp is.good here free_links is.counted p) ≡ relinked
    behind-written =
        rw (==-ne (page_number p) 0 (omega arith))
          (ap (λ k. with_page (rewritten new_page) k (set_next_page_number p n)) num_y)
