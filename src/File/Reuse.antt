-- ===== src/File/Reuse.antt =====
-- allocatePage when a page is free: the first free page is used again (src/file.cpp).
pub mod Lists
pub mod Runs
use hit_database_exp3p2_cpp.Base.{
  ℕ, suc, ◌-◌, ◌<◌, ◌≡◌, refl, some, List, [], ◌∷◌, ◌++◌, arith, length, true, false, not, ltb,
  ◌==◌, if◌then◌else◌, ==-ne,
}
use hit_database_exp3p2_cpp.Result.{ok}
use hit_database_exp3p2_cpp.Page.{
  Page, next_page_number, set_page_number, set_next_page_number, initialize,
}
use hit_database_exp3p2_cpp.File.{reuse_page, Allocation}
use hit_database_exp3p2_cpp.File.Stream.{File, FileHeader, fetch}
use hit_database_exp3p2_cpp.File.Access.{read_free_lem}
use hit_database_exp3p2_cpp.File.Links.{Links, own, zero_tag}
use hit_database_exp3p2_cpp.File.Relink.{Links-pos}
use hit_database_exp3p2_cpp.File.Walks.{walk_split, Passes}
use hit_database_exp3p2_cpp.File.Sorted.{stops}

module _ (f : File) (free : List ℕ) (fp : Page) (good : f.good ≡ true)
    (here : fetch f f.file_header.first_free_page ≡ some fp)
    (links : Links (fetch f) zero_tag f.file_header.num_pages (next_page_number fp) free)
    (counted : f.file_header.num_free_pages ≡ suc (length free)) where
  abbrev h : FileHeader
  h = f.file_header

  abbrev n : ℕ
  n = h.first_free_page

  abbrev pub taken : ℕ → FileHeader
  taken first = record h {
    first_used_page = first;
    num_free_pages = h.num_free_pages - 1;
    first_free_page = next_page_number fp;
  }

  abbrev pub reused : Page
  reused = set_page_number fp n

  -- The assertion about the free list holds.
  asserted :
      (if h.num_free_pages - 1 == 0
        then next_page_number fp == 0
        else not (next_page_number fp == 0))
      ≡ true
  asserted = by_list free links counted
    where
      by_list :
          (free : List ℕ)
          → Links (fetch f) zero_tag h.num_pages (next_page_number fp) free
          → h.num_free_pages ≡ suc (length free)
          → (if h.num_free_pages - 1 == 0
              then next_page_number fp == 0
              else not (next_page_number fp == 0))
            ≡ true
      by_list [] l c = rw (c, l) refl
      by_list (z ∷ zs) (a, b, _, _, _, _, _) c =
          rw
            (
              c,
              ==-ne (suc (length (z ∷ zs)) - 1) 0 (omega arith),
              ==-ne (next_page_number fp) 0 (omega arith),
            )
            refl

  abbrev pub at_head : Page → Allocation
  at_head new_page = record { new_page = new_page; existing_page = initialize; header = taken n }

  pub reuse_first :
      (fuel : ℕ) → h.first_used_page ≡ 0 → reuse_page fuel h f ≡ (ok (at_head reused), f)
  unfolding reuse_page
  reuse_first fuel e =
      let off : ltb n 0 ≡ false = ground arith in
      rw (read_free_lem f good n fp here, e, off, asserted) refl

  pub reuse_before :
      (fuel : ℕ)
      → ltb n h.first_used_page ≡ true
      → reuse_page fuel h f ≡ (ok (at_head (set_next_page_number reused h.first_used_page)), f)
  unfolding reuse_page
  reuse_before fuel less =
      let ne : (h.first_used_page == 0) ≡ false = ground arith in
      rw (read_free_lem f good n fp here, ne, less, asserted) refl

  -- The pages that a free page linked in behind page `p` needs.
  abbrev pub behind : Page → Allocation
  behind p = record {
    new_page = set_next_page_number reused (next_page_number p);
    existing_page = set_next_page_number p n;
    header = taken h.first_used_page;
  }

  pub reuse_behind :
      (fuel : ℕ) (xs : List ℕ) (y : ℕ) (ys : List ℕ) (p : Page)
      → Links (fetch f) own h.num_pages h.first_used_page (xs ++ y ∷ ys)
      → Passes (stops n) xs y
      → fetch f y ≡ some p
      → stops n (next_page_number p) ≡ true
      → ltb n h.first_used_page ≡ false
      → length xs < fuel
      → reuse_page fuel h f ≡ (ok (behind p), f)
  unfolding reuse_page
  reuse_behind fuel xs y ys p l ps there on more enough =
      rw
        (
          read_free_lem f good n fp here,
          ==-ne h.first_used_page 0 (
              let q = Links-pos (fetch f) own h.num_pages h.first_used_page xs y ys l in
              omega arith),
          more,
          walk_split f good (stops n) fuel h.first_used_page initialize xs y ys p l ps there on
              enough,
          asserted,
        )
        refl
