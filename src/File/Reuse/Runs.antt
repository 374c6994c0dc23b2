-- ===== src/File/Reuse/Runs.antt =====
-- allocatePage when a page is free, by where the page goes among the used ones (src/file.cpp).
use hit_database_exp3p2_cpp.Base.{
  ℕ, ◌≤◌, ◌<◌, ◌≡◌, ◌^◌, refl, sym, subst, ◌∙◌, ap, some, List, [], ◌∷◌, ◌++◌, arith, length, true,
  false, ltb, if◌then◌else◌, lt→ltb, Bool-cases, inl, inr, ◌⊎◌,
}
use hit_database_exp3p2_cpp.Result.{ok}
use hit_database_exp3p2_cpp.Page.{
  Page, page_number, next_page_number, set_next_page_number, set_page_number, initialize,
}
use hit_database_exp3p2_cpp.File.{allocate_page, reuse_page, append_page, Allocation}
use hit_database_exp3p2_cpp.File.Stream.{File, FileHeader, fetch}
use hit_database_exp3p2_cpp.File.Links.{Links, Ascending, IsFile, own, zero_tag}
use hit_database_exp3p2_cpp.File.Relink.{Links-at, length-middle, length-append_le}
use hit_database_exp3p2_cpp.File.Kept.{Keeps, Keeps-one, Keeps-then, fetch-one, fetch-then}
use hit_database_exp3p2_cpp.File.Allocate.{allocate_page_lem, written}
use hit_database_exp3p2_cpp.File.Sorted.{insert_sorted, head, Links-head, stops, place}
use hit_database_exp3p2_cpp.File.Reuse.{
  reused, at_head, behind, reuse_first, reuse_before, reuse_behind,
}
use hit_database_exp3p2_cpp.File.Reuse.Lists.{
  after, small, near, rewritten, relinked, new_page, ne, IsFile-head, IsFile-behind, behind-written,
}

module _ (f : File) (used free : List ℕ) (is : IsFile f used (f.file_header.first_free_page ∷ free))
    (fp : Page) (pos : 0 < f.file_header.first_free_page)
    (below : f.file_header.first_free_page < f.file_header.num_pages)
    (here : fetch f f.file_header.first_free_page ≡ some fp) (num : page_number fp ≡ 0)
    (free_links : Links (fetch f) zero_tag f.file_header.num_pages (next_page_number fp) free) where
  abbrev h : FileHeader
  h = f.file_header

  abbrev n : ℕ
  n = h.first_free_page

  -- What allocatePage returns and leaves.
  abbrev pub Reused : ℕ → Type 0
  Reused fuel =
      (p : Page) × (f' : File) × (allocate_page fuel f ≡ (ok p, f'))
      × (page_number p ≡ n)
      × IsFile f' (insert_sorted n used) free
      × Keeps f f' n
      × (p ≡ set_next_page_number (set_page_number fp n) (next_page_number p))
      × (fetch f' n ≡ some p)

  narrow : h.num_pages ≤ 2 ^ 32
  narrow = let s = is.small in omega arith

  pub to_reuse :
      (fuel : ℕ) (a : Allocation)
      → reuse_page fuel h f ≡ (ok a, f)
      → allocate_page fuel f ≡ (ok a.new_page, record (written f a) { file_header = a.header })
  to_reuse fuel a e = allocate_page_lem f is.good fuel a (
      ap (λ b. (if b then reuse_page fuel h else append_page fuel h) f)
        (let k = is.counted in lt→ltb 0 h.num_free_pages (omega arith))
      ∙ e)

  -- The lists are empty but for the page.
  run_first : (fuel : ℕ) → used ≡ [] → free ≡ [] → Reused fuel
  unfolding initialize insert_sorted
  run_first fuel none_used none_free =
      let q = reused f free fp is.good here free_links is.counted in
      let first : h.first_used_page ≡ 0 =
        subst (λ us. Links (fetch f) own h.num_pages h.first_used_page us) none_used
          is.used_links in
      let last : next_page_number fp ≡ 0 =
        subst (λ us. Links (fetch f) zero_tag h.num_pages (next_page_number fp) us) none_free
          free_links in
      (
        q,
        record (rewritten f used free is fp pos below here num free_links q) {
          file_header = after f used free is fp pos below here num free_links n;
        },
        to_reuse fuel (at_head f free fp is.good here free_links is.counted q)
            (reuse_first f free fp is.good here free_links is.counted fuel first),
        refl,
        subst
            (λ us.
              IsFile
                (record (rewritten f used free is fp pos below here num free_links q) {
                  file_header = after f used free is fp pos below here num free_links n;
                })
                us free)
            (ap (λ us. n ∷ us) none_used ∙ ap (insert_sorted n) (sym none_used))
            (IsFile-head f used free is fp pos below here num free_links q refl (last ∙ sym first)
              (subst (λ us. Ascending 0 (n ∷ us)) (sym none_used) (pos, tt))),
        Keeps-one f is.good n q pos (small f used free is fp pos below here num free_links)
            (near f used free is fp pos below here num free_links) narrow
            (after f used free is fp pos below here num free_links n),
        refl,
        fetch-one f is.good n q pos (small f used free is fp pos below here num free_links)
            (near f used free is fp pos below here num free_links) narrow
            (after f used free is fp pos below here num free_links n),
      )

  run_before : (fuel x : ℕ) (xs : List ℕ) → used ≡ x ∷ xs → ltb n x ≡ true → Reused fuel
  unfolding initialize insert_sorted
  run_before fuel x xs e less =
      let first : h.first_used_page ≡ x =
        Links-head (fetch f) own h.num_pages h.first_used_page used is.used_links ∙ ap head e in
      let q =
        set_next_page_number (reused f free fp is.good here free_links is.counted)
          h.first_used_page in
      let ascending = subst (λ us. Ascending 0 us) e is.ascending in
      (
        q,
        record (rewritten f used free is fp pos below here num free_links q) {
          file_header = after f used free is fp pos below here num free_links n;
        },
        to_reuse fuel (at_head f free fp is.good here free_links is.counted q) (
            reuse_before f free fp is.good here free_links is.counted fuel
              (ap (ltb n) first ∙ less)),
        refl,
        subst
            (λ us.
              IsFile
                (record (rewritten f used free is fp pos below here num free_links q) {
                  file_header = after f used free is fp pos below here num free_links n;
                })
                us free)
            (ap (λ us. n ∷ us) e ∙ rw less refl ∙ ap (insert_sorted n) (sym e))
            (IsFile-head f used free is fp pos below here num free_links q refl refl
              (subst (λ us. Ascending 0 (n ∷ us)) (sym e) (pos, (ground arith, ascending.1)))),
        Keeps-one f is.good n q pos (small f used free is fp pos below here num free_links)
            (near f used free is fp pos below here num free_links) narrow
            (after f used free is fp pos below here num free_links n),
        refl,
        fetch-one f is.good n q pos (small f used free is fp pos below here num free_links)
            (near f used free is fp pos below here num free_links) narrow
            (after f used free is fp pos below here num free_links n),
      )

  run_behind :
      (fuel x : ℕ) (xs : List ℕ)
      → used ≡ x ∷ xs
      → ltb n x ≡ false
      → length used ≤ fuel
      → Reused fuel
  run_behind fuel x xs e more enough =
      let first : h.first_used_page ≡ x =
        Links-head (fetch f) own h.num_pages h.first_used_page used is.used_links ∙ ap head e in
      let (zs, y, bs, split, ps, on, ins) =
        place n x xs (subst (λ us. Ascending 0 us) e is.ascending) more in
      let split' = e ∙ split in
      let links =
        subst (λ us. Links (fetch f) own h.num_pages h.first_used_page us) split' is.used_links in
      let (pos_y, below_y, p, there, num_y, rest) =
        Links-at (fetch f) own h.num_pages h.first_used_page zs y bs links in
      let ins' : insert_sorted n used ≡ zs ++ y ∷ n ∷ bs = ap (insert_sorted n) e ∙ ins in
      let last = Links-head (fetch f) own h.num_pages (next_page_number p) bs rest in
      let lens = ap (λ (us : List ℕ). length us) split' in
      let count = length-middle zs y bs in
      let longer = length-append_le zs bs in
      (
        new_page f used free is fp pos below here num free_links zs y bs split' ins' p pos_y below_y
            there num_y,
        record (relinked f used free is fp pos below here num free_links zs y bs split' ins' p pos_y
            below_y there num_y) {
              file_header = after f used free is fp pos below here num free_links h.first_used_page;
            },
        to_reuse fuel (behind f free fp is.good here free_links is.counted p) (
              reuse_behind f free fp is.good here free_links is.counted fuel zs y bs p links ps
                there (ap (stops n) last ∙ on) (ap (ltb n) first ∙ more) (omega arith))
            ∙ ap
                (λ (g : File). (
                  ok (
                      new_page f used free is fp pos below here num free_links zs y bs split' ins' p
                        pos_y below_y there num_y),
                  record g {
                    file_header =
                        after f used free is fp pos below here num free_links h.first_used_page;
                  },
                ))
                (behind-written f used free is fp pos below here num free_links zs y bs split' ins'
                  p pos_y below_y there num_y),
        refl,
        IsFile-behind f used free is fp pos below here num free_links zs y bs split' ins' p pos_y
            below_y there num_y,
        (let c = is.count in
            Keeps-then f is.good n
              (new_page f used free is fp pos below here num free_links zs y bs split' ins' p pos_y
                below_y there num_y)
              pos (small f used free is fp pos below here num free_links)
              (near f used free is fp pos below here num free_links) narrow
              (after f used free is fp pos below here num free_links h.first_used_page) y n p there
              pos_y below_y (omega arith)
              (ne f used free is fp pos below here num free_links zs y bs split' ins' p pos_y
                below_y there num_y)),
        refl,
        (let c = is.count in
            fetch-then f is.good n
              (new_page f used free is fp pos below here num free_links zs y bs split' ins' p pos_y
                below_y there num_y)
              pos (small f used free is fp pos below here num free_links)
              (near f used free is fp pos below here num free_links) narrow
              (after f used free is fp pos below here num free_links h.first_used_page) y n p there
              pos_y below_y (omega arith)
              (ne f used free is fp pos below here num free_links zs y bs split' ins' p pos_y
                below_y there num_y)),
      )

  pub by_used :
      (fuel : ℕ) (us : List ℕ)
      → used ≡ us
      → (¬ (used ≡ [])) ⊎ (free ≡ [])
      → length used ≤ fuel
      → Reused fuel
  by_used fuel [] e (inl some_used) enough = absurd (some_used e)
  by_used fuel [] e (inr none_free) enough = run_first fuel e none_free
  by_used fuel (x ∷ xs) e either enough = elim (Bool-cases (ltb n x)) [
    | inl less ↦ run_before fuel x xs e less
    | inr more ↦ run_behind fuel x xs e more enough
  ]
