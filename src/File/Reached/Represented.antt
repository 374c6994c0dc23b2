-- ===== src/File/Reached/Represented.antt =====
-- Each file that calls lead to stands for the map of the same calls (src/file.cpp).
use hit_database_exp3p2_cpp.Base.{
  ℕ, String, ◌+◌, ◌<◌, ◌≡◌, refl, sym, ◌∙◌, ap, subst, Option, none, some, List, [], ◌∷◌, ◌++◌,
  arith, length, inl, inr, ◌⊎◌, ◌==◌, Bool-cases, ==-ne,
}
use hit_database_exp3p2_cpp.Result.{Result, ok, ok-injective}
use hit_database_exp3p2_cpp.Page.{
  Page, page_number, next_page_number, set_next_page_number, set_page_number, initialize,
}
use hit_database_exp3p2_cpp.File.{allocate_page}
use hit_database_exp3p2_cpp.File.Stream.{File, fetch}
use hit_database_exp3p2_cpp.File.Links.{IsFile, own}
use hit_database_exp3p2_cpp.File.Relink.{Links-at, length-snoc, length-middle}
use hit_database_exp3p2_cpp.File.Kept.{Keeps}
use hit_database_exp3p2_cpp.File.Sorted.{length-insert_sorted}
use hit_database_exp3p2_cpp.File.Append.{allocate_page_appended}
use hit_database_exp3p2_cpp.File.Reused.{allocate_page_reused}
use hit_database_exp3p2_cpp.File.Remove.{delete_page_freed}
use hit_database_exp3p2_cpp.File.Store.{write_page_written}
use hit_database_exp3p2_cpp.File.Reached.{
  Pages, assign, content, blank, empty_file, Reached, start, appended, reused, deleted, written,
  Shows, Stands, Represents,
}

Shows-content :
    (n : ℕ) (p q : Page) (o : Option Page) → content p ≡ content q → Shows n p o → Shows n q o
Shows-content n p q none e (a, b) = (ap (λ (x : Page). page_number x) (sym e) ∙ a, sym e ∙ b)
Shows-content n p q (some r) e (a, b) = (ap (λ (x : Page). page_number x) (sym e) ∙ a, sym e ∙ b)

pub num_pages-IsFile :
    {f : File} {used free : List ℕ}
    → IsFile f used free
    → f.file_header.num_pages ≡ length used + length free + 1
num_pages-IsFile is = let c = is.count in let a = is.all in omega arith

-- A call that gives or takes page `n` and keeps the others.
assign-Represents :
    {f f' : File} {used free used' free' : List ℕ} {m : Pages}
    → Represents f used free m
    → (n : ℕ) (p : Page) (o : Option Page) → IsFile f' used' free'
    → (f'.file_header.num_pages ≡ f.file_header.num_pages)
      ⊎ ((f'.file_header.num_pages ≡ f.file_header.num_pages + 1) × (n ≡ f.file_header.num_pages))
    → n < f'.file_header.num_pages
    → Keeps f f' n
    → fetch f' n ≡ some p
    → Shows n p o
    → Represents f' used' free' (assign m n o)
assign-Represents {f} {f'} {m = m} rep n p o is size inside keeps at shows = record {
  is = is;
  stands = λ x pos below. elim (Bool-cases (x == n)) [
    | inl same ↦
        let e : n ≡ x = ground arith in
        rw same (subst (λ k. (p : Page) × (fetch f' k ≡ some p) × Shows k p o) e (p, at, shows))
    | inr other ↦
        let below' : x < f.file_header.num_pages = ground arith in
        let (q, here, shown) = rep.stands x pos below' in
        let (k, there) = keeps x q pos below' (λ e. ground arith) here in
        rw other (
          set_next_page_number q k,
          there,
          Shows-content x q (set_next_page_number q k) (m x) refl shown,
        )
  ];
  beyond = λ x above. rw (==-ne x n (omega arith)) (rep.beyond x (ground arith));
}

same_return :
    {A : Type 0} {a b : A} {f g : File}
    → ◌≡◌ {A = Result A × File} (ok a, f) (ok b, g)
    → (a ≡ b) × (f ≡ g)
same_return {A} e =
    (ok-injective (ap (λ (r : Result A × File). r.0) e), ap (λ (r : Result A × File). r.1) e)

start-Represents : (name : String) → Represents (empty_file name) [] [] (λ _. none)
start-Represents name = record {
  is = record {
    good = refl;
    count = refl;
    small = omega arith;
    used_links = refl;
    free_links = refl;
    ascending = tt;
    distinct = tt;
    counted = refl;
    all = refl;
  };
  stands = λ n pos below. absurd (omega arith);
  beyond = λ n above. refl;
}

-- What allocatePage has given, by the run that the call was.
allocated-Represents :
    (f : File) {f' : File} {used free : List ℕ} (m : Pages) {p : Page} (fuel n : ℕ) (p0 : Page)
    (f0 : File)
    → allocate_page fuel f ≡ (ok p0, f0)
    → allocate_page fuel f ≡ (ok p, f')
    → page_number p0 ≡ n
    → Represents f0 used free (assign m n (some (blank n)))
    → Represents f' used free (assign m (page_number p) (some (blank (page_number p))))
allocated-Represents f {f' = f'} {used = used} {free = free} m {p = p} fuel n p0 f0 run0 run number
      rep =
    let (ep, ef) = same_return (sym run0 ∙ run) in
    let en : n ≡ page_number p = sym number ∙ ap (λ (q : Page). page_number q) ep in
    subst (λ k. Represents f' used free (assign m k (some (blank k)))) en
      (subst (λ g. Represents g used free (assign m n (some (blank n)))) ef rep)

-- A free page has been given back blank.
free-content :
    (f : File) (n : ℕ) (fp : Page) (m : Pages)
    → 0 < n
    → fetch f n ≡ some fp
    → page_number fp ≡ 0
    → Stands f m n
    → content fp ≡ initialize
free-content f n fp m pos here unused (p, there, shown) =
    let same : p ≡ fp = cc in by_map (m n) (subst (λ (q : Page). Shows n q (m n)) same shown)
  where
    by_map : (o : Option Page) → Shows n fp o → content fp ≡ initialize
    by_map none s = s.1
    by_map (some q) s = absurd (omega (arith, s.0))

pub Reached-Represents :
    {f : File} {used free : List ℕ} {m : Pages} → Reached f used free m → Represents f used free m
unfolding initialize
Reached-Represents (start name) = start-Represents name
Reached-Represents (appended {f = f} {used = used} {m = m} before fuel room enough run) =
    let rep = Reached-Represents before in
    let top = f.file_header.num_pages in
    let (p0, f0, run0, number, is0, keeps, same, at) =
      allocate_page_appended fuel f used rep.is room enough in
    let size = num_pages-IsFile rep.is in
    let size0 = num_pages-IsFile is0 in
    let longer = length-snoc used top in
    allocated-Represents f m fuel top p0 f0 run0 run number (
      assign-Represents rep top p0 (some (blank top)) is0 (inr (omega arith, refl)) (omega arith)
        keeps at (number, ap content same))
Reached-Represents
      (reused {f = f} {used = used} {free = free} {n = n} {m = m} before fuel either enough run) =
    let rep = Reached-Represents before in
    let (a, pos, below, fp, here, unused, rest) = rep.is.free_links in
    let (p0, f0, run0, number, is0, keeps, fp', there, same, at) =
      allocate_page_reused fuel f used n free rep.is either enough in
    let size = num_pages-IsFile rep.is in
    let size0 = num_pages-IsFile is0 in
    let longer = length-insert_sorted n used in
    let ff : fp ≡ fp' = cc in
    let was = free-content f n fp m pos here unused (rep.stands n pos below) in
    allocated-Represents f m fuel n p0 f0 run0 run number (
      assign-Represents rep n p0 (some (blank n)) is0 (inl (omega arith)) (omega arith) keeps at (
        number,
        ap content same
            ∙ ap (λ (q : Page). set_page_number (content q) n) (sym ff)
            ∙ ap (λ (q : Page). set_page_number q n) was,
      ))
Reached-Represents
      (deleted {f = f} {f' = f'} {free = free} {m = m} n xs ys before fuel enough run) =
    let rep = Reached-Represents before in
    let (pos, below, p, here, num, rest) =
      Links-at (fetch f) own f.file_header.num_pages f.file_header.first_used_page xs n ys
        rep.is.used_links in
    let (f0, run0, is0, keeps, at) = delete_page_freed fuel f n xs ys free rep.is enough in
    let size = num_pages-IsFile rep.is in
    let size0 = num_pages-IsFile is0 in
    let shorter = length-middle xs n ys in
    subst (λ g. Represents g (xs ++ ys) (n ∷ free) (assign m n none))
      (same_return (sym run0 ∙ run)).1
      (assign-Represents rep n (set_next_page_number initialize f.file_header.first_free_page) none
        is0 (inl (omega arith)) (omega arith) keeps at (refl, refl))
Reached-Represents (written {f = f} {f' = f'} {free = free} {m = m} q xs ys before run) =
    let rep = Reached-Represents before in
    let n = page_number q in
    let (pos, below, p, here, num, rest) =
      Links-at (fetch f) own f.file_header.num_pages f.file_header.first_used_page xs n ys
        rep.is.used_links in
    let (p0, f0, there, run0, is0, read, named, keeps, at) =
      write_page_written f q xs ys free rep.is in
    let size = num_pages-IsFile rep.is in
    let size0 = num_pages-IsFile is0 in
    subst (λ g. Represents g (xs ++ n ∷ ys) free (assign m n (some (content q))))
      (same_return (sym run0 ∙ run)).1
      (assign-Represents rep n (set_next_page_number q (next_page_number p0)) (some (content q)) is0
        (inl (omega arith)) (omega arith) keeps at (refl, refl))
