-- ===== src/Driver/Block/Adds.antt =====
-- The block of main() in src/main.cpp on a new file, and what it leaves on disk.
use hit_database_exp3p2_cpp.Base.{
  ℕ, zero, suc, ◌+◌, ◌≤◌, ◌<◌, ◌≡◌, refl, sym, subst, ◌∙◌, ap, true, ◌==◌, ==-ne, some, List, [],
  ◌∷◌, ◌++◌, arith, length, get_or,
}
use hit_database_exp3p2_cpp.Result.{ok}
use hit_database_exp3p2_cpp.Page.{Page, page_number}
use hit_database_exp3p2_cpp.Page.Iterator.{iterate_page}
use hit_database_exp3p2_cpp.Page.Stacked.{
  Stacked, Stacked-content, insert_record-Stacked, iterate_page-Stacked, get_record-Stacked,
}
use hit_database_exp3p2_cpp.File.{read_page}
use hit_database_exp3p2_cpp.File.Stream.{File, fetch}
use hit_database_exp3p2_cpp.File.Access.{read_page_lem}
use hit_database_exp3p2_cpp.File.Links.{IsFile}
use hit_database_exp3p2_cpp.File.Store.{write_page_written}
use hit_database_exp3p2_cpp.File.Fill.Loop.{upto}
use hit_database_exp3p2_cpp.File.Fill.Rounds.{Has}
use hit_database_exp3p2_cpp.File.Reached.{
  Pages, assign, content, Reached, written, Represents, Shows,
}
use hit_database_exp3p2_cpp.File.Reached.Represented.{Reached-Represents}
use hit_database_exp3p2_cpp.Driver.Block.{add_and_read}

pub get_or-upto : (i n k : ℕ) → k < n → get_or (upto i n) k 0 ≡ i + k
get_or-upto i zero k low = absurd (omega arith)
get_or-upto i (suc n) zero low = omega arith
get_or-upto i (suc n) (suc k) low = get_or-upto (i + 1) n k (omega arith) ∙ omega arith

pub upto-split :
    (i n k : ℕ) → k < n → (xs : List ℕ) × (ys : List ℕ) × (upto i n ≡ xs ++ (i + k) ∷ ys)
upto-split i zero k low = absurd (omega arith)
upto-split i (suc n) zero low =
    let e : i ≡ i + 0 = omega arith in ([], upto (i + 1) n, ap (λ j. j ∷ upto (i + 1) n) e)
upto-split i (suc n) (suc k) low =
    let (xs, ys, e) = upto-split (i + 1) n k (omega arith) in
    let same : i + 1 + k ≡ i + suc k = omega arith in
    (i ∷ xs, ys, ap (λ zs. i ∷ zs) (e ∙ ap (λ j. xs ++ j ∷ ys) same))

-- What the map has for a page is what the page on disk holds.
Has-Stacked :
    {f : File} {used free : List ℕ} {m : Pages}
    → Represents f used free m
    → (rs : List (List ℕ)) (n : ℕ) → 0 < n
    → n < f.file_header.num_pages
    → Has rs m n
    → (p : Page) × (fetch f n ≡ some p) × Stacked n rs p
Has-Stacked rep rs n pos below (q, at_n, s) =
    let (p, here, shown) = rep.stands n pos below in
    let (num, same) = subst (λ o. Shows n p o) at_n shown in (p, here, Stacked-content p q same s)

-- readPage, and the loop over the records of what it returns.
pub Has-reads :
    {f : File} {used free : List ℕ} {m : Pages}
    → Represents f used free m
    → (rs : List (List ℕ)) (n visits : ℕ) → 0 < n
    → n < f.file_header.num_pages
    → length rs < visits
    → Has rs m n
    → (p : Page) × (read_page n f ≡ (ok p, f)) × (iterate_page visits p ≡ ok rs)
Has-reads {f = f} rep rs n visits pos below more has =
    let (p, here, s) = Has-Stacked rep rs n pos below has in
    let num = s.number in
    (
      p,
      read_page_lem f rep.is.good n p here below (omega arith),
      iterate_page-Stacked s visits more,
    )

module _ {f : File} {m : Pages} (xs ys : List ℕ) (n : ℕ) (r w : List ℕ)
    (before : Reached f (xs ++ n ∷ ys) [] m) (pos : 0 < n) (below : n < f.file_header.num_pages)
    (has : Has (r ∷ []) m n) (some_bytes : 0 < length w)
    (room : length r + length w + 12 ≤ 8176) where
  pub add_and_read_lem :
      (f' : File) × (m' : Pages) × (add_and_read n w f ≡ (ok w, f'))
      × Reached f' (xs ++ n ∷ ys) [] m'
      × Has (r ∷ w ∷ []) m' n
      × ((k : ℕ) → ¬ (k ≡ n) → m' k ≡ m k)
  unfolding add_and_read
  add_and_read_lem =
      let rep = Reached-Represents before in
      let (p, here, s) = Has-Stacked rep (r ∷ []) n pos below has in
      let num = s.number in
      let (q, inserted, t) = insert_record-Stacked (r ∷ []) w s some_bytes (omega arith) in
      let number : page_number q ≡ n = t.number in
      let (p0, f', there, wrote, is, read, named, kept, at_q) =
        write_page_written f q xs ys []
          (subst (λ k. IsFile f (xs ++ k ∷ ys) []) (sym number) rep.is) in
      (
        f',
        assign m (page_number q) (some (content q)),
        rw (read_page_lem f rep.is.good n p here below (omega arith))
            (rw inserted (rw wrote (ap (λ x. (x, f')) (get_record-Stacked t 1 (omega arith))))),
        subst (λ k. Reached f' (xs ++ k ∷ ys) [] (assign m (page_number q) (some (content q))))
            number
            (written q xs ys (subst (λ k. Reached f (xs ++ k ∷ ys) [] m) (sym number) before)
              wrote),
        (q, (let e : (n == page_number q) ≡ true = ground arith in rw e refl), t),
        λ k other. rw (==-ne k (page_number q) (λ e. other (e ∙ number))) refl,
      )
