-- ===== src/File/Iterator.antt =====
-- FileIterator (src/file_iterator.h), and File::begin and File::end (src/file.cpp).
-- The pointer to the file is kept as the file's name, which is what the comparison looks at; the
-- operations run on the file that the pointer leads to.
use text.Mathlib.Text.{◌==◌ as same_text}
use text.Mathlib.TextPositions.{eq_refl}
use hit_database_exp3p2_cpp.Base.{
  ℕ, zero, suc, ◌<◌, ◌≡◌, refl, ◌∙◌, ap, String, Bool, true, false, ◌&&◌, ◌==◌, some, List, [], ◌∷◌,
  ==-ne, arith, length,
}
use hit_database_exp3p2_cpp.Result.{ok}
use hit_database_exp3p2_cpp.Page.{Page, page_number, next_page_number, invalid_number}
use hit_database_exp3p2_cpp.File.{read_page}
use hit_database_exp3p2_cpp.File.Stream.{
  File, M, return, ◌>>=◌, fault, fetch, read_header, read_page_header,
}
use hit_database_exp3p2_cpp.File.Access.{read_header_lem, read_page_lem, read_page_header_lem}
use hit_database_exp3p2_cpp.File.Links.{Links, IsFile, own}

pub record FileIterator : Type 0 where
  pub filename : String
  pub current_page_number : ℕ

unfoldable pub begin : M FileIterator
begin f =
    (do
      header ← read_header
      return (record { filename = f.filename; current_page_number = header.first_used_page }))
      f

unfoldable pub end : File → FileIterator
end f = record { filename = f.filename; current_page_number = invalid_number }

-- operator++
unfoldable pub advance : FileIterator → M FileIterator
advance it = do
  header ← read_page_header it.current_page_number
  return (record it { current_page_number = header.next_page_number })

-- operator==
unfoldable pub is_equal : FileIterator → FileIterator → Bool
is_equal it rhs =
    same_text it.filename rhs.filename && it.current_page_number == rhs.current_page_number

-- operator*
unfoldable pub deref : FileIterator → M Page
deref it = read_page it.current_page_number

-- `for (; iter != end(); ++iter)`, with the pages that `*iter` gives. Out of fuel stands for a loop
-- that does not end.
unfoldable pub iterate : ℕ → FileIterator → M (List Page)
iterate zero it f = fault f
iterate (suc fuel) it f =
    elim (is_equal it (end f)) as (λ _. M (List Page)) [
      | true ↦ return []
      | false ↦ do
        page ← deref it
        next ← advance it
        pages ← iterate fuel next
        return (page ∷ pages)
    ]
      f

-- The loop over all pages of a file.
unfoldable pub iterate_file : ℕ → M (List Page)
iterate_file fuel = do iter ← begin; iterate fuel iter

-- The numbers that the pages carry.
abbrev pub numbers : List Page → List ℕ
numbers [] = []
numbers (p ∷ ps) = page_number p ∷ numbers ps

-- Each page stands on disk under its number.
abbrev pub OnDisk : File → List Page → Type 0
OnDisk f [] = Unit {0}
OnDisk f (p ∷ ps) = (fetch f (page_number p) ≡ some p) × OnDisk f ps

abbrev pub at : File → ℕ → FileIterator
at f n = record { filename = f.filename; current_page_number = n }

pub is_equal-end : (f : File) (n : ℕ) → is_equal (at f n) (end f) ≡ (n == 0)
unfolding is_equal end
is_equal-end f n = ap (λ b. b && n == 0) (eq_refl f.filename)

-- What a round does, by the answer of `iter != end()`.
abbrev round : ℕ → FileIterator → Bool → M (List Page)
round fuel it true = return []
round fuel it false = do
  page ← deref it
  next ← advance it
  pages ← iterate fuel next
  return (page ∷ pages)

iterate-round :
    (fuel : ℕ) (it : FileIterator) (f : File)
    → iterate (suc fuel) it f ≡ round fuel it (is_equal it (end f)) f
unfolding iterate
iterate-round fuel it f = by_case (is_equal it (end f))
  where
    by_case :
        (b : Bool)
        → (elim b as (λ _. M (List Page)) [
          | true ↦ return []
          | false ↦ do
            page ← deref it
            next ← advance it
            pages ← iterate fuel next
            return (page ∷ pages)
        ])
            f
          ≡ round fuel it b f
    by_case true = refl
    by_case false = refl

module _ (f : File) (good : f.good ≡ true) where
  iterate_end : (fuel : ℕ) → iterate (suc fuel) (at f 0) f ≡ (ok [], f)
  iterate_end fuel =
      iterate-round fuel (at f 0) f ∙ ap (λ b. round fuel (at f 0) b f) (is_equal-end f 0)

  module _ (n : ℕ) (p : Page) (pos : 0 < n) (below : n < f.file_header.num_pages)
      (here : fetch f n ≡ some p) (num : page_number p ≡ n) where
    round_lem :
        (fuel : ℕ) (ps : List Page)
        → iterate fuel (at f (next_page_number p)) f ≡ (ok ps, f)
        → round fuel (at f n) false f ≡ (ok (p ∷ ps), f)
    unfolding deref advance
    round_lem fuel ps e =
        rw
          (
            read_page_lem f good n p here below (omega arith),
            read_page_header_lem f good n p here,
            e,
          )
          refl

    iterate_on :
        (fuel : ℕ) (ps : List Page)
        → iterate fuel (at f (next_page_number p)) f ≡ (ok ps, f)
        → iterate (suc fuel) (at f n) f ≡ (ok (p ∷ ps), f)
    iterate_on fuel ps e =
        iterate-round fuel (at f n) f
        ∙ ap (λ b. round fuel (at f n) b f) (is_equal-end f n ∙ ==-ne n 0 (omega arith))
        ∙ round_lem fuel ps e

  iterate-Links :
      (fuel n : ℕ) (xs : List ℕ)
      → Links (fetch f) own f.file_header.num_pages n xs
      → length xs < fuel
      → (ps : List Page) × (iterate fuel (at f n) f ≡ (ok ps, f)) × (numbers ps ≡ xs) × OnDisk f ps
  iterate-Links zero n xs l enough = absurd (omega arith)
  iterate-Links (suc fuel) n [] l enough =
      ([], ap (λ k. iterate (suc fuel) (at f k) f) l ∙ iterate_end fuel, refl, tt)
  iterate-Links (suc fuel) n (x ∷ xs) (a, b, c, p, d, num, l) enough =
      let (ps, e, nums, stored) = iterate-Links fuel (next_page_number p) xs l (omega arith) in
      (
        p ∷ ps,
        ap (λ k. iterate (suc fuel) (at f k) f) a ∙ iterate_on x p b c d num fuel ps e,
        ap2 num nums,
        (ap (fetch f) num ∙ d, stored),
      )
    where
      ap2 : {a b : ℕ} {xs ys : List ℕ} → a ≡ b → xs ≡ ys → a ∷ xs ≡ b ∷ ys
      ap2 e es = cc

-- In a well-formed file, the loop from `begin()` to `end()` ends, leaves the file as it is, and
-- reads its used pages, each one once and as it stands on disk, in the order of their numbers. Fuel
-- for one round more than there are used pages is enough.
pub iterate_file_used :
    (fuel : ℕ) (f : File) (used free : List ℕ)
    → IsFile f used free
    → length used < fuel
    → (ps : List Page) × (iterate_file fuel f ≡ (ok ps, f)) × (numbers ps ≡ used) × OnDisk f ps
unfolding iterate_file begin
iterate_file_used fuel f used free is enough =
    let (ps, e, nums, stored) =
      iterate-Links f is.good fuel f.file_header.first_used_page used is.used_links enough in
    (ps, rw (read_header_lem f is.good) e, nums, stored)
