-- ===== src/File/Links.antt =====
-- The linked lists of a file's pages: the used pages and the free ones (src/file.h).
use hit_database_exp3p2_cpp.Base.{
  ℕ, ◌+◌, ◌^◌, true, ◌≤◌, ◌<◌, ◌≡◌, sym, ◌∙◌, ap, Option, some, List, [], ◌∷◌, ◌++◌, arith, length,
}
use hit_database_exp3p2_cpp.File.Stream.{File, FileHeader, fetch}
use hit_database_exp3p2_cpp.Page.{Page, page_number, next_page_number}

-- From page `n` on, the pointers lead through the pages of the list and end in 0. Each page carries
-- the number that `tag` gives it: its own if it is used, 0 if it is free.
abbrev pub Links : (ℕ → Option Page) → (ℕ → ℕ) → ℕ → ℕ → List ℕ → Type 0
Links disk tag top n [] = n ≡ 0
Links disk tag top n (x ∷ xs) =
    (n ≡ x)
    × (0 < x)
    × (x < top)
    × (p : Page) × (disk x ≡ some p)
    × (page_number p ≡ tag x)
    × Links disk tag top (next_page_number p) xs

abbrev pub Ascending : ℕ → List ℕ → Type 0
Ascending lo [] = Unit {0}
Ascending lo (x ∷ xs) = (lo < x) × Ascending x xs

abbrev pub NotIn : ℕ → List ℕ → Type 0
NotIn y [] = Unit {0}
NotIn y (x ∷ xs) = (¬ (y ≡ x)) × NotIn y xs

abbrev pub Distinct : List ℕ → Type 0
Distinct [] = Unit {0}
Distinct (x ∷ xs) = NotIn x xs × Distinct xs

-- The tag of a used page and of a free one.
abbrev pub own : ℕ → ℕ
own x = x

abbrev pub zero_tag : ℕ → ℕ
zero_tag x = 0

pub NotIn-above : (y lo : ℕ) (xs : List ℕ) → y ≤ lo → Ascending lo xs → NotIn y xs
NotIn-above y lo [] h a = tt
NotIn-above y lo (x ∷ xs) h a = (omega arith, NotIn-above y x xs (omega arith) a.1)

pub NotIn-append : (y : ℕ) (xs ys : List ℕ) → NotIn y (xs ++ ys) → NotIn y xs × NotIn y ys
NotIn-append y [] ys h = (tt, h)
NotIn-append y (x ∷ xs) ys h = let (a, b) = NotIn-append y xs ys h.1 in ((h.0, a), b)

-- A page with another tag than the list's is not in the list.
pub NotIn-tag :
    (disk : ℕ → Option Page) (tag : ℕ → ℕ) (top n : ℕ) (xs : List ℕ) (y : ℕ) (p : Page)
    → disk y ≡ some p
    → ¬ (page_number p ≡ tag y)
    → Links disk tag top n xs
    → NotIn y xs
NotIn-tag disk tag top n [] y p e ne l = tt
NotIn-tag disk tag top n (x ∷ xs) y p e ne (a, b, c, q, d, t, l) = (
  λ same.
      let d' : disk y ≡ some q = ap disk same ∙ d in
      let pq : p ≡ q = cc in ne (ap (λ (r : Page). page_number r) pq ∙ t ∙ ap tag (sym same)),
  NotIn-tag disk tag top (next_page_number q) xs y p e ne l,
)

-- A page beyond the top is not in the list.
pub NotIn-top :
    (disk : ℕ → Option Page) (tag : ℕ → ℕ) (top n : ℕ) (xs : List ℕ) (y : ℕ)
    → top ≤ y
    → Links disk tag top n xs
    → NotIn y xs
NotIn-top disk tag top n [] y h l = tt
NotIn-top disk tag top n (x ∷ xs) y h (a, b, c, q, d, t, l) =
    (omega arith, NotIn-top disk tag top (next_page_number q) xs y h l)

-- A write to a page outside the list keeps the list.
pub Links-frame :
    (disk disk' : ℕ → Option Page) (tag : ℕ → ℕ) (top top' n : ℕ) (xs : List ℕ) (y : ℕ)
    → top ≤ top'
    → ((x : ℕ) → 0 < x → x < top → ¬ (y ≡ x) → disk' x ≡ disk x)
    → NotIn y xs
    → Links disk tag top n xs
    → Links disk' tag top' n xs
Links-frame disk disk' tag top top' n [] y h same out l = l
Links-frame disk disk' tag top top' n (x ∷ xs) y h same out (a, b, c, q, d, t, l) = (
  a,
  b,
  omega arith,
  q,
  same x b c out.0 ∙ d,
  t,
  Links-frame disk disk' tag top top' (next_page_number q) xs y h same out.1 l,
)

-- A well-formed file, with its used pages, in the order of their numbers, and its
-- free pages, in the order in which they will be reused. Each page on disk is in one of the lists.
pub record IsFile (f : File) (used free : List ℕ) : Type 0 where
  pub good : f.good ≡ true
  pub count : f.file_header.num_pages ≡ length f.pages + 1
  pub small : f.file_header.num_pages < 2 ^ 32
  pub used_links : Links (fetch f) own f.file_header.num_pages f.file_header.first_used_page used
  pub free_links :
      Links (fetch f) zero_tag f.file_header.num_pages f.file_header.first_free_page free
  pub ascending : Ascending 0 used
  pub distinct : Distinct free
  pub counted : f.file_header.num_free_pages ≡ length free
  pub all : length used + length free ≡ length f.pages

-- A file whose header is written last.
pub IsFile-with_header :
    (f : File) (h : FileHeader) (used free : List ℕ)
    → f.good ≡ true
    → h.num_pages ≡ length f.pages + 1
    → h.num_pages < 2 ^ 32
    → Links (fetch f) own h.num_pages h.first_used_page used
    → Links (fetch f) zero_tag h.num_pages h.first_free_page free
    → Ascending 0 used
    → Distinct free
    → h.num_free_pages ≡ length free
    → length used + length free ≡ length f.pages
    → IsFile (record f { file_header = h }) used free
unfolding fetch
IsFile-with_header f h used free good count small used_links free_links ascending distinct counted
      all =
    record {
      good = good;
      count = count;
      small = small;
      used_links = used_links;
      free_links = free_links;
      ascending = ascending;
      distinct = distinct;
      counted = counted;
      all = all;
    }
