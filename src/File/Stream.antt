-- ===== src/File/Stream.antt =====
-- The stream under a file object, and the reads and writes of headers and pages on it
-- (src/file.h and src/file.cpp).
use hit_database_exp3p2_cpp.Base.{
  ℕ, zero, suc, ◌+◌, ◌-◌, ◌*◌, ◌%◌, ◌^◌, String, Bool, true, false, Option, none, some, List, [],
  ◌∷◌, if◌then◌else◌,
}
use hit_database_exp3p2_cpp.Result.{Result, ok, throws, undefined}
use hit_database_exp3p2_cpp.Result.Exceptions.{Exception}
use hit_database_exp3p2_cpp.Page.{Page, PageHeader, initialize, size}

pub record FileHeader : Type 0 where
  pub num_pages : ℕ
  pub first_used_page : ℕ
  pub num_free_pages : ℕ
  pub first_free_page : ℕ

-- `good` is the stream's state: open, and with no fail bit.
pub record File : Type 0 where
  pub filename : String
  pub good : Bool
  pub file_header : FileHeader
  pub pages : List Page

-- What a method does: its outcome, and the file after it.
abbrev pub M : Type 0 → Type 0
M A = File → Result A × File

abbrev pub return : {A : Type 0} → A → M A
return a f = (ok a, f)

abbrev pub continue : {A B : Type 0} → Result A → File → (A → M B) → Result B × File
continue (ok a) f k = k a f
continue (throws e) f k = (throws e, f)
continue undefined f k = (undefined, f)

infixl 5 ◌>>=◌ ◌>>◌
abbrev pub ◌>>=◌ : {A B : Type 0} → M A → (A → M B) → M B
◌>>=◌ m k f = continue (m f).0 (m f).1 k

abbrev pub ◌>>◌ : {B : Type 0} → M (Unit {0}) → M B → M B
m >> k = m >>= λ _. k

abbrev pub fault : {A : Type 0} → M A
fault f = (undefined, f)

-- `if (!holds) throw e;`
abbrev pub require : Bool → Exception → M (Unit {0})
require true e f = (ok tt, f)
require false e f = (throws e, f)

-- `assert(holds)`
abbrev pub demand : Bool → M (Unit {0})
demand true f = (ok tt, f)
demand false f = (undefined, f)

-- sizeof(FileHeader)
abbrev pub file_header_size : ℕ
file_header_size = 16

-- `page_number - 1` on a 32-bit number.
unfoldable pub page_index : ℕ → ℕ
page_index n = (n + 2 ^ 32 - 1) % 2 ^ 32

unfoldable pub page_position : ℕ → ℕ
page_position n = file_header_size + page_index n * size

-- The page whose bytes stand at a position of the file; none past the end.
abbrev pub get_elem? : List Page → ℕ → Option Page
get_elem? [] i = none
get_elem? (x ∷ xs) zero = some x
get_elem? (x ∷ xs) (suc i) = get_elem? xs i

-- The bytes of a page that was skipped by a write behind it.
abbrev pub blank : Page
blank = record {
  header = record {
    free_space_lower_bound = 0;
    free_space_upper_bound = 0;
    num_slots = 0;
    num_free_slots = 0;
    current_page_number = 0;
    next_page_number = 0;
  };
  data_ = initialize.data_;
}

-- A write at a position replaces the page there, or makes the file longer.
abbrev pub put : List Page → ℕ → Page → List Page
put [] zero p = p ∷ []
put [] (suc i) p = blank ∷ put [] i p
put (x ∷ xs) zero p = p ∷ xs
put (x ∷ xs) (suc i) p = x ∷ put xs i p

-- What a read at a page's position delivers.
unfoldable pub fetch : File → ℕ → Option Page
fetch f n = if f.good then get_elem? f.pages (page_index n) else none

-- The variable that a failed read was to fill is indeterminate.
unfoldable pub read_header : M FileHeader
read_header f = if f.good then (ok f.file_header, f) else (undefined, f)

unfoldable pub write_header : FileHeader → M (Unit {0})
write_header h f = (ok tt, (if f.good then record f { file_header = h } else f))

-- The two reads of readPage into a page that is initialized.
unfoldable pub read_raw : ℕ → M Page
read_raw n f = elim (fetch f n) [
  | some p ↦ (ok p, f)
  | none ↦ (ok initialize, record f { good = false })
]

unfoldable pub read_page_header : ℕ → M PageHeader
read_page_header n f = elim (fetch f n) [
  | some p ↦ (ok p.header, f)
  | none ↦ (undefined, record f { good = false })
]

-- writePage(page_number, header, new_page).
unfoldable pub write_page_at : ℕ → PageHeader → Page → M (Unit {0})
write_page_at n header new_page f = (
  ok tt,
  (if f.good
      then record f {
        pages = put f.pages (page_index n) (record { header = header; data_ = new_page.data_ });
      }
      else f),
)
