-- ===== src/File/Bytes/Numbers.antt =====
-- The bytes of the headers' numbers (src/file.cpp).
use hit_database_exp3p2_cpp.Base.{ℕ, ◌+◌, ◌*◌, ◌/◌, ◌%◌, ◌^◌, ◌<◌, ◌≡◌, refl, arith, length}
use hit_database_exp3p2_cpp.Page.{PageHeader}
use hit_database_exp3p2_cpp.File.Stream.{FileHeader}
use hit_database_exp3p2_cpp.File.Bytes.{
  file_header_bytes, file_header_of, page_header_bytes, page_header_of,
}

-- Headers whose fields fit in their types.
pub record FileHeaderFits (h : FileHeader) : Type 0 where
  pub num_pages : h.num_pages < 2 ^ 32
  pub first_used_page : h.first_used_page < 2 ^ 32
  pub num_free_pages : h.num_free_pages < 2 ^ 32
  pub first_free_page : h.first_free_page < 2 ^ 32

pub record PageHeaderFits (h : PageHeader) : Type 0 where
  pub lower : h.free_space_lower_bound < 2 ^ 16
  pub upper : h.free_space_upper_bound < 2 ^ 16
  pub num_slots : h.num_slots < 2 ^ 16
  pub num_free_slots : h.num_free_slots < 2 ^ 16
  pub current_page_number : h.current_page_number < 2 ^ 32
  pub next_page_number : h.next_page_number < 2 ^ 32

number16-bytes16 : (v : ℕ) → v < 2 ^ 16 → v % 256 + 256 * (v / 256 % 256) ≡ v
number16-bytes16 v h = omega arith

number32-bytes32 :
    (v : ℕ)
    → v < 2 ^ 32
    → v % 256 + 256 * (v / 256 % 256) + 65536 * (v / 65536 % 256 + 256 * (v / 16777216 % 256)) ≡ v
number32-bytes32 v h = omega arith

pub file_header_of-file_header_bytes :
    (h : FileHeader) → FileHeaderFits h → file_header_of (file_header_bytes h) ≡ h
unfolding file_header_of file_header_bytes
file_header_of-file_header_bytes h fits = cc (
  number32-bytes32 h.num_pages fits.num_pages,
  number32-bytes32 h.first_used_page fits.first_used_page,
  number32-bytes32 h.num_free_pages fits.num_free_pages,
  number32-bytes32 h.first_free_page fits.first_free_page,
)

pub page_header_of-page_header_bytes :
    (h : PageHeader) → PageHeaderFits h → page_header_of (page_header_bytes h) ≡ h
unfolding page_header_of page_header_bytes
page_header_of-page_header_bytes h fits = cc (
  number16-bytes16 h.free_space_lower_bound fits.lower,
  number16-bytes16 h.free_space_upper_bound fits.upper,
  number16-bytes16 h.num_slots fits.num_slots,
  number16-bytes16 h.num_free_slots fits.num_free_slots,
  number32-bytes32 h.current_page_number fits.current_page_number,
  number32-bytes32 h.next_page_number fits.next_page_number,
)

pub length-file_header_bytes : (h : FileHeader) → length (file_header_bytes h) ≡ 16
unfolding file_header_bytes
length-file_header_bytes h = refl

pub length-page_header_bytes : (h : PageHeader) → length (page_header_bytes h) ≡ 16
unfolding page_header_bytes
length-page_header_bytes h = refl
