-- ===== src/File/Bytes.antt =====
-- The bytes of a file on disk, and the reads and writes of headers and pages as seeks and transfers of
-- bytes (src/file.cpp). Numbers stand in them as on a little-endian machine.
pub mod Numbers
pub mod Blocks
pub mod Image
pub mod Writes
pub mod Reads
pub mod Refines
use hit_database_exp3p2_cpp.Base.{
  ℕ, ◌+◌, ◌-◌, ◌*◌, ◌/◌, ◌%◌, ◌^◌, Option, none, some, List, [], ◌∷◌, ◌++◌, leb, if◌then◌else◌,
  length, replicate, byte, slice, splice,
}
use hit_database_exp3p2_cpp.Page.{Page, PageHeader, header_size, data_size}
use hit_database_exp3p2_cpp.File.Stream.{FileHeader, file_header_size, page_position}

-- The bytes of a std::uint16_t and of a std::uint32_t, and back.
abbrev pub bytes16 : ℕ → List ℕ
bytes16 v = (v % 256) ∷ (v / 256 % 256) ∷ []

abbrev pub bytes32 : ℕ → List ℕ
bytes32 v = (v % 256) ∷ (v / 256 % 256) ∷ (v / 65536 % 256) ∷ (v / 16777216 % 256) ∷ []

abbrev pub number16 : List ℕ → ℕ → ℕ
number16 bs k = byte bs k + 256 * byte bs (k + 1)

abbrev pub number32 : List ℕ → ℕ → ℕ
number32 bs k = number16 bs k + 65536 * number16 bs (k + 2)

-- reinterpret_cast<char*>(&header), of a FileHeader and of a PageHeader.
unfoldable pub file_header_bytes : FileHeader → List ℕ
file_header_bytes h =
    bytes32 h.num_pages
    ++ (bytes32 h.first_used_page ++ (bytes32 h.num_free_pages ++ bytes32 h.first_free_page))

unfoldable pub file_header_of : List ℕ → FileHeader
file_header_of bs = record {
  num_pages = number32 bs 0;
  first_used_page = number32 bs 4;
  num_free_pages = number32 bs 8;
  first_free_page = number32 bs 12;
}

unfoldable pub page_header_bytes : PageHeader → List ℕ
page_header_bytes h =
    bytes16 h.free_space_lower_bound
    ++ (bytes16 h.free_space_upper_bound
        ++ (bytes16 h.num_slots
            ++ (bytes16 h.num_free_slots
                ++ (bytes32 h.current_page_number ++ bytes32 h.next_page_number))))

unfoldable pub page_header_of : List ℕ → PageHeader
page_header_of bs = record {
  free_space_lower_bound = number16 bs 0;
  free_space_upper_bound = number16 bs 2;
  num_slots = number16 bs 4;
  num_free_slots = number16 bs 6;
  current_page_number = number32 bs 8;
  next_page_number = number32 bs 12;
}

-- seekp and write; what is skipped behind the end is zeros.
unfoldable pub stream_write : ℕ → List ℕ → List ℕ → List ℕ
stream_write pos t bs = splice (bs ++ replicate (pos - length bs) 0) pos (length t) t

-- seekg and read; a read past the end fails.
unfoldable pub stream_read : ℕ → ℕ → List ℕ → Option (List ℕ)
stream_read pos n bs = if leb (pos + n) (length bs) then some (slice bs pos n) else none

unfoldable pub write_header_bytes : FileHeader → List ℕ → List ℕ
write_header_bytes h bs = stream_write 0 (file_header_bytes h) bs

unfoldable pub read_header_bytes : List ℕ → Option FileHeader
read_header_bytes bs = elim (stream_read 0 file_header_size bs) [
  | none ↦ none
  | some header ↦ some (file_header_of header)
]

-- writePage(page_number, header, new_page): the second write goes on where the first one ends.
unfoldable pub write_page_bytes : ℕ → PageHeader → Page → List ℕ → List ℕ
write_page_bytes n header new_page bs =
    let pos = page_position n in
    stream_write (pos + header_size) new_page.data_ (stream_write pos (page_header_bytes header) bs)

unfoldable pub read_page_header_bytes : ℕ → List ℕ → Option PageHeader
read_page_header_bytes n bs = elim (stream_read (page_position n) header_size bs) [
  | none ↦ none
  | some header ↦ some (page_header_of header)
]

-- The two reads of readPage(page_number, allow_free).
unfoldable pub read_page_bytes : ℕ → List ℕ → Option Page
read_page_bytes n bs =
    let pos = page_position n in
    elim (stream_read pos header_size bs) [
      | none ↦ none
      | some header ↦ elim (stream_read (pos + header_size) data_size bs) [
        | none ↦ none
        | some string ↦ some (record { header = page_header_of header; data_ = string })
      ]
    ]
