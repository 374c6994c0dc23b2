-- ===== src/Tests/Bytes.antt =====
-- Writes to a file's bytes, one of them behind the end, and the theorem on them applied.
use hit_database_exp3p2_cpp.Base.{ℕ, ◌<◌, ◌^◌, ◌≡◌, refl, List, [], ◌∷◌, arith, length-replicate}
use hit_database_exp3p2_cpp.Page.{initialize}
use hit_database_exp3p2_cpp.File.Stream.{FileHeader, read_header, read_page_header, fetch}
use hit_database_exp3p2_cpp.File.Bytes.{read_header_bytes, read_page_header_bytes, read_page_bytes}
use hit_database_exp3p2_cpp.File.Bytes.Image.{file_bytes, PageFits}
use hit_database_exp3p2_cpp.File.Bytes.Writes.{
  FileFits, Write, WritesFit, header, page, writes, writes_bytes,
}
use hit_database_exp3p2_cpp.File.Bytes.Reads.{delivered}
use hit_database_exp3p2_cpp.File.Bytes.Refines.{writes_bytes-file_bytes}
use hit_database_exp3p2_cpp.Tests.Files.{gap_file, numbered}

abbrev longer : FileHeader
longer = record { num_pages = 7; first_used_page = 1; num_free_pages = 1; first_free_page = 2 }

-- The file has three pages; pages 4 and 5 are skipped.
abbrev two_writes : List Write
two_writes = header longer ∷ page 6 (numbered 6 0) ∷ []

fits_in_memory : (n k : ℕ) → n < 2 ^ 32 → k < 2 ^ 32 → PageFits (numbered n k)
unfolding initialize
fits_in_memory n k small_n small_k = record {
  header = record {
    lower = omega arith;
    upper = omega arith;
    num_slots = omega arith;
    num_free_slots = omega arith;
    current_page_number = small_n;
    next_page_number = small_k;
  };
  whole = length-replicate {A = ℕ} 8176 0;
}

gap_file-FileFits : FileFits gap_file
gap_file-FileFits = record {
  good = refl;
  header = omega arith;
  pages = (
    fits_in_memory 1 3 (omega arith) (omega arith),
    (
      fits_in_memory 0 0 (omega arith) (omega arith),
      (fits_in_memory 3 0 (omega arith) (omega arith), tt),
    ),
  );
}

two_writes-WritesFit : WritesFit two_writes
two_writes-WritesFit = (omega arith, (fits_in_memory 6 0 (omega arith) (omega arith), tt))

writes_bytes-file_bytes_example :
    (writes_bytes two_writes (file_bytes gap_file) ≡ file_bytes (writes two_writes gap_file))
    × ((read_header (writes two_writes gap_file)).0
        ≡ delivered (read_header_bytes (writes_bytes two_writes (file_bytes gap_file))))
    × ((read_page_header 5 (writes two_writes gap_file)).0
        ≡ delivered (read_page_header_bytes 5 (writes_bytes two_writes (file_bytes gap_file))))
    × (fetch (writes two_writes gap_file) 5
        ≡ read_page_bytes 5 (writes_bytes two_writes (file_bytes gap_file)))
writes_bytes-file_bytes_example =
    writes_bytes-file_bytes two_writes gap_file 5 two_writes-WritesFit gap_file-FileFits
