-- ===== src/Tests/Files.antt =====
-- Files of two and three pages, and the theorems on files applied to them.
use hit_database_exp3p2_cpp.Base.{ℕ, ◌≡◌, refl, List, [], ◌∷◌, true, arith, inl, some, replicate}
use hit_database_exp3p2_cpp.Result.{ok, throws}
use hit_database_exp3p2_cpp.Result.Exceptions.{invalid_page}
use hit_database_exp3p2_cpp.Page.{
  Page, initialize, page_number, next_page_number, set_page_number, set_next_page_number,
}
use hit_database_exp3p2_cpp.File.{allocate_page, delete_page, read_page, write_page}
use hit_database_exp3p2_cpp.File.Stream.{File, fetch, page_index}
use hit_database_exp3p2_cpp.File.Links.{IsFile}
use hit_database_exp3p2_cpp.File.Append.{allocate_page_append}
use hit_database_exp3p2_cpp.File.Remove.{delete_page-IsFile}
use hit_database_exp3p2_cpp.File.Cycle.{allocate_page-delete_page}
use hit_database_exp3p2_cpp.File.Sorted.{insert_sorted}
use hit_database_exp3p2_cpp.File.Reused.{allocate_page_reuse}
use hit_database_exp3p2_cpp.File.Iterator.{iterate_file, numbers, OnDisk, iterate_file_used}
use hit_database_exp3p2_cpp.Result.Exceptions.{RecordId}
use hit_database_exp3p2_cpp.Page.Slot.{slot_of}
use hit_database_exp3p2_cpp.Page.Valid.{IsValid, initialize-IsValid}
use hit_database_exp3p2_cpp.Page.Insert.{Stored}
use hit_database_exp3p2_cpp.File.Records.{add_record, add_record-Stored}
use hit_database_exp3p2_cpp.File.Store.{free_page_refused}
use hit_database_exp3p2_cpp.File.Leak.{allocate_page_leaks}

abbrev pub numbered : ℕ → ℕ → Page
numbered n next = set_next_page_number (set_page_number initialize n) next

-- Both pages are used.
abbrev pub full_file : File
full_file = record {
  filename = "pages.db";
  good = true;
  file_header = record {
    num_pages = 3;
    first_used_page = 1;
    num_free_pages = 0;
    first_free_page = 0;
  };
  pages = numbered 1 2 ∷ numbered 2 0 ∷ [];
}

-- The first and the last page are used, the one between them is free.
abbrev pub gap_file : File
gap_file = record {
  filename = "pages.db";
  good = true;
  file_header = record {
    num_pages = 4;
    first_used_page = 1;
    num_free_pages = 1;
    first_free_page = 2;
  };
  pages = numbered 1 3 ∷ numbered 0 0 ∷ numbered 3 0 ∷ [];
}

-- Both pages are free, the second one first.
abbrev unused_file : File
unused_file = record {
  filename = "pages.db";
  good = true;
  file_header = record {
    num_pages = 3;
    first_used_page = 0;
    num_free_pages = 2;
    first_free_page = 2;
  };
  pages = numbered 0 0 ∷ numbered 0 1 ∷ [];
}

full_file-IsFile : IsFile full_file (1 ∷ 2 ∷ []) []
unfolding fetch page_index
full_file-IsFile = record {
  good = refl;
  count = refl;
  small = omega arith;
  used_links = (
    refl,
    omega arith,
    omega arith,
    numbered 1 2,
    refl,
    refl,
    (refl, omega arith, omega arith, numbered 2 0, refl, refl, refl),
  );
  free_links = refl;
  ascending = (omega arith, (omega arith, tt));
  distinct = tt;
  counted = refl;
  all = refl;
}

pub gap_file-IsFile : IsFile gap_file (1 ∷ 3 ∷ []) (2 ∷ [])
unfolding fetch page_index
gap_file-IsFile = record {
  good = refl;
  count = refl;
  small = omega arith;
  used_links = (
    refl,
    omega arith,
    omega arith,
    numbered 1 3,
    refl,
    refl,
    (refl, omega arith, omega arith, numbered 3 0, refl, refl, refl),
  );
  free_links = (refl, omega arith, omega arith, numbered 0 0, refl, refl, refl);
  ascending = (omega arith, (omega arith, tt));
  distinct = (tt, tt);
  counted = refl;
  all = refl;
}

unused_file-IsFile : IsFile unused_file [] (2 ∷ 1 ∷ [])
unfolding fetch page_index
unused_file-IsFile = record {
  good = refl;
  count = refl;
  small = omega arith;
  used_links = refl;
  free_links = (
    refl,
    omega arith,
    omega arith,
    numbered 0 1,
    refl,
    refl,
    (refl, omega arith, omega arith, numbered 0 0, refl, refl, refl),
  );
  ascending = tt;
  distinct = ((omega arith, tt), (tt, tt));
  counted = refl;
  all = refl;
}

abbrev gap_used : List ℕ
gap_used = 1 ∷ 3 ∷ []

some_used : ¬ (gap_used ≡ [])
some_used = ground arith

abbrev first_used : List ℕ
first_used = 1 ∷ []

first_used_some : ¬ (first_used ≡ [])
first_used_some = ground arith

allocate_page_append_example :
    (p : Page) × (f' : File) × (allocate_page 2 full_file ≡ (ok p, f'))
    × (page_number p ≡ 3)
    × IsFile f' (1 ∷ 2 ∷ 3 ∷ []) []
allocate_page_append_example =
    allocate_page_append 2 full_file (1 ∷ 2 ∷ []) full_file-IsFile (omega arith) (omega arith)

allocate_page_reuse_example :
    (p : Page) × (f' : File) × (allocate_page 2 gap_file ≡ (ok p, f'))
    × (page_number p ≡ 2)
    × IsFile f' (insert_sorted 2 (1 ∷ 3 ∷ [])) []
allocate_page_reuse_example =
    allocate_page_reuse 2 gap_file (1 ∷ 3 ∷ []) 2 [] gap_file-IsFile (inl some_used) (omega arith)

delete_page-IsFile_example :
    (f' : File) × (delete_page 1 3 gap_file ≡ (ok tt, f')) × IsFile f' (1 ∷ []) (3 ∷ 2 ∷ [])
delete_page-IsFile_example =
    delete_page-IsFile 1 gap_file 3 (1 ∷ []) [] (2 ∷ []) gap_file-IsFile (omega arith)

allocate_page-delete_page_example :
    (f₁ f₂ : File) × (p : Page) × (delete_page 2 3 gap_file ≡ (ok tt, f₁))
    × (allocate_page 2 f₁ ≡ (ok p, f₂))
    × (p ≡ set_next_page_number (set_page_number initialize 3) (next_page_number p))
    × IsFile f₂ (1 ∷ 3 ∷ []) (2 ∷ [])
allocate_page-delete_page_example =
    allocate_page-delete_page 2 gap_file 3 (1 ∷ []) [] (2 ∷ []) gap_file-IsFile
      (inl first_used_some) (omega arith)

allocate_page_leaks_example :
    (p : Page) × (f' : File) × (allocate_page 0 unused_file ≡ (ok p, f'))
    × (f'.file_header.first_used_page ≡ 2)
    × (fetch f' 2 ≡ some p)
    × (next_page_number p ≡ 1)
    × (read_page 1 f'
        ≡ (throws (invalid_page (record { page_number = 1; filename = "pages.db" })), f'))
allocate_page_leaks_example = allocate_page_leaks 0 unused_file 2 1 [] unused_file-IsFile

iterate_file_used_example :
    (ps : List Page) × (iterate_file 3 gap_file ≡ (ok ps, gap_file))
    × (numbers ps ≡ 1 ∷ 3 ∷ [])
    × OnDisk gap_file ps
iterate_file_used_example =
    iterate_file_used 3 gap_file (1 ∷ 3 ∷ []) (2 ∷ []) gap_file-IsFile (omega arith)

-- A page that carries a number and a stale pointer.
abbrev pub changed : ℕ → Page
changed n = numbered n 7

free_page_refused_example :
    (read_page 2 gap_file
      ≡ (throws (invalid_page (record { page_number = 2; filename = "pages.db" })), gap_file))
    × (write_page (changed 2) gap_file
        ≡ (throws (invalid_page (record { page_number = 2; filename = "pages.db" })), gap_file))
free_page_refused_example =
    free_page_refused gap_file (changed 2) (1 ∷ 3 ∷ []) [] [] gap_file-IsFile

pub numbered-IsValid : (n k : ℕ) → IsValid (numbered n k)
numbered-IsValid n k = record {
  whole = initialize-IsValid.whole;
  lower = initialize-IsValid.lower;
  order = initialize-IsValid.order;
  layout = initialize-IsValid.layout;
}

abbrev pub world : List ℕ
world = b'w' ∷ b'o' ∷ b'r' ∷ b'l' ∷ b'd' ∷ b'!' ∷ []

add_record-Stored_example :
    (rid : RecordId) × (f' : File) × (p : Page) × (add_record 3 world gap_file ≡ (ok rid, f'))
    × IsFile f' (1 ∷ 3 ∷ []) (2 ∷ [])
    × (rid.page_number ≡ 3)
    × (read_page 3 f' ≡ (ok p, f'))
    × Stored (numbered 3 0) world p rid
unfolding fetch page_index initialize slot_of replicate
add_record-Stored_example =
    add_record-Stored gap_file 3 (numbered 3 0) (1 ∷ []) [] (2 ∷ []) world gap_file-IsFile refl
      (numbered-IsValid 3 0) (omega arith) (omega arith) (λ _. refl)
