-- ===== src/FileSystem/Created.antt =====
-- File::create and File::open (src/file.cpp).
use hit_database_exp3p2_cpp.Base.{
  ℕ, String, ◌≡◌, refl, sym, ◌∙◌, ap, Bool, true, false, Option, none, some, [], inl, inr,
  Option-cases,
}
use hit_database_exp3p2_cpp.Result.{ok, throws, undefined}
use hit_database_exp3p2_cpp.Result.Exceptions.{file_not_found}
use hit_database_exp3p2_cpp.File.{allocate_page}
use hit_database_exp3p2_cpp.File.Stream.{File, read_header, write_header}
use hit_database_exp3p2_cpp.FileSystem.{
  Contents, FileSystem, find_file, exists, new_file, save, create, open_file,
}

-- The stream of an object whose file is not there.
abbrev no_stream : String → File
no_stream name = record {
  filename = name;
  good = false;
  file_header = record {
    num_pages = 0;
    first_used_page = 0;
    num_free_pages = 0;
    first_free_page = 0;
  };
  pages = [];
}

exists-none :
    (fs : FileSystem) (name : String) → exists fs name ≡ false → find_file name fs.disk ≡ none
unfolding exists
exists-none fs name e = elim (Option-cases (find_file name fs.disk)) [
  | inl gone ↦ gone
  | inr (c, here) ↦
      let both : true ≡ false =
        sym (
          ap (λ (o : Option Contents). elim o as (λ _. Bool) [ none ↦ false | some c ↦ true ]) here)
        ∙ e in
      cc
]

new_file-none :
    (fs : FileSystem) (name : String)
    → find_file name fs.disk ≡ none
    → new_file fs name ≡ no_stream name
unfolding new_file
new_file-none fs name e = rw (e, new_file) refl

allocate_page-no_stream :
    (fuel : ℕ) (name : String) → allocate_page fuel (no_stream name) ≡ (undefined, no_stream name)
unfolding allocate_page read_header
allocate_page-no_stream fuel name = refl

-- create() of a file that is not there makes none: it does not throw, but the object's stream is not
-- open, the disk is as before, open() still throws FileNotFoundException, and allocatePage works on a
-- header that was never read.
pub create_absent :
    (fuel : ℕ) (fs : FileSystem) (name : String)
    → exists fs name ≡ false
    → (f : File) × (create name fs ≡ (ok f, fs))
      × (f.good ≡ false)
      × (open_file name fs ≡ (throws (file_not_found (record { filename = name })), fs))
      × (allocate_page fuel f ≡ (undefined, f))
unfolding create open_file save write_header
create_absent fuel fs name e = (
  no_stream name,
  rw (e, new_file-none fs name (exists-none fs name e)) refl,
  refl,
  rw e refl,
  allocate_page-no_stream fuel name,
)
