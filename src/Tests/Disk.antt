-- ===== src/Tests/Disk.antt =====
-- A disk with one file, and the theorems on create, open and remove applied to it.
use hit_database_exp3p2_cpp.Base.{◌≡◌, refl, false, [], ◌∷◌}
use hit_database_exp3p2_cpp.Result.{ok, throws, undefined}
use hit_database_exp3p2_cpp.Result.Exceptions.{file_not_found}
use hit_database_exp3p2_cpp.File.{allocate_page}
use hit_database_exp3p2_cpp.Driver.{main_start, main_start_undefined}
use hit_database_exp3p2_cpp.File.Stream.{File}
use hit_database_exp3p2_cpp.FileSystem.{
  FileSystem, exists, is_open, create, open_file, remove, save, find_file, set_file,
}
use hit_database_exp3p2_cpp.FileSystem.Created.{create_absent}
use hit_database_exp3p2_cpp.FileSystem.Opened.{here, next, opened, written, remove_reached}
use hit_database_exp3p2_cpp.Tests.Files.{gap_file, full_file}

abbrev one_file : FileSystem
one_file = record {
  disk = ("pages.db", record { file_header = full_file.file_header; pages = full_file.pages }) ∷ [];
  opened_files = [];
}

create_absent_example :
    (f : File) × (create "test.db" one_file ≡ (ok f, one_file))
    × (f.good ≡ false)
    × (open_file "test.db" one_file
        ≡ (throws (file_not_found (record { filename = "test.db" })), one_file))
    × (allocate_page 3 f ≡ (undefined, f))
unfolding exists find_file
create_absent_example = create_absent 3 one_file "test.db" refl

-- The file is opened, and written through the object.
abbrev in_use : FileSystem
in_use = save gap_file (open_file "pages.db" one_file).1

remove_reached_example :
    (u : FileSystem) × (is_open in_use "pages.db" ≡ false)
    × (remove "pages.db" in_use ≡ (ok tt, u))
    × (exists u "pages.db" ≡ false)
unfolding exists find_file open_file save set_file
remove_reached_example =
    remove_reached one_file in_use "pages.db" refl
      (next (next here (opened one_file "pages.db"))
        (written (open_file "pages.db" one_file).1 gap_file))
      refl

main_start_undefined_example : (main_start 9 one_file).0 ≡ undefined
main_start_undefined_example = main_start_undefined 9 one_file refl
