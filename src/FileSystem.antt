-- ===== src/FileSystem.antt =====
-- The files on disk: create, open, remove, isOpen and exists of src/file.h and src/file.cpp.
-- A stream opens a file that is there, and none that is not, as std::fstream documents for the mode
-- in|out|binary; each file can be read and written. A `File` carries what its file holds. Its
-- methods write through the object's std::fstream, which is not part of the source: `save` and `set_file`
-- say what such a stream leaves on the disk once it is flushed. A file is used by one
-- object at a time.
pub mod Opened
pub mod Created
use text.Mathlib.Text.{◌==◌}
use hit_database_exp3p2_cpp.Base.{
  ℕ, String, Bool, true, false, not, Option, none, some, List, [], ◌∷◌, if◌then◌else◌,
}
use hit_database_exp3p2_cpp.Result.{Result, ok, throws}
use hit_database_exp3p2_cpp.Result.Exceptions.{file_exists, file_not_found, file_open}
use hit_database_exp3p2_cpp.Page.{Page}
use hit_database_exp3p2_cpp.File.Stream.{File, FileHeader, write_header}

pub record Contents : Type 0 where
  pub file_header : FileHeader
  pub pages : List Page

-- The files by their names, and the set `opened_files`.
pub record FileSystem : Type 0 where
  pub disk : List (String × Contents)
  pub opened_files : List String

unfoldable pub find_file : String → List (String × Contents) → Option Contents
find_file name [] = none
find_file name ((n, c) ∷ rest) = if n == name then some c else find_file name rest

-- The file is there with other contents.
unfoldable pub set_file : String → Contents → List (String × Contents) → List (String × Contents)
set_file name c [] = []
set_file name c ((n, d) ∷ rest) = if n == name then (n, c) ∷ rest else (n, d) ∷ set_file name c rest

-- std::remove
unfoldable pub remove_file : String → List (String × Contents) → List (String × Contents)
remove_file name [] = []
remove_file name ((n, c) ∷ rest) =
    if n == name then remove_file name rest else (n, c) ∷ remove_file name rest

unfoldable pub contains : String → List String → Bool
contains name [] = false
contains name (n ∷ ns) = if n == name then true else contains name ns

unfoldable pub erase : String → List String → List String
erase name [] = []
erase name (n ∷ ns) = if n == name then erase name ns else n ∷ erase name ns

-- exists(filename): a stream on the file is good.
unfoldable pub exists : FileSystem → String → Bool
exists fs name = elim (find_file name fs.disk) [ none ↦ false | some c ↦ true ]

-- isOpen(filename)
unfoldable pub is_open : FileSystem → String → Bool
is_open fs name = if exists fs name then contains name fs.opened_files else false

-- The constructor of File, on a stream that was to open the file.
unfoldable pub new_file : FileSystem → String → File
new_file fs name = elim (find_file name fs.disk) [
  | none ↦ record {
    filename = name;
    good = false;
    file_header = record {
      num_pages = 0;
      first_used_page = 0;
      num_free_pages = 0;
      first_free_page = 0;
    };
    pages = [];
  }
  | some c ↦ record { filename = name; good = true; file_header = c.file_header; pages = c.pages }
]

-- What the stream of a file object leaves on the disk when it is flushed.
unfoldable pub save : File → FileSystem → FileSystem
save f fs =
    if f.good
    then record fs {
      disk = set_file f.filename (record { file_header = f.file_header; pages = f.pages }) fs.disk;
    }
    else fs

-- create(filename)
unfoldable pub create : String → FileSystem → Result File × FileSystem
create name fs =
    if exists fs name
    then (throws (file_exists (record { filename = name })), fs)
    else (let (r, f) =
          write_header
            (record { num_pages = 1; first_used_page = 0; num_free_pages = 0; first_free_page = 0 })
            (new_file fs name) in
        (ok f, save f fs))

-- open(filename)
unfoldable pub open_file : String → FileSystem → Result File × FileSystem
open_file name fs =
    if exists fs name
    then (ok (new_file fs name), fs)
    else (throws (file_not_found (record { filename = name })), fs)

-- remove(filename)
unfoldable pub remove : String → FileSystem → Result (Unit {0}) × FileSystem
remove name fs =
    if exists fs name
    then if is_open fs name
      then (throws (file_open (record { filename = name })), fs)
      else (ok tt, record fs { disk = remove_file name fs.disk })
    else (throws (file_not_found (record { filename = name })), fs)

-- The destructor.
unfoldable pub close : File → FileSystem → FileSystem
close f fs = record fs { opened_files = erase f.filename fs.opened_files }
