-- ===== src/Driver.antt =====
-- The start of main() in src/main.cpp: a file that is left over is removed, the file is created, and pages
-- are put into it.
pub mod Block
use hit_database_exp3p2_cpp.Base.{ℕ, String, ◌≡◌, refl, List, [], ◌∷◌, false, inl, inr, Bool-cases}
use hit_database_exp3p2_cpp.Result.{Result, ok, throws, undefined}
use hit_database_exp3p2_cpp.Result.Exceptions.{file_not_found}
use hit_database_exp3p2_cpp.File.Stream.{File}
use hit_database_exp3p2_cpp.File.Fill.Loop.{fill}
use hit_database_exp3p2_cpp.FileSystem.{FileSystem, exists, remove, create, save}
use hit_database_exp3p2_cpp.FileSystem.Created.{create_absent}
use hit_database_exp3p2_cpp.FileSystem.Opened.{NoneOpen, here, remove_reached}

-- "hello_record!"
abbrev pub hello_record : List ℕ
hello_record = b'h' ∷ b'e' ∷ b'l' ∷ b'l' ∷ b'o' ∷ b'!' ∷ []

abbrev pub database_name : String
database_name = "test.db"

-- `try { … } catch (FileNotFoundException) { }`
abbrev pub catch_not_found : Result (Unit {0}) → Result (Unit {0})
catch_not_found (throws (file_not_found e)) = ok tt
catch_not_found r = r

-- The object that create() returns, through which pages are put into the file.
abbrev pub fill_created : ℕ → Result File → FileSystem → Result (List ℕ) × FileSystem
fill_created fuel (ok f) fs = let (r, g) = fill fuel hello_record 5 f in (r, save g fs)
fill_created fuel (throws e) fs = (throws e, fs)
fill_created fuel undefined fs = (undefined, fs)

abbrev pub create_cleaned : ℕ → Result (Unit {0}) → FileSystem → Result (List ℕ) × FileSystem
create_cleaned fuel (ok u) fs = let (r, made) = create database_name fs in fill_created fuel r made
create_cleaned fuel (throws e) fs = (throws e, fs)
create_cleaned fuel undefined fs = (undefined, fs)

unfoldable pub main_start : ℕ → FileSystem → Result (List ℕ) × FileSystem
main_start fuel fs =
    let (r, cleaned) = remove database_name fs in create_cleaned fuel (catch_not_found r) cleaned

-- Without the file, the object that create() returns has no stream to work on.
create_cleaned_absent :
    (fuel : ℕ) (fs : FileSystem)
    → exists fs database_name ≡ false
    → (create_cleaned fuel (ok tt) fs).0 ≡ undefined
unfolding fill
create_cleaned_absent fuel fs e =
    let (f, made, shut, missing, run) = create_absent fuel fs database_name e in
    rw made (rw run refl)

remove_missing :
    (fs : FileSystem)
    → exists fs database_name ≡ false
    → remove database_name fs ≡ (throws (file_not_found (record { filename = database_name })), fs)
unfolding remove
remove_missing fs e = rw e refl

-- From a state in which no file counts as open, the start of main() is undefined, whether the file is
-- there before or not: allocatePage works on a header that was never read.
pub main_start_undefined :
    (fuel : ℕ) (fs : FileSystem) → NoneOpen fs → (main_start fuel fs).0 ≡ undefined
unfolding main_start
main_start_undefined fuel fs none_open = elim (Bool-cases (exists fs database_name)) [
  | inl there ↦
      let (u, shut, removed, gone) = remove_reached fs fs database_name none_open here there in
      rw removed (create_cleaned_absent fuel u gone)
  | inr missing ↦ rw (remove_missing fs missing) (create_cleaned_absent fuel fs missing)
]
