-- ===== src/FileSystem/Opened.antt =====
-- `opened_files`, isOpen and remove (src/file.cpp).
use text.Mathlib.Text.{◌==◌}
use hit_database_exp3p2_cpp.Base.{
  String, ◌≡◌, refl, ap, Bool, true, false, none, List, [], ◌∷◌, inl, inr, Bool-cases,
  if◌then◌else◌,
}
use hit_database_exp3p2_cpp.Result.{Result, ok, throws}
use hit_database_exp3p2_cpp.Result.Exceptions.{file_exists, file_not_found, file_open}
use hit_database_exp3p2_cpp.File.Stream.{File, write_header}
use hit_database_exp3p2_cpp.FileSystem.{
  Contents, FileSystem, find_file, set_file, new_file, remove_file, contains, erase, exists,
  is_open, save, create, open_file, remove, close,
}

-- What a program does to the file system by the calls of File: also calls that throw, and writes of
-- any File object.
pub data Step : FileSystem → FileSystem → Type 0 where
  created : (fs : FileSystem) (name : String) → Step fs (create name fs).1
  opened : (fs : FileSystem) (name : String) → Step fs (open_file name fs).1
  removed : (fs : FileSystem) (name : String) → Step fs (remove name fs).1
  written : (fs : FileSystem) (f : File) → Step fs (save f fs)
  closed : (fs : FileSystem) (f : File) → Step fs (close f fs)

pub data Reach (fs : FileSystem) : FileSystem → Type 0 where
  here : Reach fs fs
  next : {s t : FileSystem} → Reach fs s → Step s t → Reach fs t

abbrev pub NoneOpen : FileSystem → Type 0
NoneOpen fs = fs.opened_files ≡ []

-- A test picks one of two states with the same open files.
either :
    (b : Bool) (s t : FileSystem) (o : List String)
    → s.opened_files ≡ o
    → t.opened_files ≡ o
    → (if b then s else t).opened_files ≡ o
either true s t o hs ht = hs
either false s t o hs ht = ht

either_state :
    {A : Type 0} (b : Bool) (r q : Result A × FileSystem) (o : List String)
    → r.1.opened_files ≡ o
    → q.1.opened_files ≡ o
    → (if b then r else q).1.opened_files ≡ o
either_state true r q o hr hq = hr
either_state false r q o hr hq = hq

save-NoneOpen : (f : File) (fs : FileSystem) → NoneOpen fs → NoneOpen (save f fs)
unfolding save
save-NoneOpen f fs h =
    either f.good
      (record fs {
        disk =
            set_file f.filename (record { file_header = f.file_header; pages = f.pages }) fs.disk;
      })
      fs [] h h

Step-NoneOpen : {s t : FileSystem} → Step s t → NoneOpen s → NoneOpen t
unfolding create open_file remove close erase
Step-NoneOpen (created fs name) h =
    either_state (exists fs name) (throws (file_exists (record { filename = name })), fs)
      (let (r, f) =
          write_header
            (record { num_pages = 1; first_used_page = 0; num_free_pages = 0; first_free_page = 0 })
            (new_file fs name) in
        (ok f, save f fs))
      [] h (save-NoneOpen _ fs h)
Step-NoneOpen (opened fs name) h =
    either_state (exists fs name) (ok (new_file fs name), fs)
      (throws (file_not_found (record { filename = name })), fs) [] h h
Step-NoneOpen (removed fs name) h =
    either_state (exists fs name)
      (if is_open fs name
        then (throws (file_open (record { filename = name })), fs)
        else (ok tt, record fs { disk = remove_file name fs.disk }))
      (throws (file_not_found (record { filename = name })), fs) []
      (either_state (is_open fs name) (throws (file_open (record { filename = name })), fs)
        (ok tt, record fs { disk = remove_file name fs.disk }) [] h h)
      h
Step-NoneOpen (written fs f) h = save-NoneOpen f fs h
Step-NoneOpen (closed fs f) h = ap (erase f.filename) h

Reach-NoneOpen : {s t : FileSystem} → NoneOpen s → Reach s t → NoneOpen t
Reach-NoneOpen h here = h
Reach-NoneOpen h (next r st) = Step-NoneOpen st (Reach-NoneOpen h r)

find_file-remove_self :
    (name : String) (disk : List (String × Contents))
    → find_file name (remove_file name disk) ≡ none
unfolding find_file remove_file
find_file-remove_self name [] = refl
find_file-remove_self name ((n, c) ∷ rest) = elim (Bool-cases (n == name)) [
  | inl same ↦ rw same (find_file-remove_self name rest)
  | inr other ↦ rw other (rw other (find_file-remove_self name rest))
]

is_open-NoneOpen : (fs : FileSystem) (name : String) → NoneOpen fs → is_open fs name ≡ false
unfolding is_open contains
is_open-NoneOpen fs name h = rw (ap (contains name) h) (by_case (exists fs name))
  where
    by_case : (b : Bool) → (if b then false else false) ≡ false
    by_case true = refl
    by_case false = refl

exists-missing :
    (fs : FileSystem) (name : String) → find_file name fs.disk ≡ none → exists fs name ≡ false
unfolding exists
exists-missing fs name e = rw (e, exists) refl

-- From a state in which no file counts as open, whatever a program then does by create, open, remove,
-- writes and destructors of File objects: isOpen of every file that is there answers false, also while
-- objects are open on it, and remove of it succeeds and never throws FileOpenException.
pub remove_reached :
    (s t : FileSystem) (name : String)
    → NoneOpen s
    → Reach s t
    → exists t name ≡ true
    → (u : FileSystem) × (is_open t name ≡ false)
      × (remove name t ≡ (ok tt, u))
      × (exists u name ≡ false)
unfolding remove
remove_reached s t name h r there =
    let shut = is_open-NoneOpen t name (Reach-NoneOpen h r) in
    let u : FileSystem = record t { disk = remove_file name t.disk } in
    (u, shut, rw (there, shut) refl, exists-missing u name (find_file-remove_self name t.disk))
