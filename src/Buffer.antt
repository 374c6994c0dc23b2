-- ===== src/Buffer.antt =====
-- The buffer pool: src/buffer.h and src/buffer.cpp.
-- A pointer to a file is a `FileRef`, and the file objects stand in a store by their addresses. A
-- pointer to a frame is the frame's place in the pool.
pub mod Frames
pub mod Manager
pub mod Report
pub mod Views
use Prim.Native.String.{◌++◌}
use hit_database_exp3p2_cpp.Base.{
  ℕ, ℤ, pos, negsuc, zero, suc, ◌+◌, ◌*◌, ◌/◌, ◌-◌, ◌%◌, ◌^◌, ◌≡◌, String, Bool, true, false, not,
  Option, none, some, List, [], ◌∷◌, ltb, ◌==◌, if◌then◌else◌, length,
}
use hit_database_exp3p2_cpp.Result.{Result, ok, throws, undefined, ◌>>=◌, ◌>>◌, demand}
use hit_database_exp3p2_cpp.Result.Exceptions.{std_invalid_argument}
use hit_database_exp3p2_cpp.Result.Exceptions.Messages.{decimal}
use hit_database_exp3p2_cpp.HashTable.{FileRef, BufHashTbl, new}
use hit_database_exp3p2_cpp.Page.{Page, initialize, invalid_number}
use hit_database_exp3p2_cpp.File.{write_page}
use hit_database_exp3p2_cpp.File.Stream.{File}
use hit_database_exp3p2_cpp.Iter.Enumerate.{Enumerate, enumerate}
use hit_database_exp3p2_cpp.Iter.Enumerate

-- `page` is the member `data`.
pub record StatedPage : Type 0 where
  pub file : Option FileRef
  pub page_no : ℕ
  pub frame_no : ℕ
  pub pin_cnt : ℕ
  pub dirty : Bool
  pub valid : Bool
  pub recently_referenced : Bool
  pub page : Page

-- The file objects that the pointers lead to.
abbrev pub Files : Type 0
Files = ℕ → File

abbrev pub store : Files → ℕ → File → Files
store files a f b = if b == a then f else files b

-- Clear()
unfoldable pub clear : StatedPage → StatedPage
clear s = record s {
  pin_cnt = 0;
  file = none;
  page_no = invalid_number;
  dirty = false;
  recently_referenced = false;
  valid = false;
}

-- The constructor. What its `Clear()` is to overwrite is indeterminate before.
unfoldable pub stated_page : ℕ → StatedPage
stated_page frame_id = clear (record {
  file = none;
  page_no = 0;
  frame_no = frame_id;
  pin_cnt = 0;
  dirty = false;
  valid = false;
  recently_referenced = false;
  page = initialize;
})

unfoldable pub is_empty : StatedPage → Bool
is_empty s = not s.valid

-- `throw std::invalid_argument("file is empty: " + file->filename())`, which reads through the
-- member `file`.
unfoldable pub refuse_null {ℓ} : {A : Type ℓ} → StatedPage → Result A
refuse_null s = elim s.file [ none ↦ undefined | some r ↦ throws std_invalid_argument ]

unfoldable pub dump_to_file : StatedPage → Files → Result (Unit {0}) × Files
dump_to_file s files = elim s.file [
  | none ↦ (refuse_null s, files)
  | some r ↦
      let (result, f) = write_page s.page (files r.address) in (result, store files r.address f)
]

unfoldable pub occupy_for : StatedPage → Option FileRef → ℕ → Result StatedPage
occupy_for s file_ptr page_num = elim file_ptr [
  | none ↦ refuse_null s
  | some r ↦ ok (record s {
    file = some r;
    page_no = page_num;
    pin_cnt = 1;
    dirty = false;
    valid = true;
    recently_referenced = true;
  })
]

-- A `bool` on a stream.
abbrev pub show_bool : Bool → String
show_bool true = "1"
show_bool false = "0"

-- What Print() writes.
unfoldable pub print : StatedPage → String
print s =
    elim s.file [
      | none ↦ "file:NULL "
      | some r ↦ "file:" ++ r.filename ++ " " ++ "pageNo:" ++ decimal s.page_no ++ " "
    ]
    ++ "valid:"
    ++ show_bool s.valid
    ++ " "
    ++ "pinCnt:"
    ++ decimal s.pin_cnt
    ++ " "
    ++ "dirty:"
    ++ show_bool s.dirty
    ++ " "
    ++ "recently_referenced:"
    ++ show_bool s.recently_referenced
    ++ "\n"

pub record BufStats : Type 0 where
  pub accesses : ℕ
  pub diskreads : ℕ
  pub diskwrites : ℕ

-- clear(), and the constructor, which calls it.
unfoldable pub clear_stats : BufStats
clear_stats = record { accesses = 0; diskreads = 0; diskwrites = 0 }

pub record BufMgr : Type 0 where
  pub clock_hand : ℕ
  pub num_bufs : ℕ
  pub frame_of_each_file_and_page : BufHashTbl
  pub frames : List StatedPage
  pub buf_stats : BufStats

-- The loop of the constructor, with the rounds left and `i`.
unfoldable pub push_frames : ℕ → ℕ → List StatedPage
push_frames zero i = []
push_frames (suc rounds) i = stated_page i ∷ push_frames rounds (i + 1)

-- `(int) (bufs * 1.2)`. The nearest `double` to the product lies between the same two integers as
-- 12/10 of the 32-bit number `bufs`, or is that integer.
unfoldable pub scaled : ℕ → ℕ
scaled bufs = bufs * 12 / 10

-- The members that the constructor leaves.
unfoldable pub initial_pool : ℕ → BufMgr
initial_pool bufs = record {
  clock_hand = (bufs + 2 ^ 32 - 1) % 2 ^ 32;
  num_bufs = bufs;
  frame_of_each_file_and_page = new (scaled bufs * 2 / 2 + 1);
  frames = push_frames bufs 0;
  buf_stats = clear_stats;
}

-- The constructor; an `int` that overflows is undefined.
unfoldable pub buf_mgr : ℕ → Result BufMgr
buf_mgr bufs = do demand (ltb (scaled bufs * 2) (2 ^ 31)); ok (initial_pool bufs)

-- clearBufStats()
unfoldable pub clear_buf_stats : BufMgr → BufMgr
clear_buf_stats m = record m { buf_stats = clear_stats }

-- An `int` on a stream.
unfoldable pub show_int : ℤ → String
show_int (pos n) = decimal n
show_int (negsuc n) = "-" ++ decimal (n + 1)

-- What the loop of printSelf() writes for a frame.
unfoldable pub line : ℤ → StatedPage → String
line i buf = "FrameNo:" ++ show_int i ++ " " ++ print buf

-- `if (buf.valid == true) validFrames++;` on an `int`, whose overflow is undefined.
unfoldable pub count_frame : StatedPage → ℕ → Result ℕ
count_frame buf valid_frames =
    if buf.valid
    then demand (ltb (valid_frames + 1) (2 ^ 31)) >> ok (valid_frames + 1)
    else ok valid_frames

-- The loop of printSelf(): the text so far, and `validFrames`.
unfoldable pub print_frames : List (ℤ × StatedPage) → String → ℕ → Result (String × ℕ)
print_frames [] out valid_frames = ok (out, valid_frames)
print_frames ((i, buf) ∷ rest) out valid_frames = do
  counted ← count_frame buf valid_frames
  print_frames rest (out ++ line i buf) counted

-- What printSelf() writes.
unfoldable pub print_self : BufMgr → Result String
print_self m = do
  e ← enumerate m.frames
  (pairs, last) ← Enumerate.iterate (suc (length m.frames)) e
  (out, valid_frames) ← print_frames pairs "" 0
  ok (out ++ ("Total Number of Valid Frames:" ++ decimal valid_frames ++ "\n"))
