-- ===== src/Tests/Pool.antt =====
-- A pool of two frames, and the theorems on frames, views and the pool applied to it.
use hit_database_exp3p2_cpp.Base.{
  ℕ, zero, suc, ◌≡◌, refl, Bool, true, false, ◌||◌, Option, none, some, [], ◌∷◌, arith,
}
use hit_database_exp3p2_cpp.Result.{Result, ok, throws, undefined, ◌>>=◌, Returns}
use hit_database_exp3p2_cpp.Result.Exceptions.{page_not_pinned, hash_not_found}
use hit_database_exp3p2_cpp.Page.{Page, next_page_number, set_next_page_number}
use hit_database_exp3p2_cpp.HashTable.{FileRef, BufHashTbl, lookup, hash, chain_at, find, fits}
use hit_database_exp3p2_cpp.File.{read_page}
use hit_database_exp3p2_cpp.File.Stream.{fetch}
use hit_database_exp3p2_cpp.File.Links.{IsFile}
use hit_database_exp3p2_cpp.Buffer.{
  StatedPage, BufMgr, Files, clear, clear_stats, dump_to_file, buf_mgr, print_self, scaled,
}
use hit_database_exp3p2_cpp.Buffer.Manager.{IsNew, buf_mgr-IsNew}
use hit_database_exp3p2_cpp.Buffer.Report.{report, print_self-report}
use hit_database_exp3p2_cpp.Buffer.Frames.{dump_to_file-read}
use hit_database_exp3p2_cpp.Buffer.Views.{
  PageView, finished, page_view, frame_at, set_frame, destroy_all, moves, move,
}
use hit_database_exp3p2_cpp.Buffer.Views.Release.{Unpins, moves-unpin}
use hit_database_exp3p2_cpp.Tests.Files.{gap_file, gap_file-IsFile, changed}

abbrev pages_db : FileRef
pages_db = record { address = 8; filename = "pages.db" }

abbrev held_frame : StatedPage
held_frame = record {
  file = some pages_db;
  page_no = 1;
  frame_no = 1;
  pin_cnt = 1;
  dirty = false;
  valid = true;
  recently_referenced = true;
  page = changed 1;
}

abbrev table : BufHashTbl
table = record {
  htsize = 3;
  ht = (record { file = pages_db; page_no = 1; frame_no = 1 } ∷ []) ∷ [] ∷ [] ∷ [];
}

abbrev pool : BufMgr
pool = record {
  clock_hand = 1;
  num_bufs = 2;
  frame_of_each_file_and_page = table;
  frames = clear held_frame ∷ held_frame ∷ [];
  buf_stats = clear_stats;
}

abbrev files : Files
files a = gap_file

buf_mgr-IsNew_example : Returns (buf_mgr 5) (λ m.
    IsNew 5 m
    × (lookup m.frame_of_each_file_and_page pages_db 1
        ≡ throws (hash_not_found (record { name = "pages.db"; page_no = 1 }))))
unfolding scaled
buf_mgr-IsNew_example = buf_mgr-IsNew 5 pages_db 1 (omega arith) (omega arith)

print_self-report_example : print_self pool ≡ report pool.frames
print_self-report_example = print_self-report pool (omega arith)

dump_to_file-read_example :
    (files' : Files) × (p : Page) × (fetch gap_file 1 ≡ some p)
    × (dump_to_file held_frame files ≡ (ok tt, files'))
    × IsFile (files' 8) (1 ∷ 3 ∷ []) (2 ∷ [])
    × (read_page 1 (files' 8)
        ≡ (ok (set_next_page_number (changed 1) (next_page_number p)), files' 8))
    × (files' 9 ≡ gap_file)
dump_to_file-read_example =
    dump_to_file-read held_frame files pages_db [] (3 ∷ []) (2 ∷ []) 9 refl gap_file-IsFile
      (omega arith)

-- An unPinPage that finds the frame by the table.
abbrev un_pin_by_table : Option FileRef → ℕ → Bool → BufMgr → Result BufMgr
un_pin_by_table none n writes m = undefined
un_pin_by_table (some r) n writes m = do
  k ← lookup m.frame_of_each_file_and_page r n
  s ← frame_at m k
  elim s.pin_cnt [
    | zero ↦
        throws (page_not_pinned (record { name = r.filename; page_no = n; frame_no = s.frame_no }))
    | suc pins ↦ ok (set_frame m k (record s { pin_cnt = pins; dirty = s.dirty || writes }))
  ]

un_pin_by_table-Unpins : Unpins un_pin_by_table
un_pin_by_table-Unpins = record {
  pinned = λ m r n k pins writes s held here e. ground (arith, held, here);
  unpinned = λ m r n k writes s held here e. ground (arith, held, here);
}

abbrev view : PageView
view = record { stpage = 1; page = some 1; is_mutable = true }

abbrev moved_from : PageView
moved_from = record { stpage = 1; page = none; is_mutable = true }

moves-unpin_example :
    destroy_all un_pin_by_table (moved_from ∷ (moves 2 view).1 ∷ moved_from ∷ []) pool
    ≡ finished (set_frame pool 1 (record held_frame { pin_cnt = 0; dirty = true }))
unfolding lookup hash chain_at find fits frame_at clear page_view moves move
moves-unpin_example =
    moves-unpin un_pin_by_table un_pin_by_table-Unpins pool pages_db 1 1 0 held_frame refl refl refl
      refl refl true view refl 2 (moved_from ∷ []) (moved_from ∷ []) refl
