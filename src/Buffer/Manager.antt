-- ===== src/Buffer/Manager.antt =====
-- The constructor of BufMgr (src/buffer.cpp).
use hit_database_exp3p2_cpp.Base.{
  ℕ, zero, suc, ◌+◌, ◌*◌, ◌/◌, ◌^◌, ◌<◌, ◌≡◌, refl, ap, true, false, none, List, [], ◌∷◌, arith,
  length, lt→ltb,
}
use hit_database_exp3p2_cpp.Result.{throws, Returns}
use hit_database_exp3p2_cpp.Result.Exceptions.{hash_not_found}
use hit_database_exp3p2_cpp.HashTable.{FileRef, lookup, new}
use hit_database_exp3p2_cpp.HashTable.Entries.{IsValid, new-IsValid, lookup-new}
use hit_database_exp3p2_cpp.Buffer.{
  StatedPage, BufMgr, buf_mgr, initial_pool, scaled, push_frames, stated_page, clear, is_empty,
}

-- Frames that hold no page, numbered from `i` on.
abbrev pub Fresh : ℕ → List StatedPage → Type 0
Fresh i [] = Unit {0}
Fresh i (s ∷ ss) =
    ((s.frame_no ≡ i) × (is_empty s ≡ true) × (s.pin_cnt ≡ 0) × (s.file ≡ none) × (s.dirty ≡ false))
    × Fresh (i + 1) ss

push_frames-Fresh : (rounds i : ℕ) → Fresh i (push_frames rounds i)
unfolding push_frames stated_page clear is_empty
push_frames-Fresh zero i = tt
push_frames-Fresh (suc rounds) i =
    ((refl, refl, refl, refl, refl), push_frames-Fresh rounds (i + 1))

length-push_frames : (rounds i : ℕ) → length (push_frames rounds i) ≡ rounds
unfolding push_frames
length-push_frames zero i = refl
length-push_frames (suc rounds) i = ap suc (length-push_frames rounds (i + 1))

-- A pool of `bufs` frames as the constructor leaves it: the frames are empty, unpinned and numbered by
-- their places, the clock's hand is at the last one, and the table has more chains than frames.
pub record IsNew (bufs : ℕ) (m : BufMgr) : Type 0 where
  pub counted : m.num_bufs ≡ bufs
  pub sized : length m.frames ≡ bufs
  pub fresh : Fresh 0 m.frames
  pub hand : m.clock_hand + 1 ≡ bufs
  pub table : IsValid m.frame_of_each_file_and_page
  pub sparse : bufs < m.frame_of_each_file_and_page.htsize

-- The constructor of BufMgr with at least one frame, where 12/10 of the frames, doubled, fit an `int`,
-- succeeds: the frames are empty, unpinned and numbered by their places, the clock's hand is at the
-- last one, and the hash table has more chains than there are frames and has no page.
pub buf_mgr-IsNew :
    (bufs : ℕ) (file : FileRef) (page_no : ℕ)
    → 0 < bufs
    → scaled bufs * 2 < 2 ^ 31
    → Returns (buf_mgr bufs) (λ m.
      IsNew bufs m
      × (lookup m.frame_of_each_file_and_page file page_no
          ≡ throws (hash_not_found (record { name = file.filename; page_no = page_no }))))
unfolding buf_mgr initial_pool scaled new
buf_mgr-IsNew bufs file page_no pos small = (
  initial_pool bufs,
  rw (lt→ltb _ _ small) refl,
  (
    record {
      counted = refl;
      sized = length-push_frames bufs 0;
      fresh = push_frames-Fresh bufs 0;
      hand = omega arith;
      table = new-IsValid (bufs * 12 / 10 * 2 / 2 + 1) (omega arith);
      sparse = omega arith;
    },
    lookup-new (bufs * 12 / 10 * 2 / 2 + 1) (omega arith) file page_no,
  ),
)
