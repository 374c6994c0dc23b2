-- ===== src/Buffer/Report.antt =====
-- printSelf() of src/buffer.cpp, and the text that it is to write.
use Prim.Native.String.{◌++◌}
use mathlib.Core.Path.{ap₂}
use text.Mathlib.TextLemmas.{append_assoc, append-nil, nil-append}
use hit_database_exp3p2_cpp.Base.{
  ℕ, pos, suc, true, false, ◌+◌, ◌^◌, ◌≤◌, ◌<◌, ◌≡◌, refl, sym, ◌∙◌, ap, Bool, Option, none, some,
  String, List, [], ◌∷◌, arith, length, if◌then◌else◌, lt→ltb,
}
use hit_database_exp3p2_cpp.Result.{Result, ok, undefined, ◌>>=◌}
use hit_database_exp3p2_cpp.Result.Exceptions.Messages.{decimal}
use hit_database_exp3p2_cpp.HashTable.{FileRef}
use hit_database_exp3p2_cpp.Iter.Enumerate
use hit_database_exp3p2_cpp.Iter.Enumerate.{enumerate, indexed, iterate_all}
use hit_database_exp3p2_cpp.Buffer.{
  StatedPage, BufMgr, line, print, show_bool, show_int, count_frame, print_frames, print_self,
}

-- Words with a blank between each two, and a line's end behind the last.
abbrev pub sentence : List String → String
sentence [] = "\n"
sentence (w ∷ []) = w ++ "\n"
sentence (w ∷ v ∷ ws) = w ++ (" " ++ sentence (v ∷ ws))

abbrev pub flag : Bool → String
flag b = if b then "1" else "0"

-- The words on a frame that no file occupies, and on one that a page of a file does.
abbrev pub file_words : Option FileRef → ℕ → List String → List String
file_words none page_no ws = "file:NULL" ∷ ws
file_words (some r) page_no ws = ("file:" ++ r.filename) ∷ ("pageNo:" ++ decimal page_no) ∷ ws

abbrev pub frame_words : ℕ → StatedPage → List String
frame_words i s =
    ("FrameNo:" ++ decimal i)
    ∷ file_words s.file s.page_no (
        ("valid:" ++ flag s.valid)
        ∷ ("pinCnt:" ++ decimal s.pin_cnt)
        ∷ ("dirty:" ++ flag s.dirty)
        ∷ ("recently_referenced:" ++ flag s.recently_referenced)
        ∷ [])

-- The lines of the frames, numbered from `i` on.
abbrev pub lines : ℕ → List StatedPage → String
lines i [] = ""
lines i (s ∷ ss) = sentence (frame_words i s) ++ lines (i + 1) ss

abbrev pub count_valid : List StatedPage → ℕ
count_valid [] = 0
count_valid (s ∷ ss) = if s.valid then count_valid ss + 1 else count_valid ss

-- What printSelf() is to write. Without a frame its loop reads past the pool.
abbrev pub report : List StatedPage → Result String
report [] = undefined
report (s ∷ ss) = ok (
    lines 0 (s ∷ ss) ++ ("Total Number of Valid Frames:" ++ decimal (count_valid (s ∷ ss)) ++ "\n"))

show_bool-flag : (b : Bool) → show_bool b ≡ flag b
show_bool-flag true = refl
show_bool-flag false = refl

words_state :
    (a b c d : String)
    → "valid:"
        ++ (a
            ++ (" "
                ++ ("pinCnt:"
                    ++ (b
                        ++ (" "
                            ++ ("dirty:"
                                ++ (c ++ (" " ++ ("recently_referenced:" ++ (d ++ "\n"))))))))))
      ≡ sentence (
          ("valid:" ++ a) ∷ ("pinCnt:" ++ b) ∷ ("dirty:" ++ c) ∷ ("recently_referenced:" ++ d) ∷ [])
words_state a b c d = simp append_assoc refl

by_file :
    (file : Option FileRef) (n : ℕ) (a b c d : String)
    → elim file [
      | none ↦ "file:NULL "
      | some r ↦ "file:" ++ r.filename ++ " " ++ "pageNo:" ++ decimal n ++ " "
    ]
        ++ ("valid:"
            ++ (a
                ++ (" "
                    ++ ("pinCnt:"
                        ++ (b
                            ++ (" "
                                ++ ("dirty:"
                                    ++ (c
                                        ++ (" " ++ ("recently_referenced:" ++ (d ++ "\n")))))))))))
      ≡ sentence (
          file_words file n (
            ("valid:" ++ a)
            ∷ ("pinCnt:" ++ b)
            ∷ ("dirty:" ++ c)
            ∷ ("recently_referenced:" ++ d)
            ∷ []))
by_file none n a b c d =
    append_assoc "file:NULL" " " _ ∙ ap (λ t. "file:NULL" ++ (" " ++ t)) (words_state a b c d)
by_file (some r) n a b c d = simp append_assoc refl

sentence-file_words :
    (w : String) (file : Option FileRef) (n : ℕ) (ws : List String)
    → w ++ (" " ++ sentence (file_words file n ws)) ≡ sentence (w ∷ file_words file n ws)
sentence-file_words w none n ws = refl
sentence-file_words w (some r) n ws = refl

line-sentence : (i : ℕ) (s : StatedPage) → line (pos i) s ≡ sentence (frame_words i s)
unfolding line print show_int
line-sentence i s =
    rw
      (
        show_bool-flag s.valid,
        show_bool-flag s.dirty,
        show_bool-flag s.recently_referenced,
        by_file s.file s.page_no (flag s.valid) (decimal s.pin_cnt) (flag s.dirty)
            (flag s.recently_referenced),
      )
      (sym (append_assoc "FrameNo:" (decimal i) _)
        ∙ sentence-file_words ("FrameNo:" ++ decimal i) s.file s.page_no (
            ("valid:" ++ flag s.valid)
            ∷ ("pinCnt:" ++ decimal s.pin_cnt)
            ∷ ("dirty:" ++ flag s.dirty)
            ∷ ("recently_referenced:" ++ flag s.recently_referenced)
            ∷ []))

count_frame_lem :
    (s : StatedPage) (n : ℕ) → n + 1 < 2 ^ 31 → count_frame s n ≡ ok (if s.valid then n + 1 else n)
unfolding count_frame
count_frame_lem s n room = rw (lt→ltb (n + 1) (2 ^ 31) room) (by_case s.valid)
  where
    by_case : (b : Bool) → (if b then ok (n + 1) else ok n) ≡ ok (if b then n + 1 else n)
    by_case true = refl
    by_case false = refl

print_frames-lines :
    (ss : List StatedPage) (i : ℕ) (out : String) (n : ℕ)
    → n + length ss < 2 ^ 31
    → print_frames (indexed i ss) out n ≡ ok (out ++ lines i ss, n + count_valid ss)
unfolding print_frames indexed
print_frames-lines [] i out n room =
    let text : out ≡ out ++ "" = sym (append-nil out) in
    let number : n ≡ n + 0 = omega arith in ap₂ (λ (t : String) (k : ℕ). ok (t, k)) text number
print_frames-lines (s ∷ ss) i out n room =
    let counted = if s.valid then n + 1 else n in
    let below : counted ≤ n + 1 = ground arith in
    let rest = print_frames-lines ss (i + 1) (out ++ line (pos i) s) counted (omega arith) in
    let number : counted + count_valid ss
        ≡ n + (if s.valid then count_valid ss + 1 else count_valid ss) =
      ground arith in
    ap (λ (r : Result ℕ). r >>= λ k. print_frames (indexed (i + 1) ss) (out ++ line (pos i) s) k)
      (count_frame_lem s n (omega arith))
    ∙ rest
    ∙ ap₂ (λ (t : String) (k : ℕ). ok (t, k))
        (append_assoc out (line (pos i) s) (lines (i + 1) ss)
          ∙ ap (λ t. out ++ (t ++ lines (i + 1) ss)) (line-sentence i s))
        number

-- printSelf() of a pool of fewer than 2³¹ frames writes a line for each frame, in order, with the words
-- FrameNo, file (with pageNo, if there is one), valid, pinCnt, dirty and recently_referenced, each with
-- its value behind a colon and the frame's place behind the first, and then the number of valid
-- frames; without a frame it is undefined.
pub print_self-report : (m : BufMgr) → length m.frames < 2 ^ 31 → print_self m ≡ report m.frames
unfolding print_self enumerate
print_self-report m small = by_frames m.frames small
  where
    by_frames :
        (ss : List StatedPage)
        → length ss < 2 ^ 31
        → (do
          e ← enumerate ss
          (pairs, last) ← Enumerate.iterate (suc (length ss)) e
          (out, valid_frames) ← print_frames pairs "" 0
          ok (out ++ ("Total Number of Valid Frames:" ++ decimal valid_frames ++ "\n")))
          ≡ report ss
    by_frames [] small = refl
    by_frames (s ∷ ss) small =
        let text : "" ++ lines 0 (s ∷ ss) ≡ lines 0 (s ∷ ss) = nil-append (lines 0 (s ∷ ss)) in
        let number : 0 + count_valid (s ∷ ss) ≡ count_valid (s ∷ ss) = omega arith in
        rw (iterate_all (suc (length (s ∷ ss))) 0 (s ∷ ss) (omega arith) (omega arith)) (
          rw (print_frames-lines (s ∷ ss) 0 "" 0 (omega arith)) (
            ap₂
              (λ (t : String) (k : ℕ).
                ok (t ++ ("Total Number of Valid Frames:" ++ decimal k ++ "\n")))
              text number))
