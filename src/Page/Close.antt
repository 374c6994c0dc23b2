-- ===== src/Page/Close.antt =====
-- The gap that a deleted record leaves is closed (deleteRecord, src/page.cpp).
use hit_database_exp3p2_cpp.Base.{
  ℕ, ◌+◌, ◌-◌, ◌*◌, ◌^◌, ◌≤◌, ◌<◌, ◌≡◌, refl, ◌∙◌, ap, inl, inr, List, arith, length, byte, slice,
  splice, replicate, ltb, Bool-cases, length-splice, byte-splice_before, byte-splice_in,
  byte-splice_after, byte-slice, length-slice, length-replicate, lt→ltb,
}
use hit_database_exp3p2_cpp.Result.{Returns}
use hit_database_exp3p2_cpp.Page.{Page, data_size}
use hit_database_exp3p2_cpp.Page.Delete.{Moving, move_slots, shift_right, close_gap}
use hit_database_exp3p2_cpp.Page.Slot.{slot_size, slot_of}
use hit_database_exp3p2_cpp.Page.Slot.Writes.{slot_of_congr}
use hit_database_exp3p2_cpp.Page.Slot.Fills.{get_slot_lem, std_replace_lem, std_substr_lem}
use hit_database_exp3p2_cpp.Page.Layout.Clear.{shift}
use hit_database_exp3p2_cpp.Page.Moves.{
  Moved, move_slots-Moved, Moved-start, move_offset-upper, slot_kept,
}
use hit_database_exp3p2_cpp.Page.Valid.{slots, num, upper, free, IsValid, Holds, num-lt, read_slot}

-- The string `c` after the gap of slot `k` of page `p` is closed.
pub record Closed (p : Page) (k : ℕ) (c : List ℕ) : Type 0 where
  pub whole : length c ≡ data_size
  pub shifted : (m : ℕ) → 0 < m → m ≤ num p → slot_of c m ≡ shift (slots p k) (slots p m)
  pub moved :
      (i : ℕ)
      → upper p ≤ i
      → i < (slots p k).item_offset
      → byte c (i + (slots p k).item_length) ≡ byte p.data_ i
  pub above :
      (i : ℕ) → (slots p k).item_offset + (slots p k).item_length ≤ i → byte c i ≡ byte p.data_ i

module _ {p : Page} (v : IsValid p) (k : ℕ) (h : Holds p k) where
  start : ℕ
  start = (slots p k).item_offset

  len : ℕ
  len = (slots p k).item_length

  cleared : List ℕ
  unfolding start len
  cleared = splice p.data_ start len (replicate len 0)

  bounds : (upper p ≤ start) × (start + len ≤ data_size)
  unfolding start len
  bounds = (v.layout.starts k h, v.layout.ends k h)

  fits : start + len ≤ length p.data_
  fits = omega (arith, bounds, v.whole)

  length-cleared : length cleared ≡ data_size
  unfolding cleared
  length-cleared =
      length-splice p.data_ start len (replicate len 0) (length-replicate len 0) fits ∙ v.whole

  cleared_before : (i : ℕ) → i < start → byte cleared i ≡ byte p.data_ i
  unfolding cleared
  cleared_before i l =
      byte-splice_before p.data_ start len (replicate len 0) (length-replicate len 0) fits i l

  cleared_after : (i : ℕ) → start + len ≤ i → byte cleared i ≡ byte p.data_ i
  unfolding cleared
  cleared_after i l =
      byte-splice_after p.data_ start len (replicate len 0) (length-replicate len 0) fits i l

  slots-cleared : (m : ℕ) → 0 < m → m ≤ num p → slot_of cleared m ≡ slots p m
  slots-cleared m a b =
      slot_of_congr cleared p.data_ m start a (omega (arith, v.order, bounds)) cleared_before

  small : (m : ℕ) → Holds p m → (slots p m).item_offset + (slots p k).item_length < 2 ^ 16
  small m w = omega (arith, v.layout.ends m w, v.layout.ends k h)

  room : slot_size * num p ≤ length cleared
  room = omega (arith, length-cleared, num-lt v)

  loop :
      Returns
        (move_slots k (num p) 1 (record { data_ = cleared; move_offset = start; move_bytes = 0 }))
        (Moved (slots p) cleared (num p) k (num p))
  unfolding start
  loop =
      move_slots-Moved (slots p) cleared (num p) k room h small (num p) 0 _ (omega arith)
        (Moved-start (slots p) cleared (num p) k room h small slots-cleared)

  module _ (s : Moving) (mv : Moved (slots p) cleared (num p) k (num p) s) where
    total : s.move_bytes + upper p ≡ start
    unfolding start
    total = omega (arith, mv.bytes, v.layout.stacked k h)

    kept : (i : ℕ) → upper p ≤ i → i < start → byte s.data_ i ≡ byte p.data_ i
    kept i a b = mv.beyond i (omega (arith, v.order)) ∙ cleared_before i b

    kept_after : (i : ℕ) → start + len ≤ i → byte s.data_ i ≡ byte p.data_ i
    kept_after i a = mv.beyond i (omega (arith, v.order, bounds)) ∙ cleared_after i a

    slots_moved : (m : ℕ) → 0 < m → m ≤ num p → slot_of s.data_ m ≡ shift (slots p k) (slots p m)
    slots_moved = mv.done

    whole_s : length s.data_ ≡ data_size
    whole_s = mv.whole ∙ length-cleared

    -- Nothing stood before the record.
    still : s.move_bytes ≡ 0 → Returns (shift_right k s) (Closed p k)
    unfolding shift_right start len
    still e = (
      s.data_,
      rw e refl,
      record {
        whole = whole_s;
        shifted = slots_moved;
        moved = λ i a b. absurd (omega (arith, total));
        above = kept_after;
      },
    )

    module _ (some_bytes : 0 < s.move_bytes) where
      part : List ℕ
      part = slice s.data_ (upper p) s.move_bytes

      target : ℕ
      unfolding len
      target = upper p + len

      room_part : upper p + s.move_bytes ≤ length s.data_
      room_part = omega (arith, total, bounds, whole_s)

      length-part : length part ≡ s.move_bytes
      unfolding part
      length-part = length-slice s.data_ (upper p) s.move_bytes room_part

      room_target : target + s.move_bytes ≤ length s.data_
      unfolding target
      room_target = omega (arith, total, bounds, whole_s)

      slide : Returns (shift_right k s) (Closed p k)
      unfolding shift_right start len part target
      slide =
          let at_upper =
            move_offset-upper (slots p) cleared (num p) k room h small (upper p) (free p) s v.layout
              mv some_bytes in
          let read = get_slot_lem s.data_ k h.0 (omega (arith, whole_s, num-lt v, h.1)) in
          let same = slot_kept (slots p) cleared (num p) k room h small (num p) s mv in
          (
            splice s.data_ target s.move_bytes part,
            rw (lt→ltb 0 s.move_bytes some_bytes, read, same, at_upper)
                (rw (std_substr_lem s.data_ (upper p) s.move_bytes (omega (arith, room_part)))
                  (std_replace_lem s.data_ target s.move_bytes part (omega (arith, room_target)))),
            record {
              whole =
                  length-splice s.data_ target s.move_bytes part length-part room_target ∙ whole_s;
              shifted = λ m a b.
                  slot_of_congr _ s.data_ m (upper p) a (omega (arith, v.order)) (λ i l.
                    byte-splice_before s.data_ target s.move_bytes part length-part room_target i
                      (omega arith))
                  ∙ slots_moved m a b;
              moved = λ i a b.
                  let x : ℕ = i - upper p in
                  let at_x : i + len ≡ target + x = omega arith in
                  let from_x : upper p + x ≡ i = omega arith in
                  let l : x < s.move_bytes = omega (arith, total) in
                  ap (byte (splice s.data_ target s.move_bytes part)) at_x
                  ∙ byte-splice_in s.data_ target s.move_bytes part length-part room_target x l
                  ∙ byte-slice s.data_ (upper p) s.move_bytes x l
                  ∙ ap (byte s.data_) from_x
                  ∙ kept i a b;
              above = λ i a.
                  byte-splice_after s.data_ target s.move_bytes part length-part room_target i
                    (omega (arith, total))
                  ∙ kept_after i a;
            },
          )

  -- The string is closed over the gap without a fault.
  pub close_gap-Closed : Returns (close_gap p k) (Closed p k)
  unfolding close_gap start len cleared
  close_gap-Closed =
      let read = get_slot_lem p.data_ k h.0 (read_slot v k h.0 h.1) in
      let (s, run, mv) = loop in
      let end : Returns (shift_right k s) (Closed p k) = elim (Bool-cases (ltb 0 s.move_bytes)) [
        | inl e ↦ slide s mv (ground arith)
        | inr e ↦ still s mv (ground arith)
      ] in
      (
        end.0,
        rw (read, std_replace_lem p.data_ start len (replicate len 0) (omega (arith, fits)), run)
            end.1,
        end.2,
      )
