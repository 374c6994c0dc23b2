-- ===== src/Buffer/Views.antt =====
-- PageView and MutablePageView of src/buffer.h. The classes differ in what may be done with the page
-- and in the flag with which they give it back, so that one record with the flag stands for both.
-- BufMgr::unPinPage, for which src/buffer.cpp has no body with the declared parameters, is a parameter.
pub mod Release
use hit_database_exp3p2_cpp.Base.{
  ℕ, zero, suc, Bool, true, false, Option, none, some, List, [], ◌∷◌, ltb, if◌then◌else◌, length,
  get_or, set,
}
use hit_database_exp3p2_cpp.Result.{Result, ok, throws, undefined, ◌>>=◌}
use hit_database_exp3p2_cpp.Result.Exceptions.{std_invalid_argument}
use hit_database_exp3p2_cpp.HashTable.{FileRef}
use hit_database_exp3p2_cpp.Buffer.{StatedPage, BufMgr, stated_page}

-- `stpage` is a frame's place, and `page` the place of the frame whose `data` it points to.
-- `is_mutable` tells a MutablePageView.
pub record PageView : Type 0 where
  pub stpage : ℕ
  pub page : Option ℕ
  pub is_mutable : Bool

-- The constructors from a frame.
unfoldable pub page_view : Bool → Option ℕ → Result PageView
page_view is_mutable none = throws std_invalid_argument
page_view is_mutable (some k) = ok (record { stpage = k; page = some k; is_mutable = is_mutable })

-- The move constructors: the new view, and the one moved from.
unfoldable pub move : PageView → PageView × PageView
move b = (b, record b { page = none })

-- MutablePageView::to_immut
unfoldable pub to_immut : PageView → Result PageView
to_immut v = page_view false (some v.stpage)

-- `*stpage`.
unfoldable pub frame_at : BufMgr → ℕ → Result StatedPage
frame_at m k = if ltb k (length m.frames) then ok (get_or m.frames k (stated_page k)) else undefined

abbrev pub set_frame : BufMgr → ℕ → StatedPage → BufMgr
set_frame m k s = record m { frames = set m.frames k s }

-- How a destructor ends. Destructors are noexcept, so that an exception which leaves the body ends the
-- program by std::terminate.
pub data Ended {ℓ} (A : Type ℓ) : Type ℓ where
  finished : A → Ended A
  terminated : Ended A
  faulty : Ended A

abbrev pub no_except {ℓ} : {A : Type ℓ} → Result A → Ended A
no_except (ok a) = finished a
no_except (throws e) = terminated
no_except undefined = faulty

-- What is done after it.
abbrev pub and_then {ℓ κ} : {A : Type ℓ} {B : Type κ} → Ended A → (A → Ended B) → Ended B
and_then (finished a) f = f a
and_then terminated f = terminated
and_then faulty f = faulty

module _ (un_pin_page : Option FileRef → ℕ → Bool → BufMgr → Result BufMgr) where
  -- unpin(): the view and the manager after it.
  unfoldable pub unpin : PageView → BufMgr → Result (PageView × BufMgr)
  unpin v m = elim v.page [
    | none ↦ ok (v, m)
    | some p ↦ do
      frame ← frame_at m v.stpage
      m' ← un_pin_page frame.file frame.page_no v.is_mutable m
      ok (record v { page = none }, m')
  ]

  -- The destructor.
  unfoldable pub destroy : PageView → BufMgr → Ended BufMgr
  destroy v m = no_except (do (v', m') ← unpin v m; ok m')

  -- The destructors of several views, one after another.
  unfoldable pub destroy_all : List PageView → BufMgr → Ended BufMgr
  destroy_all [] m = finished m
  destroy_all (v ∷ vs) m = and_then (destroy v m) (λ m'. destroy_all vs m')

-- A view that is moved on a number of times: the views moved from, and the last one.
unfoldable pub moves : ℕ → PageView → List PageView × PageView
moves zero v = ([], v)
moves (suc k) v = let (new, old) = move v in let (olds, last) = moves k new in (old ∷ olds, last)
