-- ===== src/Buffer/Views/Release.antt =====
-- How often the views of src/buffer.h give a page back.
use hit_database_exp3p2_cpp.Base.{
  ℕ, zero, suc, ◌≡◌, refl, subst, ◌∙◌, ap, Bool, ◌||◌, Option, none, some, List, [], ◌∷◌, ◌++◌,
}
use hit_database_exp3p2_cpp.Result.{Result, ok, throws, ok-injective}
use hit_database_exp3p2_cpp.Result.Exceptions.{page_not_pinned}
use hit_database_exp3p2_cpp.HashTable.{FileRef, lookup}
use hit_database_exp3p2_cpp.Buffer.{StatedPage, BufMgr}
use hit_database_exp3p2_cpp.Buffer.Views.{
  PageView, Ended, finished, terminated, faulty, and_then, page_view, move, frame_at, set_frame,
  unpin, destroy, destroy_all, moves,
}

-- A view that points to no page.
abbrev IsNull : PageView → Type 0
IsNull v = v.page ≡ none

abbrev AllNull : List PageView → Type 0
AllNull [] = Unit {0}
AllNull (v ∷ vs) = IsNull v × AllNull vs

moves-AllNull : (k : ℕ) (v : PageView) → AllNull (moves k v).0
unfolding moves move
moves-AllNull zero v = tt
moves-AllNull (suc k) v = (refl, moves-AllNull k v)

moves-last : (k : ℕ) (v : PageView) → (moves k v).1 ≡ v
unfolding moves move
moves-last zero v = refl
moves-last (suc k) v = moves-last k v

AllNull-append : (xs ys : List PageView) → AllNull (xs ++ ys) → AllNull xs × AllNull ys
AllNull-append [] ys h = (tt, h)
AllNull-append (x ∷ xs) ys h = let (a, b) = AllNull-append xs ys h.1 in ((h.0, a), b)

module _ (un_pin_page : Option FileRef → ℕ → Bool → BufMgr → Result BufMgr) where
  destroy-IsNull : (v : PageView) (m : BufMgr) → IsNull v → destroy un_pin_page v m ≡ finished m
  unfolding destroy unpin
  destroy-IsNull v m e = rw (e, unpin) refl

  destroy_all-AllNull :
      (vs : List PageView) (m : BufMgr) → AllNull vs → destroy_all un_pin_page vs m ≡ finished m
  unfolding destroy_all
  destroy_all-AllNull [] m h = refl
  destroy_all-AllNull (v ∷ vs) m h = rw (destroy-IsNull v m h.0) (destroy_all-AllNull vs m h.1)

  destroy_all-one :
      (xs ys : List PageView) (v : PageView) (m : BufMgr)
      → AllNull xs
      → AllNull ys
      → destroy_all un_pin_page (xs ++ v ∷ ys) m ≡ destroy un_pin_page v m
  unfolding destroy_all
  destroy_all-one [] ys v m hx hy = by_result (destroy un_pin_page v m)
    where
      by_result : (r : Ended BufMgr) → and_then r (λ m'. destroy_all un_pin_page ys m') ≡ r
      by_result (finished m') = destroy_all-AllNull ys m' hy
      by_result terminated = refl
      by_result faulty = refl
  destroy_all-one (x ∷ xs) ys v m hx hy =
      rw (destroy-IsNull x m hx.0) (destroy_all-one xs ys v m hx.1 hy)

-- Whatever unPinPage does: if a view is moved on a number of times and all the views are then
-- destroyed, the last one at any place among the views moved from, the manager sees what it sees
-- when the view alone is destroyed, so the page is given back once.
pub moves-destroy :
    (un_pin_page : Option FileRef → ℕ → Bool → BufMgr → Result BufMgr) (k : ℕ) (v : PageView)
    (m : BufMgr) (xs ys : List PageView)
    → (moves k v).0 ≡ xs ++ ys
    → destroy_all un_pin_page (xs ++ (moves k v).1 ∷ ys) m ≡ destroy un_pin_page v m
moves-destroy un_pin_page k v m xs ys split =
    let (hx, hy) = AllNull-append xs ys (subst AllNull split (moves-AllNull k v)) in
    rw (moves-last k v) (destroy_all-one un_pin_page xs ys v m hx hy)

-- What buffer.h says of unPinPage, for a page that the table has in a frame: a pin less, and the
-- frame dirty if the flag says so; PageNotPinnedException without a pin.
pub record Unpins (un_pin_page : Option FileRef → ℕ → Bool → BufMgr → Result BufMgr) : Type 0 where
  pub pinned :
      (m : BufMgr) (r : FileRef) (n k pins : ℕ) (writes : Bool) (s : StatedPage)
      → lookup m.frame_of_each_file_and_page r n ≡ ok k
      → frame_at m k ≡ ok s
      → s.pin_cnt ≡ suc pins
      → un_pin_page (some r) n writes m
        ≡ ok (set_frame m k (record s { pin_cnt = pins; dirty = s.dirty || writes }))
  pub unpinned :
      (m : BufMgr) (r : FileRef) (n k : ℕ) (writes : Bool) (s : StatedPage)
      → lookup m.frame_of_each_file_and_page r n ≡ ok k
      → frame_at m k ≡ ok s
      → s.pin_cnt ≡ 0
      → un_pin_page (some r) n writes m
        ≡ throws
            (page_not_pinned (record { name = r.filename; page_no = n; frame_no = s.frame_no }))

abbrev view : ℕ → Bool → PageView
view k is_mutable = record { stpage = k; page = some k; is_mutable = is_mutable }

module _ (un_pin_page : Option FileRef → ℕ → Bool → BufMgr → Result BufMgr)
    (unpins : Unpins un_pin_page) (m : BufMgr) (r : FileRef) (n k pins : ℕ) (s : StatedPage)
    (held : lookup m.frame_of_each_file_and_page r n ≡ ok k) (here : frame_at m k ≡ ok s)
    (file : s.file ≡ some r) (page_no : s.page_no ≡ n) where
  called : (writes : Bool) → un_pin_page s.file s.page_no writes m ≡ un_pin_page (some r) n writes m
  called writes =
      ap (λ f. un_pin_page f s.page_no writes m) file
      ∙ ap (λ q. un_pin_page (some r) q writes m) page_no

  destroy-pinned :
      (is_mutable : Bool)
      → s.pin_cnt ≡ suc pins
      → destroy un_pin_page (view k is_mutable) m
        ≡ finished (set_frame m k (record s { pin_cnt = pins; dirty = s.dirty || is_mutable }))
  unfolding destroy unpin
  destroy-pinned is_mutable pinned =
      rw (here, unpin)
        (rw (called is_mutable ∙ unpins.pinned m r n k pins is_mutable s held here pinned) refl)

-- If unPinPage does what buffer.h says, a view of a pinned frame that is moved on a number of times
-- takes one pin from the frame when all the views are destroyed, in any order in which the last one
-- stands among those moved from, and marks the frame dirty exactly if it could write or the
-- frame was dirty.
pub moves-unpin :
    (un_pin_page : Option FileRef → ℕ → Bool → BufMgr → Result BufMgr)
    → Unpins un_pin_page
    → (m : BufMgr) (r : FileRef) (n k pins : ℕ) (s : StatedPage)
    → lookup m.frame_of_each_file_and_page r n ≡ ok k
    → frame_at m k ≡ ok s
    → s.file ≡ some r
    → s.page_no ≡ n
    → s.pin_cnt ≡ suc pins
    → (is_mutable : Bool) (v : PageView) → page_view is_mutable (some k) ≡ ok v
    → (rounds : ℕ) (xs ys : List PageView) → (moves rounds v).0 ≡ xs ++ ys
    → destroy_all un_pin_page (xs ++ (moves rounds v).1 ∷ ys) m
      ≡ finished (set_frame m k (record s { pin_cnt = pins; dirty = s.dirty || is_mutable }))
unfolding page_view
moves-unpin un_pin_page unpins m r n k pins s held here file page_no pinned is_mutable v made rounds
      xs ys split =
    moves-destroy un_pin_page rounds v m xs ys split
    ∙ subst
        (λ u.
          destroy un_pin_page u m
          ≡ finished (set_frame m k (record s { pin_cnt = pins; dirty = s.dirty || is_mutable })))
        (ok-injective made)
        (destroy-pinned un_pin_page unpins m r n k pins s held here file page_no is_mutable pinned)
