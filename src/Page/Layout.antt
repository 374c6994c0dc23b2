-- ===== src/Page/Layout.antt =====
-- How the records of a page lie (src/page.h, src/page.cpp), over any reading of its slots.
pub mod Sums
pub mod Place
pub mod Clear
pub mod Resize
use hit_database_exp3p2_cpp.Base.{ℕ, ◌+◌, ◌≤◌, ◌<◌, ◌≡◌, true, ◌&&◌, ltb, if◌then◌else◌}
use hit_database_exp3p2_cpp.Page.{data_size}
use hit_database_exp3p2_cpp.Page.Slot.{PageSlot}
use Sums.{sum}

-- The bytes of a slot's record, if it stands before an offset.
abbrev pub weight : (ℕ → PageSlot) → ℕ → ℕ → ℕ
weight f x m = if (f m).used && ltb (f m).item_offset x then (f m).item_length else 0

-- The bytes of the records before an offset.
abbrev pub below : (ℕ → PageSlot) → ℕ → ℕ → ℕ
below f n x = sum (weight f x) n

abbrev pub fill : (ℕ → PageSlot) → ℕ → ℕ
fill f m = if (f m).used then (f m).item_length else 0

abbrev pub vacancy : (ℕ → PageSlot) → ℕ → ℕ
vacancy f m = if (f m).used then 0 else 1

abbrev pub Live : (ℕ → PageSlot) → ℕ → ℕ → Type 0
Live f n m = (0 < m) × (m ≤ n) × ((f m).used ≡ true)

-- Slots 1 to `n`: the records of the used ones are not empty, stand apart, and fill the page
-- from `upper` to its end without a gap; `free` slots are unused.
pub record Layout (f : ℕ → PageSlot) (n upper free : ℕ) : Type 0 where
  pub starts : (m : ℕ) → Live f n m → upper ≤ (f m).item_offset
  pub ends : (m : ℕ) → Live f n m → (f m).item_offset + (f m).item_length ≤ data_size
  pub nonempty : (m : ℕ) → Live f n m → 0 < (f m).item_length
  pub apart :
      (m k : ℕ) → Live f n m → Live f n k → ¬ (m ≡ k) → ¬ ((f m).item_offset ≡ (f k).item_offset)
  pub stacked : (m : ℕ) → Live f n m → below f n (f m).item_offset + upper ≡ (f m).item_offset
  pub filled : sum (fill f) n + upper ≡ data_size
  pub vacant : sum (vacancy f) n ≡ free
