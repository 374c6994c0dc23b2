-- ===== src/Page/Compact.antt =====
-- The slot array gives back the unused slots at its end (deleteRecord, src/page.cpp).
use hit_database_exp3p2_cpp.Base.{
  ℕ, zero, suc, ◌+◌, ◌-◌, ◌*◌, ◌^◌, ◌≤◌, ◌<◌, ◌≡◌, refl, ◌∙◌, ap, subst, inl, inr, true, false,
  List, arith, length, ◌==◌, Bool-cases,
}
use hit_database_exp3p2_cpp.Result.{ok, Returns}
use hit_database_exp3p2_cpp.Page.{Page, page_number, next_page_number}
use hit_database_exp3p2_cpp.Page.Delete.{count_unused_tail, drop_slots, compact_slots}
use hit_database_exp3p2_cpp.Page.Slot.{PageSlot, slot_size, slot_of, sub16}
use hit_database_exp3p2_cpp.Page.Slot.Fills.{get_slot_lem, sub16-le}
use hit_database_exp3p2_cpp.Page.Layout.{Layout, vacancy}
use hit_database_exp3p2_cpp.Page.Layout.Sums.{sum}
use hit_database_exp3p2_cpp.Page.Layout.Resize.{shrink_lem}
use hit_database_exp3p2_cpp.Page.Valid.{slots, num, upper, free, IsValid, num-lt, free-le}

-- The loop counts down to the first used slot, or to the start: `n` is what is left of the array.
count_unused_tail_lem :
    (d : List ℕ) (j count : ℕ)
    → slot_size * j ≤ length d
    → (n : ℕ) × (count_unused_tail d j count ≡ ok (count + (j - n)))
      × (n ≤ j)
      × ((m : ℕ) → n < m → m ≤ j → (slot_of d m).used ≡ false)
      × (0 < n → (slot_of d n).used ≡ true)
unfolding count_unused_tail
count_unused_tail_lem d zero count room =
    (0, ap ok (omega arith), omega arith, λ m a b. absurd (omega arith), λ a. absurd (omega arith))
count_unused_tail_lem d (suc j) count room =
    let read = get_slot_lem d (suc j) (omega arith) room in
    elim (Bool-cases (slot_of d (suc j)).used) [
      | inl on ↦ (
        suc j,
        rw (read, on) (ap ok (omega arith)),
        omega arith,
        λ m a b. absurd (omega arith),
        λ a. on,
      )
      | inr off ↦
          let (n, e, le, all, last) = count_unused_tail_lem d j (count + 1) (omega arith) in
          (
            n,
            rw (read, off) (e ∙ ap ok (omega arith)),
            omega arith,
            λ m a b. elim (Bool-cases (m == suc j)) [
              | inl here ↦ let h : m ≡ suc j = ground arith in rw h off
              | inr away ↦ let h : ¬ (m ≡ suc j) = ground arith in all m a (omega arith)
            ],
            last,
          )
    ]

-- Slots that are given back are vacant ones.
shrink_many :
    (f : ℕ → PageSlot) (n count upper free : ℕ)
    → ((m : ℕ) → n < m → m ≤ n + count → (f m).used ≡ false)
    → Layout f (n + count) upper free
    → Layout f n upper (free - count)
shrink_many f n zero upper free off l =
    let a : n + 0 ≡ n = omega arith in let b : free - 0 ≡ free = omega arith in rw b (rw a at l)
shrink_many f n (suc count) upper free off l =
    let a : n + suc count ≡ suc (n + count) = omega arith in
    let b : free - suc count ≡ free - 1 - count = omega arith in
    let shorter =
      shrink_lem f (n + count) upper free (off (suc (n + count)) (omega arith) (omega arith))
        (rw a at l) in
    rw b (shrink_many f n count upper (free - 1) (λ m p q. off m p (omega arith)) shorter)

-- Unused slots at the end are counted among the free ones.
vacancies :
    (f : ℕ → PageSlot) (n count : ℕ)
    → ((m : ℕ) → n < m → m ≤ n + count → (f m).used ≡ false)
    → sum (vacancy f) n + count ≡ sum (vacancy f) (n + count)
vacancies f n zero off = let a : n + 0 ≡ n = omega arith in rw a (omega arith)
vacancies f n (suc count) off =
    let a : n + suc count ≡ suc (n + count) = omega arith in
    let one : vacancy f (suc (n + count)) ≡ 1 =
      rw (off (suc (n + count)) (omega arith) (omega arith)) refl in
    rw a (omega (arith, vacancies f n count (λ m p q. off m p (omega arith))))

-- Page `q` is page `p` without the unused slots at the end of its slot array.
pub record Compacted (p q : Page) : Type 0 where
  pub valid : IsValid q
  pub same_data : q.data_ ≡ p.data_
  pub shorter : num q ≤ num p
  pub dropped : (m : ℕ) → num q < m → m ≤ num p → (slots p m).used ≡ false
  pub last : 0 < num q → (slots p (num q)).used ≡ true
  pub same_upper : upper q ≡ upper p
  pub same_page : page_number q ≡ page_number p
  pub same_next : next_page_number q ≡ next_page_number p

-- The array is cut behind its last used slot.
pub compact_slots-Compacted :
    {p : Page} (v : IsValid p)
    → 0 < num p
    → (slots p (num p)).used ≡ false
    → Returns (compact_slots p) (Compacted p)
unfolding compact_slots drop_slots
compact_slots-Compacted {p} v some off =
    let (n, run, le, all, last) =
      count_unused_tail_lem p.data_ (num p - 1) 1 (omega (arith, v.whole, num-lt v)) in
    let c : ℕ = 1 + (num p - 1 - n) in
    let split : num p ≡ n + c = omega arith in
    let unused : (m : ℕ) → n < m → m ≤ num p → (slots p m).used ≡ false = λ m a b.
      elim (Bool-cases (m == num p)) [
        | inl e ↦ let e' : m ≡ num p = ground arith in rw e' off
        | inr ne ↦ let ne' : ¬ (m ≡ num p) = ground arith in all m a (omega arith)
      ] in
    let enough : c ≤ free p = omega (
      arith,
      vacancies (slots p) n c (λ m a b. unused m a (omega arith)),
      subst (λ x. sum (vacancy (slots p)) x ≡ free p) split v.layout.vacant,
    ) in
    let small : num p < 2 ^ 16 = omega (arith, num-lt v) in
    let a : sub16 (num p) c ≡ n = sub16-le (num p) c (omega arith) small ∙ omega arith in
    let b : sub16 (free p) c ≡ free p - c = sub16-le (free p) c enough (omega (arith, free-le v)) in
    let l : sub16 p.header.free_space_lower_bound (slot_size * c) ≡ slot_size * n =
      sub16-le p.header.free_space_lower_bound (slot_size * c) (omega (arith, v.lower))
        (omega (arith, v.lower, num-lt v))
      ∙ omega (arith, v.lower) in
    let cut : Layout (slots p) n (upper p) (free p - c) =
      shrink_many (slots p) n c (upper p) (free p) (λ m a b. unused m a (omega arith))
        (subst (λ x. Layout (slots p) x (upper p) (free p)) split v.layout) in
    (
      record {
        header = record (p.header) {
          num_slots = n;
          num_free_slots = free p - c;
          free_space_lower_bound = slot_size * n;
        };
        data_ = p.data_;
      },
      rw (run, a, b, l) refl,
      record {
        valid = record {
          whole = v.whole;
          lower = refl;
          order = omega (arith, v.order);
          layout = cut;
        };
        same_data = refl;
        shorter = omega arith;
        dropped = unused;
        last = last;
        same_upper = refl;
        same_page = refl;
        same_next = refl;
      },
    )
