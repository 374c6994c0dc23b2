-- ===== src/File/Allocate.antt =====
-- The writes at the end of allocatePage (src/file.cpp).
use hit_database_exp3p2_cpp.Base.{ℕ, ◌≡◌, refl, true, ltb, if◌then◌else◌, Bool-cases, inl, inr}
use hit_database_exp3p2_cpp.Result.{ok}
use hit_database_exp3p2_cpp.Page.{page_number, is_used}
use hit_database_exp3p2_cpp.File.{allocate_page, reuse_page, append_page, Allocation}
use hit_database_exp3p2_cpp.File.Stream.{File}
use hit_database_exp3p2_cpp.File.Access.{
  with_page, read_header_lem, write_header_lem, write_page_at_lem, write_if_used_lem,
}

-- The file after the pages of an allocation are written.
abbrev pub written : File → Allocation → File
written f a =
    let f1 = with_page f (page_number a.new_page) a.new_page in
    if is_used a.existing_page
    then with_page f1 (page_number a.existing_page) a.existing_page
    else f1

module _ (f : File) (good : f.good ≡ true) where
  pub written-good : (a : Allocation) → (written f a).good ≡ true
  written-good a = elim (Bool-cases (is_used a.existing_page)) [
    | inl e ↦ rw e good
    | inr e ↦ rw e good
  ]

  pub allocate_page_lem :
      (fuel : ℕ) (a : Allocation)
      → (if ltb 0 f.file_header.num_free_pages
            then reuse_page fuel f.file_header
            else append_page fuel f.file_header)
          f
        ≡ (ok a, f)
      → allocate_page fuel f ≡ (ok a.new_page, record (written f a) { file_header = a.header })
  unfolding allocate_page
  allocate_page_lem fuel a e =
      let f1 = with_page f (page_number a.new_page) a.new_page in
      rw
        (
          read_header_lem f good,
          e,
          write_page_at_lem f good (page_number a.new_page) a.new_page,
          write_if_used_lem f1 good a.existing_page,
          write_header_lem (written f a) (written-good a) a.header,
        )
        refl
