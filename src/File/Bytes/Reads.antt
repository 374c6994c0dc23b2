-- ===== src/File/Bytes/Reads.antt =====
-- The reads of File on bytes against those on the list of pages (src/file.cpp).
use hit_database_exp3p2_cpp.Base.{
  ℕ, ◌+◌, ◌*◌, ◌≡◌, refl, sym, ◌∙◌, ap, Option, some, none, arith, length, inl, inr, Option-cases,
}
use hit_database_exp3p2_cpp.Result.{Result, ok, undefined}
use hit_database_exp3p2_cpp.Page.{Page}
use hit_database_exp3p2_cpp.File.Stream.{
  File, page_position, page_index, get_elem?, fetch, read_page_header,
}
use hit_database_exp3p2_cpp.File.Bytes.{
  read_header_bytes, read_page_header_bytes, read_page_bytes, file_header_bytes, page_header_bytes,
  stream_read,
}
use hit_database_exp3p2_cpp.File.Bytes.Numbers.{
  page_header_of-page_header_bytes, file_header_of-file_header_bytes, length-file_header_bytes,
}
use hit_database_exp3p2_cpp.File.Bytes.Blocks.{
  stream_read-append, stream_read_block, stream_read_short,
}
use hit_database_exp3p2_cpp.File.Bytes.Image.{
  file_bytes, pages_bytes, PageFits, read_page-some, length-pages_bytes,
}
use hit_database_exp3p2_cpp.File.Bytes.Writes.{FileFits}

-- What a read leaves in the variable that it was to fill.
abbrev pub delivered : {A : Type 0} → Option A → Result A
delivered none = undefined
delivered (some a) = ok a

module _ (f : File) (fits : FileFits f) where
  front : length (file_header_bytes f.file_header) ≡ 16
  front = length-file_header_bytes f.file_header

  pub read_header_bytes-file_bytes : read_header_bytes (file_bytes f) ≡ some f.file_header
  unfolding read_header_bytes
  read_header_bytes-file_bytes =
      rw
        (
          stream_read_block (file_header_bytes f.file_header) (pages_bytes f.pages) 16 (sym front),
          read_header_bytes,
        )
        (ap (λ h. some h) (file_header_of-file_header_bytes f.file_header fits.header))

  -- A read among the pages.
  read_pages :
      (pos k m : ℕ)
      → pos ≡ 16 + k
      → stream_read pos m (file_bytes f) ≡ stream_read k m (pages_bytes f.pages)
  read_pages pos k m e =
      stream_read-append (file_header_bytes f.file_header) (pages_bytes f.pages) pos k m
        (omega (arith, front))

  position : (n : ℕ) → page_position n ≡ 16 + page_index n * 8192
  unfolding page_position
  position n = refl

  no_page :
      (n : ℕ)
      → get_elem? f.pages (page_index n) ≡ none
      → stream_read (page_position n) 16 (file_bytes f) ≡ none
  no_page n past =
      read_pages (page_position n) (page_index n * 8192) 16 (position n)
      ∙ stream_read_short (pages_bytes f.pages) (page_index n * 8192) 16
          (omega (arith, length-pages_bytes f.pages (page_index n) fits.pages past))

  module _ (n : ℕ) (p : Page) (here : get_elem? f.pages (page_index n) ≡ some p) where
    page_there :
        PageFits p
        × (stream_read (page_position n) 16 (file_bytes f) ≡ some (page_header_bytes p.header))
        × (stream_read (page_position n + 16) 8176 (file_bytes f) ≡ some p.data_)
    page_there =
        let (pfits, head, string) =
          read_page-some f.pages (page_index n) (page_index n * 8192) p fits.pages refl here in
        (
          pfits,
          read_pages (page_position n) (page_index n * 8192) 16 (position n) ∙ head,
          read_pages (page_position n + 16) (page_index n * 8192 + 16) 8176
                (omega (arith, position n))
              ∙ string,
        )

  fetch-good : (n : ℕ) → fetch f n ≡ get_elem? f.pages (page_index n)
  unfolding fetch
  fetch-good n = rw fits.good refl

  pub read_page_bytes-file_bytes : (n : ℕ) → read_page_bytes n (file_bytes f) ≡ fetch f n
  unfolding read_page_bytes fetch
  read_page_bytes-file_bytes n = elim (Option-cases (get_elem? f.pages (page_index n))) [
    | inl past ↦ rw (fits.good, past, no_page n past, read_page_bytes) refl
    | inr (p, here) ↦
        let (pfits, head, string) = page_there n p here in
        rw (fits.good, here, head, string, read_page_bytes)
          (ap (λ h. some (record { header = h; data_ = p.data_ }))
            (page_header_of-page_header_bytes p.header pfits.header))
  ]

  pub read_page_header_bytes-file_bytes :
      (n : ℕ) → (read_page_header n f).0 ≡ delivered (read_page_header_bytes n (file_bytes f))
  unfolding read_page_header_bytes read_page_header
  read_page_header_bytes-file_bytes n = elim (Option-cases (get_elem? f.pages (page_index n))) [
    | inl past ↦
        rw (fetch-good n ∙ past, read_page_header, no_page n past, read_page_header_bytes) refl
    | inr (p, here) ↦
        let (pfits, head, string) = page_there n p here in
        rw (fetch-good n ∙ here, read_page_header, head, read_page_header_bytes)
          (ap (λ h. ok h) (sym (page_header_of-page_header_bytes p.header pfits.header)))
  ]
