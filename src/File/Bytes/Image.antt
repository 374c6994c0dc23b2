-- ===== src/File/Bytes/Image.antt =====
-- A file as the bytes that stand for it: a read or a write of a header or of a page on the bytes is the
-- read or the write on the list of pages (src/file.cpp).
use mathlib.Core.List.{append_assoc, append-nil}
use hit_database_exp3p2_cpp.Base.{
  ℕ, zero, suc, ◌+◌, ◌*◌, ◌≤◌, subst, ◌≡◌, refl, sym, ◌∙◌, ap, some, none, List, [], ◌∷◌, ◌++◌,
  arith, length, replicate, length-append, length-replicate,
}
use hit_database_exp3p2_cpp.Page.{Page, initialize}
use hit_database_exp3p2_cpp.File.Stream.{File, put, get_elem?, blank}
use hit_database_exp3p2_cpp.File.Bytes.{
  file_header_bytes, page_header_bytes, stream_write, stream_read,
}
use hit_database_exp3p2_cpp.File.Bytes.Numbers.{PageHeaderFits, length-page_header_bytes}
use hit_database_exp3p2_cpp.File.Bytes.Blocks.{
  stream_write-append, stream_write_block, stream_write_end, stream_write_pad, stream_read-append,
  stream_read_block,
}

-- The bytes of a page, of pages one after the other, and of a file.
abbrev pub page_bytes : Page → List ℕ
page_bytes p = page_header_bytes p.header ++ p.data_

abbrev pub pages_bytes : List Page → List ℕ
pages_bytes [] = []
pages_bytes (p ∷ ps) = page_bytes p ++ pages_bytes ps

abbrev pub file_bytes : File → List ℕ
file_bytes f = file_header_bytes f.file_header ++ pages_bytes f.pages

-- Pages as they are in memory: the string has its size, and the numbers fit.
pub record PageFits (p : Page) : Type 0 where
  pub header : PageHeaderFits p.header
  pub whole : length p.data_ ≡ 8176

abbrev pub AllFit : List Page → Type 0
AllFit [] = Unit {0}
AllFit (p ∷ ps) = PageFits p × AllFit ps

length-page_bytes : (p : Page) → PageFits p → length (page_bytes p) ≡ 8192
length-page_bytes p fits = omega (
  arith,
  length-append (page_header_bytes p.header) p.data_,
  length-page_header_bytes p.header,
  fits.whole,
)

-- A page that a write has skipped is zeros.
blank_bytes : page_bytes blank ≡ replicate 8192 0
unfolding initialize page_header_bytes replicate
blank_bytes = refl

-- The two writes of a page, at a position among the pages.
abbrev pub two_writes : ℕ → Page → List ℕ → List ℕ
two_writes pos p bs =
    stream_write (pos + 16) p.data_ (stream_write pos (page_header_bytes p.header) bs)

module _ (p : Page) (fits : PageFits p) where
  pub two_writes-append :
      (a b : List ℕ) (pos k : ℕ)
      → pos ≡ length a + k
      → two_writes pos p (a ++ b) ≡ a ++ two_writes k p b
  two_writes-append a b pos k e =
      ap (stream_write (pos + 16) p.data_)
        (stream_write-append a b (page_header_bytes p.header) pos k e)
      ∙ stream_write-append a (stream_write k (page_header_bytes p.header) b) p.data_ (pos + 16)
          (k + 16) (omega arith)

  -- The second write, behind the header.
  behind_header :
      (b : List ℕ)
      → stream_write 16 p.data_ (page_header_bytes p.header ++ b)
        ≡ page_header_bytes p.header ++ stream_write 0 p.data_ b
  behind_header b =
      stream_write-append (page_header_bytes p.header) b p.data_ 16 0
        (omega (arith, length-page_header_bytes p.header))

  two_writes_block :
      (x : Page) (b : List ℕ) → PageFits x → two_writes 0 p (page_bytes x ++ b) ≡ page_bytes p ++ b
  two_writes_block x b xfits =
      ap (λ bs. two_writes 0 p bs) (append_assoc (page_header_bytes x.header) x.data_ b)
      ∙ ap (stream_write 16 p.data_) (
          stream_write_block (page_header_bytes x.header) (x.data_ ++ b)
            (page_header_bytes p.header)
            (length-page_header_bytes p.header ∙ sym (length-page_header_bytes x.header)))
      ∙ behind_header (x.data_ ++ b)
      ∙ ap (λ bs. page_header_bytes p.header ++ bs)
          (stream_write_block x.data_ b p.data_ (fits.whole ∙ sym xfits.whole))
      ∙ sym (append_assoc (page_header_bytes p.header) p.data_ b)

  two_writes_end : two_writes 0 p [] ≡ page_bytes p ++ []
  two_writes_end =
      ap (stream_write 16 p.data_) (
        stream_write_end (page_header_bytes p.header)
        ∙ sym (append-nil (page_header_bytes p.header)))
      ∙ behind_header []
      ∙ ap (λ bs. page_header_bytes p.header ++ bs) (stream_write_end p.data_)
      ∙ sym (append-nil (page_bytes p))

  pub two_writes-put :
      (ps : List Page) (i pos : ℕ)
      → AllFit ps
      → pos ≡ i * 8192
      → two_writes pos p (pages_bytes ps) ≡ pages_bytes (put ps i p)
  two_writes-put [] zero pos all e = rw e two_writes_end
  two_writes-put [] (suc i) pos all e =
      let k = i * 8192 in
      ap (stream_write (pos + 16) p.data_)
        (stream_write_pad 8192 k pos (page_header_bytes p.header) (omega arith))
      ∙ stream_write-append (replicate 8192 0) (stream_write k (page_header_bytes p.header) [])
          p.data_ (pos + 16) (k + 16) (omega (arith, length-replicate {A = ℕ} 8192 0))
      ∙ ap (λ bs. bs ++ two_writes k p []) (sym blank_bytes)
      ∙ ap (λ bs. page_bytes blank ++ bs) (two_writes-put [] i k tt refl)
  two_writes-put (x ∷ xs) zero pos all e = rw e (two_writes_block x (pages_bytes xs) all.0)
  two_writes-put (x ∷ xs) (suc i) pos all e =
      two_writes-append (page_bytes x) (pages_bytes xs) pos (i * 8192)
        (omega (arith, length-page_bytes x all.0))
      ∙ ap (λ bs. page_bytes x ++ bs) (two_writes-put xs i (i * 8192) all.1 refl)

-- A page at a position among the pages is read whole.
pub read_page-some :
    (ps : List Page) (i pos : ℕ) (p : Page)
    → AllFit ps
    → pos ≡ i * 8192
    → get_elem? ps i ≡ some p
    → PageFits p
      × (stream_read pos 16 (pages_bytes ps) ≡ some (page_header_bytes p.header))
      × (stream_read (pos + 16) 8176 (pages_bytes ps) ≡ some p.data_)
read_page-some [] i pos p all e here = absurd (cc)
read_page-some (x ∷ xs) zero pos p all e here =
    let same : x ≡ p = cc in
    let bytes = append_assoc (page_header_bytes x.header) x.data_ (pages_bytes xs) in
    subst
      (λ q.
        PageFits q
        × (stream_read pos 16 (pages_bytes (x ∷ xs)) ≡ some (page_header_bytes q.header))
        × (stream_read (pos + 16) 8176 (pages_bytes (x ∷ xs)) ≡ some q.data_))
      same
      (
        all.0,
        ap (λ bs. stream_read pos 16 bs) bytes
            ∙ ap (λ k. stream_read k 16 (page_header_bytes x.header ++ (x.data_ ++ pages_bytes xs)))
                e
            ∙ stream_read_block (page_header_bytes x.header) (x.data_ ++ pages_bytes xs) 16
                (sym (length-page_header_bytes x.header)),
        ap (λ bs. stream_read (pos + 16) 8176 bs) bytes
            ∙ stream_read-append (page_header_bytes x.header) (x.data_ ++ pages_bytes xs) (pos + 16)
                0 8176 (omega (arith, length-page_header_bytes x.header))
            ∙ stream_read_block x.data_ (pages_bytes xs) 8176 (sym all.0.whole),
      )
read_page-some (x ∷ xs) (suc i) pos p all e here =
    let (fits, header, string) = read_page-some xs i (i * 8192) p all.1 refl here in
    let front = length-page_bytes x all.0 in
    (
      fits,
      stream_read-append (page_bytes x) (pages_bytes xs) pos (i * 8192) 16 (omega arith) ∙ header,
      stream_read-append (page_bytes x) (pages_bytes xs) (pos + 16) (i * 8192 + 16) 8176
            (omega arith)
          ∙ string,
    )

pub length-pages_bytes :
    (ps : List Page) (i : ℕ)
    → AllFit ps
    → get_elem? ps i ≡ none
    → length (pages_bytes ps) ≤ i * 8192
length-pages_bytes [] i all e = omega arith
length-pages_bytes (x ∷ xs) zero all e = absurd (cc)
length-pages_bytes (x ∷ xs) (suc i) all e = omega (
  arith,
  length-append (page_bytes x) (pages_bytes xs),
  length-page_bytes x all.0,
  length-pages_bytes xs i all.1 e,
)
