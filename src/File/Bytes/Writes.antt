-- ===== src/File/Bytes/Writes.antt =====
-- The writes of File on bytes against those on the list of pages (src/file.cpp).
use hit_database_exp3p2_cpp.Base.{
  ℕ, zero, suc, ◌+◌, ◌*◌, ◌≡◌, refl, sym, ◌∙◌, ap, true, List, [], ◌∷◌, ◌++◌, arith, subst, length,
  length-replicate,
}
use hit_database_exp3p2_cpp.Result.{Result}
use hit_database_exp3p2_cpp.Page.{Page, initialize}
use hit_database_exp3p2_cpp.File.Stream.{
  File, FileHeader, page_position, page_index, put, blank, write_header, write_page_at,
}
use hit_database_exp3p2_cpp.File.Access.{with_page, write_header_lem, write_page_at_lem}
use hit_database_exp3p2_cpp.File.Bytes.{write_header_bytes, write_page_bytes, file_header_bytes}
use hit_database_exp3p2_cpp.File.Bytes.Numbers.{FileHeaderFits, length-file_header_bytes}
use hit_database_exp3p2_cpp.File.Bytes.Blocks.{stream_write_block}
use hit_database_exp3p2_cpp.File.Bytes.Image.{
  file_bytes, pages_bytes, PageFits, AllFit, two_writes-append, two_writes-put,
}

-- A file in memory whose stream is open, whose numbers fit in their types, and whose pages are whole.
pub record FileFits (f : File) : Type 0 where
  pub good : f.good ≡ true
  pub header : FileHeaderFits f.file_header
  pub pages : AllFit f.pages

-- A write of the file header, or of a page under a number.
pub data Write : Type 0 where
  header : FileHeader → Write
  page : ℕ → Page → Write

abbrev pub Fits : Write → Type 0
Fits (header h) = FileHeaderFits h
Fits (page n p) = PageFits p

abbrev pub WritesFit : List Write → Type 0
WritesFit [] = Unit {0}
WritesFit (w ∷ ws) = Fits w × WritesFit ws

-- The writes on the list of pages, and on the bytes.
abbrev pub write : Write → File → File
write (header h) f = (write_header h f).1
write (page n p) f = (write_page_at n p.header p f).1

abbrev pub write_bytes : Write → List ℕ → List ℕ
write_bytes (header h) bs = write_header_bytes h bs
write_bytes (page n p) bs = write_page_bytes n p.header p bs

abbrev pub writes : List Write → File → File
writes [] f = f
writes (w ∷ ws) f = writes ws (write w f)

abbrev pub writes_bytes : List Write → List ℕ → List ℕ
writes_bytes [] bs = bs
writes_bytes (w ∷ ws) bs = writes_bytes ws (write_bytes w bs)

blank-PageFits : PageFits blank
unfolding initialize
blank-PageFits = record {
  header = record {
    lower = omega arith;
    upper = omega arith;
    num_slots = omega arith;
    num_free_slots = omega arith;
    current_page_number = omega arith;
    next_page_number = omega arith;
  };
  whole = length-replicate {A = ℕ} 8176 0;
}

put-AllFit : (ps : List Page) (i : ℕ) (p : Page) → AllFit ps → PageFits p → AllFit (put ps i p)
put-AllFit [] zero p all fits = (fits, tt)
put-AllFit [] (suc i) p all fits = (blank-PageFits, put-AllFit [] i p tt fits)
put-AllFit (x ∷ xs) zero p all fits = (fits, all.1)
put-AllFit (x ∷ xs) (suc i) p all fits = (all.0, put-AllFit xs i p all.1 fits)

module _ (f : File) (fits : FileFits f) where
  front : length (file_header_bytes f.file_header) ≡ 16
  front = length-file_header_bytes f.file_header

  write_header_file : (h : FileHeader) → write (header h) f ≡ record f { file_header = h }
  write_header_file h = ap (λ (r : Result (Unit {0}) × File). r.1) (write_header_lem f fits.good h)

  write_page_file : (n : ℕ) (p : Page) → write (page n p) f ≡ with_page f n p
  write_page_file n p =
      ap (λ (r : Result (Unit {0}) × File). r.1) (write_page_at_lem f fits.good n p)

  pub write-FileFits : (w : Write) → Fits w → FileFits (write w f)
  write-FileFits (header h) ok_w =
      subst FileFits (sym (write_header_file h))
        (record { good = fits.good; header = ok_w; pages = fits.pages })
  write-FileFits (page n p) ok_w = subst FileFits (sym (write_page_file n p)) (record {
    good = fits.good;
    header = fits.header;
    pages = put-AllFit f.pages (page_index n) p fits.pages ok_w;
  })

  pub write_bytes-file_bytes :
      (w : Write) → Fits w → write_bytes w (file_bytes f) ≡ file_bytes (write w f)
  unfolding write_header_bytes write_page_bytes page_position
  write_bytes-file_bytes (header h) ok_w =
      stream_write_block (file_header_bytes f.file_header) (pages_bytes f.pages)
        (file_header_bytes h) (length-file_header_bytes h ∙ sym front)
      ∙ sym (ap (λ (g : File). file_bytes g) (write_header_file h))
  write_bytes-file_bytes (page n p) ok_w =
      two_writes-append p ok_w (file_header_bytes f.file_header) (pages_bytes f.pages)
        (16 + page_index n * 8192) (page_index n * 8192) (omega (arith, front))
      ∙ ap (λ bs. file_header_bytes f.file_header ++ bs)
          (two_writes-put p ok_w f.pages (page_index n) (page_index n * 8192) fits.pages refl)
      ∙ sym (ap (λ (g : File). file_bytes g) (write_page_file n p))
