-- ===== src/File/Bytes/Refines.antt =====
-- Writes and reads of File on bytes against those on the list of pages (src/file.cpp).
use hit_database_exp3p2_cpp.Base.{ℕ, ◌≡◌, refl, sym, ◌∙◌, ap, List, [], ◌∷◌}
use hit_database_exp3p2_cpp.Result.{Result}
use hit_database_exp3p2_cpp.File.Stream.{File, FileHeader, fetch, read_header, read_page_header}
use hit_database_exp3p2_cpp.File.Access.{read_header_lem}
use hit_database_exp3p2_cpp.File.Bytes.{read_header_bytes, read_page_header_bytes, read_page_bytes}
use hit_database_exp3p2_cpp.File.Bytes.Image.{file_bytes}
use hit_database_exp3p2_cpp.File.Bytes.Writes.{
  FileFits, Write, WritesFit, write, writes, writes_bytes, write-FileFits, write_bytes-file_bytes,
}
use hit_database_exp3p2_cpp.File.Bytes.Reads.{
  delivered, read_header_bytes-file_bytes, read_page_bytes-file_bytes,
  read_page_header_bytes-file_bytes,
}

writes-FileFits : (ws : List Write) (f : File) → WritesFit ws → FileFits f → FileFits (writes ws f)
writes-FileFits [] f ok_ws fits = fits
writes-FileFits (w ∷ ws) f ok_ws fits =
    writes-FileFits ws (write w f) ok_ws.1 (write-FileFits f fits w ok_ws.0)

writes_image :
    (ws : List Write) (f : File)
    → WritesFit ws
    → FileFits f
    → writes_bytes ws (file_bytes f) ≡ file_bytes (writes ws f)
writes_image [] f ok_ws fits = refl
writes_image (w ∷ ws) f ok_ws fits =
    ap (writes_bytes ws) (write_bytes-file_bytes f fits w ok_ws.0)
    ∙ writes_image ws (write w f) ok_ws.1 (write-FileFits f fits w ok_ws.0)

-- Any writes of headers and of pages, whose numbers fit in their types and whose strings are whole, leave
-- on the bytes of a file what they leave on its list of pages, a page written behind the end included;
-- and on the bytes that they leave, the reads of the file header, of a page's header and of a page
-- deliver what they deliver on the list, or fail with them.
pub writes_bytes-file_bytes :
    (ws : List Write) (f : File) (n : ℕ)
    → WritesFit ws
    → FileFits f
    → (writes_bytes ws (file_bytes f) ≡ file_bytes (writes ws f))
      × ((read_header (writes ws f)).0
          ≡ delivered (read_header_bytes (writes_bytes ws (file_bytes f))))
      × ((read_page_header n (writes ws f)).0
          ≡ delivered (read_page_header_bytes n (writes_bytes ws (file_bytes f))))
      × (fetch (writes ws f) n ≡ read_page_bytes n (writes_bytes ws (file_bytes f)))
writes_bytes-file_bytes ws f n ok_ws fits =
    let g = writes ws f in
    let gfits = writes-FileFits ws f ok_ws fits in
    let image = writes_image ws f ok_ws fits in
    (
      image,
      ap (λ (r : Result FileHeader × File). r.0) (read_header_lem g gfits.good)
          ∙ sym (ap delivered (read_header_bytes-file_bytes g gfits))
          ∙ ap (λ bs. delivered (read_header_bytes bs)) (sym image),
      read_page_header_bytes-file_bytes g gfits n
          ∙ ap (λ bs. delivered (read_page_header_bytes n bs)) (sym image),
      sym (read_page_bytes-file_bytes g gfits n) ∙ ap (read_page_bytes n) (sym image),
    )
