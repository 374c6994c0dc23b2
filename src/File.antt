-- ===== src/File.antt =====
-- Files of pages: src/file.h, src/file.cpp and src/file_iterator.h.
-- A `File` is the object together with the file on disk that its stream reads and writes: the file
-- header, then the pages one behind another. A read past the end sets the stream's fail bit, and
-- from then on the stream reads and writes nothing, as std::fstream documents. A method takes the
-- file to its outcome and the file after it, also when it throws.
pub mod Stream
pub mod Disk
pub mod Bytes
pub mod Links
pub mod Access
pub mod Relink
pub mod Written
pub mod Kept
pub mod Walks
pub mod Allocate
pub mod Append
pub mod Unlink
pub mod Remove
pub mod Sorted
pub mod Reuse
pub mod Reused
pub mod Contents
pub mod Cycle
pub mod Leak
pub mod Iterator
pub mod Store
pub mod Reached
pub mod Refines
pub mod Fill
pub mod Records
use hit_database_exp3p2_cpp.Base.{
  ℕ, zero, suc, ◌+◌, ◌*◌, ◌-◌, ◌%◌, ◌^◌, String, Bool, true, false, not, ◌||◌, ltb, ◌==◌,
  if◌then◌else◌,
}
use hit_database_exp3p2_cpp.Result.{ok, throws, undefined}
use hit_database_exp3p2_cpp.Result.Exceptions.{invalid_page}
use hit_database_exp3p2_cpp.Page.{
  Page, PageHeader, initialize, page_number, next_page_number, set_page_number,
  set_next_page_number, is_used, invalid_number,
}
use Stream.{
  File, FileHeader, M, return, ◌>>=◌, ◌>>◌, require, demand, fault, read_header, write_header,
  read_raw, read_page_header, write_page_at,
}

-- readPage(page_number, allow_free).
unfoldable pub read_page_or_free : ℕ → Bool → M Page
read_page_or_free n allow_free f =
    (do
      page ← read_raw n
      require (allow_free || is_used page)
          (invalid_page (record { page_number = n; filename = f.filename }))
      return page)
      f

-- readPage(page_number).
unfoldable pub read_page : ℕ → M Page
read_page n f =
    (do
      header ← read_header
      require (ltb n header.num_pages)
          (invalid_page (record { page_number = n; filename = f.filename }))
      read_page_or_free n false)
      f

-- writePage(new_page): all of the page but its `next_page_number`, which the disk keeps.
unfoldable pub write_page : Page → M (Unit {0})
write_page new_page f =
    (do
      header ← read_page_header (page_number new_page)
      require (not (header.current_page_number == invalid_number))
          (invalid_page (record { page_number = page_number new_page; filename = f.filename }))
      write_page_at (page_number new_page)
          (record (new_page.header) { next_page_number = header.next_page_number }) new_page)
      f

-- What the loops over the used pages end with: the last page that `*iter` read, and whether the loop
-- was left at it.
pub record Walk : Type 0 where
  pub last : Page
  pub found : Bool

-- `for (iter = begin(); iter != end(); ++iter) { last = *iter; if (test(last)) break; }` from page `n`
-- on. Out of fuel stands for a loop that does not end.
unfoldable pub walk : ℕ → (Page → Bool) → ℕ → Page → M Walk
walk zero test n last = fault
walk (suc fuel) test n last = elim (n == invalid_number) [
  | true ↦ return (record { last = last; found = false })
  | false ↦ do
    page ← read_page n
    elim (test page) [
      | true ↦ return (record { last = page; found = true })
      | false ↦ do header ← read_page_header n; walk fuel test header.next_page_number page
    ]
]

-- The pages and the header that allocatePage is about to write.
pub record Allocation : Type 0 where
  pub new_page : Page
  pub existing_page : Page
  pub header : FileHeader

-- The page that a loop left with `existing_page = *iter`; else that variable keeps its new page.
abbrev pub existing_of : Walk → Page
existing_of w = if w.found then w.last else initialize

-- A free page is taken off the free list and linked into the used list.
unfoldable pub reuse_page : ℕ → FileHeader → M Allocation
reuse_page fuel header = do
  free_page ← read_page_or_free header.first_free_page true
  let new_page = set_page_number free_page header.first_free_page
  let taken : FileHeader = record header {
    first_free_page = next_page_number new_page;
    num_free_pages = header.num_free_pages - 1;
  }
  a ←
      if taken.first_used_page == invalid_number || ltb (page_number new_page) taken.first_used_page
      then return (record {
        new_page =
            if ltb (page_number new_page) taken.first_used_page
            then set_next_page_number new_page taken.first_used_page
            else new_page;
        existing_page = initialize;
        header = record taken { first_used_page = page_number new_page };
      })
      else (do
        w ←
            walk fuel
              (λ p.
                ltb (page_number new_page) (next_page_number p)
                || next_page_number p == invalid_number)
              taken.first_used_page initialize
        return (record {
          new_page = set_next_page_number new_page (next_page_number w.last);
          existing_page = set_next_page_number (existing_of w) (page_number new_page);
          header = taken;
        }))
  demand (
      if taken.num_free_pages == 0
      then taken.first_free_page == invalid_number
      else not (taken.first_free_page == invalid_number))
  return a

-- The file grows by a page, which goes to the tail of the used list.
unfoldable pub append_page : ℕ → FileHeader → M Allocation
append_page fuel header = do
  let new_page = set_page_number initialize header.num_pages
  let grown : FileHeader = record header { num_pages = (header.num_pages + 1) % 2 ^ 32 }
  if header.first_used_page == invalid_number
      then return (record {
        new_page = new_page;
        existing_page = initialize;
        header = record grown { first_used_page = page_number new_page };
      })
      else (do
        w ← walk fuel (λ p. next_page_number p == invalid_number) header.first_used_page initialize
        demand (is_used (existing_of w))
        return (record {
          new_page = new_page;
          existing_page = set_next_page_number (existing_of w) (page_number new_page);
          header = grown;
        }))

-- `if (page.isUsed()) writePage(page.page_number(), page);`
abbrev pub write_if_used : Page → M (Unit {0})
write_if_used page =
    if is_used page then write_page_at (page_number page) page.header page else return tt

unfoldable pub allocate_page : ℕ → M Page
allocate_page fuel = do
  header ← read_header
  a ← if ltb 0 header.num_free_pages then reuse_page fuel header else append_page fuel header
  write_page_at (page_number a.new_page) a.new_page.header a.new_page
  write_if_used a.existing_page
  write_header a.header
  return a.new_page

-- The page that points to the one that goes, with its pointer moved on, and the header.
unfoldable pub unlink_page : ℕ → ℕ → FileHeader → Page → M (Page × FileHeader)
unlink_page fuel n header existing_page =
    if n == header.first_used_page
    then return (initialize, record header { first_used_page = next_page_number existing_page })
    else (do
      w ←
          walk fuel (λ p. next_page_number p == page_number existing_page) header.first_used_page
            initialize
      return (
        if w.found then set_next_page_number w.last (next_page_number existing_page) else w.last,
        header,
      ))

unfoldable pub delete_page : ℕ → ℕ → M (Unit {0})
delete_page fuel n = do
  header ← read_header
  existing_page ← read_page n
  unlinked ← unlink_page fuel n header existing_page
  let cleared = set_next_page_number initialize (unlinked.1).first_free_page
  write_if_used unlinked.0
  write_page_at n cleared.header cleared
  write_header (record (unlinked.1) {
    first_free_page = n;
    num_free_pages = ((unlinked.1).num_free_pages + 1) % 2 ^ 32;
  })
