-- ===== src/Lib.antt =====
-- BadgerDB: the storage layer of a small database, in C++ under src/.
--
-- A page (`Page`, src/page.h and src/page.cpp) is 8192 bytes: a header, an array of slots that grows
-- up, and records that grow down from the end. A file (`File`, src/file.h and src/file.cpp) is a
-- header and pages, on disk, in two linked lists: the used pages and the free ones. The buffer pool
-- (src/buffer.h and src/buffer.cpp) finds the frame of a page by a chained hash table
-- (`BufHashTbl`, src/bufHashTbl.h and src/bufHashTbl.cpp).
--
-- Base has the shared names: tests, lists over native numbers, and slices of byte strings.
-- Result is the outcome of a call: a value, an exception, or undefined behaviour. Its child
--   Exceptions has a record for each class of src/exceptions, Exceptions/Messages the texts.
-- HashTable models BufHashTbl; HashTable/Chain, Entries and Writes prove its laws, Refines that any
--   calls do what they do on a map, Destroy what the destructor deletes. `new`, `hash`, `insert`,
--   `lookup`, `remove` and `delete_table` are the methods, `find` and `unlink` their loops.
-- Page models Page, its string byte by byte; Page/Slot the slots as bytes of that string;
--   Page/Delete deleteRecord and updateRecord; Page/Iterator PageIterator. Page/Layout is the
--   arrangement of the records, over any reading of the slots, and its children keep it through a
--   placement, a removal and a change of the array; Page/Valid joins it to the bytes;
--   Page/InsertInSlot, Available, Insert, Moves, Close, Compact, Remove, Removal, Update and Reject
--   are about the methods, Thrown about the page that insertRecord leaves when it throws, Reached
--   and Refines set any calls against a map, Bounds is about the header and the records after them,
--   Clean and Stacked about a page into which records are only inserted, Headers is operator== of
--   PageHeader.
-- File models the reads and writes of File, allocatePage, deletePage and their loops (`walk`);
--   File/Stream has the stream, with a list of pages for the bytes behind the file header; File/Disk
--   is about the places of the pages. File/Bytes has the same reads and writes on bytes, and its
--   children set them against the list: Numbers the headers' fields, Blocks strings that are joined,
--   Image the bytes of a file, Writes, Reads and Refines any writes and a read. File/Links says what a
--   well-formed file is: its used pages and its free pages as the lists that the pointers on disk
--   make. File/Access, Walks, Relink and Written are about single reads and writes, the loops, and
--   the lists after a write; File/Allocate, Append, Sorted, Reuse, Reused and Leak prove
--   allocatePage (Append/Wraps where the page numbers of 32 bits run out), File/Unlink and Remove
--   deletePage, File/Store writePage and readPage.
--   File/Iterator models FileIterator and the loop over a file.
--   File/Records adds a record to a page of a file, as src/main.cpp does; File/Kept and Contents are
--   about the pages that are not given or taken, File/Cycle about deletePage and allocatePage in turn,
--   File/Reached and Refines set any calls against a map from page numbers to pages, File/Fill is
--   the loop of src/main.cpp that fills a new file.
-- FileSystem models create, open, remove, isOpen, exists and the destructor of File over the files on
--   disk; FileSystem/Created and Opened prove what they do.
-- Iter/Round and Iter/Enumerate model the range helpers of src/iter with the loops over them.
-- Buffer models what src/buffer.h and src/buffer.cpp have of the pool: the frames (StatedPage), the
--   statistics, the constructor of BufMgr and printSelf(); Buffer/Frames is about the frames and their
--   writes to a file, Buffer/Manager about the constructor, Buffer/Report about printSelf().
--   Buffer/Views models PageView and MutablePageView over any unPinPage, Buffer/Views/Release how
--   often they give a page back.
-- Driver models the start of main() in src/main.cpp, Driver/Block the record that it adds to a page of
--   the file it has filled; Driver/Block/Adds is about that call, Whole about the loop and the call.
-- Tests has runs on concrete inputs, and the theorems at such inputs.
--
-- Numbers are natural numbers; the 16-bit and 32-bit fields wrap as in the source. A slot is laid
-- out as on a little-endian machine: `used` in byte 0, `item_offset` in bytes 2 and 3,
-- `item_length` in bytes 4 and 5; so are the headers in a file's bytes, without padding. A loop over slots recurs on the rounds left, which the header's
-- number of slots gives; the loops over a file's pages take fuel, and running out of it counts as
-- undefined; in a well-formed file, one unit for each used page is enough for the loops of
-- allocatePage and deletePage, and one more for the loop over a file. The loop over a page's
-- records takes fuel; more than the number of slots is enough.
--
-- Not modelled: the loops of main() in src/main.cpp over the records of all pages, whose
-- iterators refer to pages that are gone; readPage, unPinPage, allocPage, flushFile, disposePage,
-- advanceClock and allocFrame of the buffer manager, which have no body in src/buffer.cpp; two
-- File objects open on one file at the same time; the tests of the buffer manager in
-- src/main.cpp, which call those methods and some that src/buffer.h does not declare; running out
-- of memory.
pub mod Base
pub mod Buffer
pub mod Driver
pub mod File
pub mod FileSystem
pub mod HashTable
pub mod Iter
pub mod Page
pub mod Result
pub mod Tests
