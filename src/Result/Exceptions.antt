-- ===== src/Result/Exceptions.antt =====
-- The exception classes of src/exceptions: the members that each carries. `Messages` has their texts.
pub mod Messages
use hit_database_exp3p2_cpp.Base.{ℕ, String, Bool}

-- RecordId of src/types.h: a page of the file and a slot of the page.
pub record RecordId : Type 0 where
  pub page_number : ℕ
  pub slot_number : ℕ

pub record BadBufferException : Type 0 where
  pub frame_no : ℕ
  pub dirty : Bool
  pub valid : Bool
  pub refbit : Bool

pub record FileExistsException : Type 0 where
  pub filename : String

pub record FileNotFoundException : Type 0 where
  pub filename : String

pub record FileOpenException : Type 0 where
  pub filename : String

pub record HashAlreadyPresentException : Type 0 where
  pub name : String
  pub page_no : ℕ
  pub frame_no : ℕ

pub record HashNotFoundException : Type 0 where
  pub name : String
  pub page_no : ℕ

pub record InsufficientSpaceException : Type 0 where
  pub page_number : ℕ
  pub space_requested : ℕ
  pub space_available : ℕ

pub record InvalidPageException : Type 0 where
  pub page_number : ℕ
  pub filename : String

pub record InvalidRecordException : Type 0 where
  pub record_id : RecordId
  pub page_number : ℕ

pub record InvalidSlotException : Type 0 where
  pub page_number : ℕ
  pub slot_number : ℕ

pub record PageNotPinnedException : Type 0 where
  pub name : String
  pub page_no : ℕ
  pub frame_no : ℕ

pub record PagePinnedException : Type 0 where
  pub name : String
  pub page_no : ℕ
  pub frame_no : ℕ

pub record SlotInUseException : Type 0 where
  pub page_number : ℕ
  pub slot_number : ℕ

-- The classes derived from BadgerDbException, and the two of the standard library that the code
-- throws or lets through.
pub data Exception : Type 0 where
  bad_buffer : BadBufferException → Exception
  buffer_exceeded : Exception
  file_exists : FileExistsException → Exception
  file_not_found : FileNotFoundException → Exception
  file_open : FileOpenException → Exception
  hash_already_present : HashAlreadyPresentException → Exception
  hash_not_found : HashNotFoundException → Exception
  hash_table : Exception
  insufficient_space : InsufficientSpaceException → Exception
  invalid_page : InvalidPageException → Exception
  invalid_record : InvalidRecordException → Exception
  invalid_slot : InvalidSlotException → Exception
  page_not_pinned : PageNotPinnedException → Exception
  page_pinned : PagePinnedException → Exception
  slot_in_use : SlotInUseException → Exception
  std_out_of_range std_invalid_argument : Exception
