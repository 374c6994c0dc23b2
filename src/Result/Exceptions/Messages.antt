-- ===== src/Result/Exceptions/Messages.antt =====
-- The message that each constructor of an exception class builds with a string stream.
use Prim.Native.String.{◌++◌}
use hit_database_exp3p2_cpp.Base.{ℕ, zero, suc, ◌/◌, ◌%◌, ◌≡◌, refl, String, ltb, if◌then◌else◌}
use hit_database_exp3p2_cpp.Result.Exceptions.{
  BadBufferException, FileExistsException, FileNotFoundException, FileOpenException,
  HashAlreadyPresentException, HashNotFoundException, InsufficientSpaceException,
  InvalidPageException, InvalidRecordException, InvalidSlotException, PageNotPinnedException,
  PagePinnedException, SlotInUseException, Exception, bad_buffer, buffer_exceeded, file_exists,
  file_not_found, file_open, hash_already_present, hash_not_found, hash_table, insufficient_space,
  invalid_page, invalid_record, invalid_slot, page_not_pinned, page_pinned, slot_in_use,
  std_out_of_range, std_invalid_argument,
}

digit : ℕ → String
digit zero = "0"
digit (suc zero) = "1"
digit (suc (suc zero)) = "2"
digit (suc (suc (suc zero))) = "3"
digit (suc (suc (suc (suc zero)))) = "4"
digit (suc (suc (suc (suc (suc zero))))) = "5"
digit (suc (suc (suc (suc (suc (suc zero)))))) = "6"
digit (suc (suc (suc (suc (suc (suc (suc zero))))))) = "7"
digit (suc (suc (suc (suc (suc (suc (suc (suc zero)))))))) = "8"
digit _ = "9"

decimal_loop : ℕ → ℕ → String
unfolding digit
decimal_loop zero n = digit n
decimal_loop (suc fuel) n =
    let rest = decimal_loop fuel (n / 10) ++ digit (n % 10) in if ltb n 10 then digit n else rest

-- `ss << n`. Twenty digits hold every 64-bit number.
unfoldable pub decimal : ℕ → String
unfolding decimal_loop
decimal n = decimal_loop 20 n

pub bad_buffer_message : BadBufferException → String
unfolding decimal
bad_buffer_message e = "失效的缓冲区: " ++ decimal e.frame_no

pub buffer_exceeded_message : String
buffer_exceeded_message = "缓冲池容量不足"

pub file_exists_message : FileExistsException → String
unfolding decimal
file_exists_message e = "文件已经存在: " ++ e.filename

pub file_not_found_message : FileNotFoundException → String
unfolding decimal
file_not_found_message e = "找不到文件: " ++ e.filename

pub file_open_message : FileOpenException → String
unfolding decimal
file_open_message e = "文件已经被打开: " ++ e.filename

pub hash_already_present_message : HashAlreadyPresentException → String
unfolding decimal
hash_already_present_message e = "文件 " ++ e.name ++ " 的第 " ++ decimal e.page_no ++ "页在散列表中已经有项."

pub hash_not_found_message : HashNotFoundException → String
unfolding decimal
hash_not_found_message e = "文件 " ++ e.name ++ " 的第 " ++ decimal e.page_no ++ "页在散列表中找不到对应项."

pub hash_table_message : String
hash_table_message = "散列表的缓冲区出现故障."

pub insufficient_space_message : InsufficientSpaceException → String
unfolding decimal
insufficient_space_message e =
    "页 "
    ++ decimal e.page_number
    ++ " 的空间不足以容纳记录. 需要: "
    ++ decimal e.space_requested
    ++ " 字节."
    ++ " 可用: "
    ++ decimal e.space_available
    ++ " 字节."

pub invalid_page_message : InvalidPageException → String
unfolding decimal
invalid_page_message e = "从文件 '" ++ e.filename ++ "' 中所请求的页 " ++ decimal e.page_number ++ " 不存在."

pub invalid_record_message : InvalidRecordException → String
unfolding decimal
invalid_record_message e =
    "请求的页不存在. 页 "
    ++ decimal e.page_number
    ++ " 中没有记录 Record {page="
    ++ decimal e.record_id.page_number
    ++ ", slot="
    ++ decimal e.record_id.slot_number
    ++ "}"

pub invalid_slot_message : InvalidSlotException → String
unfolding decimal
invalid_slot_message e =
    "视图请求一个尚未使用的槽. " ++ " Page: " ++ decimal e.page_number ++ " Slot: " ++ decimal e.slot_number

pub page_not_pinned_message : PageNotPinnedException → String
unfolding decimal
page_not_pinned_message e =
    "文件 " ++ e.name ++ " 的第 " ++ decimal e.page_no ++ "页尚未被引用.(暂存于 " ++ decimal e.frame_no ++ " 中)"

pub page_pinned_message : PagePinnedException → String
unfolding decimal
page_pinned_message e =
    "文件 " ++ e.name ++ " 的第 " ++ decimal e.page_no ++ "页已经被引用.(暂存于 " ++ decimal e.frame_no ++ " 中)"

pub slot_in_use_message : SlotInUseException → String
unfolding decimal
slot_in_use_message e =
    "视图请求一个正在使用的槽位." ++ " Page: " ++ decimal e.page_number ++ " Slot: " ++ decimal e.slot_number

-- `message()` of the exception that a call ends with; the standard library's have texts of their own.
pub message : Exception → String
unfolding bad_buffer_message buffer_exceeded_message file_exists_message file_not_found_message
    file_open_message hash_already_present_message hash_not_found_message hash_table_message
    insufficient_space_message invalid_page_message invalid_record_message invalid_slot_message
    page_not_pinned_message page_pinned_message slot_in_use_message
message (bad_buffer e) = bad_buffer_message e
message buffer_exceeded = buffer_exceeded_message
message (file_exists e) = file_exists_message e
message (file_not_found e) = file_not_found_message e
message (file_open e) = file_open_message e
message (hash_already_present e) = hash_already_present_message e
message (hash_not_found e) = hash_not_found_message e
message hash_table = hash_table_message
message (insufficient_space e) = insufficient_space_message e
message (invalid_page e) = invalid_page_message e
message (invalid_record e) = invalid_record_message e
message (invalid_slot e) = invalid_slot_message e
message (page_not_pinned e) = page_not_pinned_message e
message (page_pinned e) = page_pinned_message e
message (slot_in_use e) = slot_in_use_message e
message std_out_of_range = ""
message std_invalid_argument = ""

pinned_text :
    message (page_pinned (record { name = "f"; page_no = 12; frame_no = 305 }))
    ≡ "文件 f 的第 12页已经被引用.(暂存于 305 中)"
unfolding message
pinned_text = refl
