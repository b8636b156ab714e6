-- ===== src/Protocol/Codes.antt =====
-- utils/protocol.h: the codes of requests and responses. utils/protocol.c: the status messages.
use Prim.Native.String.{String}
use file_storage_server.Base.{ℕ, zero, suc, Option, none, some, List, [], ◌∷◌, ltb, if◌then◌else◌}

pub data RequestCode : Type 0 where
  open_connection close_connection open_file close_file write_file read_file read_n_files
        remove_file lock_file unlock_file append_to_file :
      RequestCode

unfoldable pub request_code : RequestCode → ℕ
request_code open_connection = 100
request_code close_connection = 101
request_code open_file = 102
request_code close_file = 103
request_code write_file = 104
request_code read_file = 105
request_code read_n_files = 106
request_code remove_file = 107
request_code lock_file = 108
request_code unlock_file = 109
request_code append_to_file = 110

pub data Status : Type 0 where
  success accepted internal_error bad_request not_found unauthorized missing_body file_too_big
        files_expelled file_exists awaiting no_more_con :
      Status

unfoldable pub response_code : Status → ℕ
response_code success = 0
response_code accepted = 1
response_code internal_error = 2
response_code bad_request = 3
response_code not_found = 4
response_code unauthorized = 5
response_code missing_body = 6
response_code file_too_big = 7
response_code files_expelled = 8
response_code file_exists = 9
response_code awaiting = 10
response_code no_more_con = 11

abbrev status_message : List String
status_message =
    "Operation successfull" ∷ "Connection accepted" ∷ "Internal server error" ∷ "Bad request"
    ∷ "Entity not found" ∷ "Unauthorized access" ∷ "Missing message body" ∷ "File is too big"
    ∷ "File was expelled" ∷ "File already exists" ∷ "Awaiting for lock" ∷ "No more connections" ∷ []

abbrev get_elem? : List String → ℕ → Option String
get_elem? [] i = none
get_elem? (x ∷ xs) zero = some x
get_elem? (x ∷ xs) (suc i) = get_elem? xs i

unfoldable pub get_status_message : ℕ → Option String
get_status_message code = if ltb 11 code then none else get_elem? status_message code
