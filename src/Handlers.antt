-- ===== src/Handlers.antt =====
-- The request loop of the server: src/server/client-manager/request_handler_engine.hpp and the
-- handlers in src/server/client-manager/handlers/. A handler returns the state after it, or the
-- fault that ends the server; the file system is fixed while it runs.
pub mod Transport
pub mod Keeps
pub mod Invariants
pub mod Runs
pub mod Outcomes
use capio_v.Prelude.{
  ℕ, zero, suc, ◌+◌, ◌-◌, Bool, true, false, not, ◌&&◌, ◌||◌, Option, none, some, List, [], ◌∷◌,
  length, take, drop, ltb, leb, nat_beq, if◌then◌else◌,
}
use capio_v.Prelude.Int.{ℤ, pos, negsuc}
use capio_v.Prelude.Eq.{Text, text_eq, ◌==◌}
use capio_v.Prelude.Result.{Result, ok, err, err_exit, bad_call, ◌>>=◌}
use capio_v.Constants.{
  capio_default_app_name, capio_file_committed_on_close, capio_file_mode_no_update, ullong_max,
}
use capio_v.Path.{file_to_be_handled}
use capio_v.Disk.{Env, exists, get_file_size_if_exists}
use capio_v.Clients.{register_new_client, remove_client, get_app_name}
use capio_v.Engine.{get_commit_rule, get_fire_rule, is_producer, add_producer}
use capio_v.FileManager.{
  Server, reply, is_committed, set_committed, set_committed_by, increase_close_count,
  add_thread_awaiting_creation, add_thread_awaiting_data, unlock_thread_awaiting_creation,
  check_and_unlock_thread_awaiting_data,
}
use capio_v.Wire.{scan_int, scan_word, scan_ullong, read_digits, starts_with_digit, negative}

-- close.hpp, behind sscanf
unfoldable pub on_close : Env → ℤ → Text → Server → Result Server
on_close env tid path s =
    if not (file_to_be_handled env.capio_dir path)
    then ok s
    else if not (get_commit_rule path s.locations == capio_file_committed_on_close)
    then ok s
    else do
      producer ← is_producer s.clients path tid s.locations
      if producer
          then (do s' ← set_committed env path s; ok (increase_close_count env path s'))
          else ok s

unfoldable pub close_handler : Env → Text → Server → Result Server
close_handler env str s = do
  (tid, str₁) ← scan_int str
  (path, str₂) ← scan_word str₁
  on_close env tid path s

-- consent.hpp, behind sscanf
unfoldable pub on_consent : Env → ℤ → Text → Server → Result Server
on_consent env tid path s =
    if not (file_to_be_handled env.capio_dir path) then reply tid 1 s else do
      producer ← is_producer s.clients path tid s.locations
      if producer then reply tid 1 s else (do
        committed ← is_committed env s path
        let firable = get_fire_rule path s.locations == capio_file_mode_no_update
        if exists env path && (committed || firable)
            then reply tid 1 s
            else ok (add_thread_awaiting_data path tid 0 s))

unfoldable pub consent_to_proceed_handler : Env → Text → Server → Result Server
consent_to_proceed_handler env str s = do
  (tid, str₁) ← scan_int str
  (path, str₂) ← scan_word str₁
  (source_func, str₃) ← scan_word str₂
  on_consent env tid path s

-- create.hpp, behind sscanf
unfoldable pub on_create : Env → ℤ → Text → Server → Result Server
on_create env tid path s = do
  s' ← unlock_thread_awaiting_creation path s
  name ← get_app_name tid s'.clients
  locations ← add_producer path name s'.locations
  ok (record s' { locations = locations })

unfoldable pub create_handler : Env → Text → Server → Result Server
create_handler env str s = do
  (tid, str₁) ← scan_int str
  (fd, str₂) ← scan_int str₁
  (path, str₃) ← scan_word str₂
  on_create env tid path s

-- exit.hpp, behind sscanf
unfoldable pub on_exit : Env → ℤ → Server → Result Server
on_exit env tid s = do
  s' ← set_committed_by env tid s
  ok (record s' { clients = remove_client tid s'.clients })

unfoldable pub exit_handler : Env → Text → Server → Result Server
exit_handler env str s = do (tid, str₁) ← scan_int str; on_exit env tid s

-- handshake.hpp
unfoldable pub on_handshake : ℤ → Text → Server → Server
on_handshake tid app_name s = record s { clients = register_new_client tid app_name s.clients }

unfoldable pub handshake_anonymous_handler : Env → Text → Server → Result Server
handshake_anonymous_handler env str s = do
  (tid, str₁) ← scan_int str
  (pid, str₂) ← scan_int str₁
  ok (on_handshake tid capio_default_app_name s)

unfoldable pub handshake_named_handler : Env → Text → Server → Result Server
handshake_named_handler env str s = do
  (tid, str₁) ← scan_int str
  (pid, str₂) ← scan_int str₁
  (app_name, str₃) ← scan_word str₂
  ok (on_handshake tid app_name s)

-- open.hpp, behind sscanf: isProducer is asked only of a file that does not exist
unfoldable pub on_open : Env → ℤ → Text → Server → Result Server
on_open env tid path s = if exists env path then reply tid 1 s else do
  producer ← is_producer s.clients path tid s.locations
  if producer then reply tid 1 s else ok (add_thread_awaiting_creation path tid s)

unfoldable pub open_handler : Env → Text → Server → Result Server
open_handler env str s = do
  (tid, str₁) ← scan_int str
  (fd, str₂) ← scan_int str₁
  (path, str₃) ← scan_word str₂
  on_open env tid path s

-- file_size >= end_of_read || is_committed || isProducer(path, tid), from the left
unfoldable pub may_read : Env → ℤ → Text → ℕ → ℕ → Bool → Server → Result Bool
may_read env tid path end_of_read file_size committed s =
    if leb end_of_read file_size || committed
    then ok true
    else is_producer s.clients path tid s.locations

-- read.hpp, behind sscanf
unfoldable pub on_read : Env → ℤ → Text → ℕ → Server → Result Server
on_read env tid path end_of_read s =
    if not (file_to_be_handled env.capio_dir path) then reply tid 1 s else do
      committed ← is_committed env s path
      file_size ← get_file_size_if_exists env path
      go ← may_read env tid path end_of_read file_size committed s
      if go
          then reply tid (if committed then ullong_max else file_size) s
          else ok (add_thread_awaiting_data path tid end_of_read s)

unfoldable pub read_handler : Env → Text → Server → Result Server
read_handler env str s = do
  (path, str₁) ← scan_word str
  (tid, str₂) ← scan_int str₁
  (fd, str₃) ← scan_int str₂
  (end_of_read, str₄) ← scan_ullong str₃
  on_read env tid path end_of_read s

-- rename.hpp
unfoldable pub rename_handler : Env → Text → Server → Result Server
rename_handler env str s = do
  (tid, str₁) ← scan_int str
  (old_path, str₂) ← scan_word str₁
  (new_path, str₃) ← scan_word str₂
  unlock_thread_awaiting_creation new_path s

-- write.hpp, behind sscanf
unfoldable pub on_write : Env → Text → Server → Result Server
on_write env path s =
    if not (file_to_be_handled env.capio_dir path)
    then ok s
    else check_and_unlock_thread_awaiting_data env path s

unfoldable pub write_handler : Env → Text → Server → Result Server
write_handler env str s = do
  (tid, str₁) ← scan_int str
  (fd, str₂) ← scan_int str₁
  (path, str₃) ← scan_word str₂
  (write_size, str₄) ← scan_ullong str₃
  on_write env path s

-- what std::from_chars(req, req + 4, code) leaves: the code and the characters it has read
from_digits : (ℕ → ℤ) → ℕ → Text → Result (ℤ × ℕ)
from_digits sign before window =
    if starts_with_digit window
    then (let (n, left) = read_digits 0 window in
        ok (sign n, before + (length window - length left)))
    else err err_exit

from_chars : Text → Result (ℤ × ℕ)
unfolding from_digits
from_chars [] = err err_exit
from_chars (c ∷ window) =
    if nat_beq c b'-' then from_digits negative 1 window else from_digits pos 0 (c ∷ window)

unfoldable pub read_next_request : Text → Result (ℤ × Text)
unfolding from_chars
read_next_request req = do (code, read) ← from_chars (take 4 req); ok (code, drop (read + 1) req)

-- build_request_handlers_table: CAPIO_REQUEST_CLONE has no handler
unfoldable pub request_handlers : ℕ → Option (Env → Text → Server → Result Server)
request_handlers code =
    if nat_beq code 0
    then some consent_to_proceed_handler
    else if nat_beq code 2
    then some close_handler
    else if nat_beq code 3
    then some create_handler
    else if nat_beq code 4
    then some exit_handler
    else if nat_beq code 5
    then some handshake_named_handler
    else if nat_beq code 6
    then some handshake_anonymous_handler
    else if nat_beq code 7
    then some create_handler
    else if nat_beq code 8
    then some open_handler
    else if nat_beq code 9
    then some read_handler
    else if nat_beq code 10
    then some rename_handler
    else if nat_beq code 11
    then some write_handler
    else none

-- The test of start() lets CAPIO_NR_REQUESTS itself, 12, pass.
unfoldable pub dispatch : ℤ → Env → Text → Server → Result Server
dispatch (negsuc n) env str s = err err_exit
dispatch (pos code) env str s =
    if ltb 12 code
    then err err_exit
    else elim (request_handlers code) [ none ↦ err bad_call | some handler ↦ handler env str s ]

-- one round of the loop of start()
unfoldable pub serve : Env → Text → Server → Result Server
serve env req s = do (code, str) ← read_next_request req; dispatch code env str s

-- the loop, over the requests in the buffer; the file system may change from one to the next
unfoldable pub start : List (Env × Text) → Server → Result Server
start [] s = ok s
start ((env, req) ∷ requests) s = do s' ← serve env req s; start requests s'
