-- ===== src/Requests.antt =====
-- The requests of a client, src/posix/utils/requests.hpp: the text that each sprintf makes, in a
-- buffer of CAPIO_REQ_MAX_SIZE bytes. The bytes behind the text's end are not modelled.
pub mod Bounds
pub mod Lengths
use capio_v.Prelude.{ℕ, [], ◌∷◌, ◌++◌, length, ltb, if◌then◌else◌}
use capio_v.Prelude.Int.{ℤ}
use capio_v.Prelude.Eq.{Text}
use capio_v.Prelude.Result.{Result, ok, err, overflow}
use capio_v.Constants.{capio_req_max_size}
use capio_v.Wire.{show_code, show_int, show_nat}

-- a space and a field
unfoldable pub field : Text → Text → Text
field text rest = 32 ∷ (text ++ rest)

-- buf_requests->write(req, CAPIO_REQ_MAX_SIZE), behind the sprintf that fills `req`
unfoldable pub send : Text → Result Text
send text = if ltb (length text) capio_req_max_size then ok text else err overflow

unfoldable pub consent_to_proceed_request : Text → ℤ → Text → Text
consent_to_proceed_request path tid source_func =
    show_code 0 ++ field (show_int tid) (field path (field source_func []))

unfoldable pub close_request : Text → ℤ → Text
close_request path tid = show_code 2 ++ field (show_int tid) (field path [])

unfoldable pub create_request : ℤ → Text → ℤ → Text
create_request fd path tid =
    show_code 3 ++ field (show_int tid) (field (show_int fd) (field path []))

unfoldable pub exit_group_request : ℤ → Text
exit_group_request tid = show_code 4 ++ field (show_int tid) []

unfoldable pub handshake_named_request : ℤ → ℤ → Text → Text
handshake_named_request tid pid app_name =
    show_code 5 ++ field (show_int tid) (field (show_int pid) (field app_name []))

unfoldable pub handshake_anonymous_request : ℤ → ℤ → Text
handshake_anonymous_request tid pid = show_code 6 ++ field (show_int tid) (field (show_int pid) [])

unfoldable pub open_request : ℤ → Text → ℤ → Text
open_request fd path tid = show_code 8 ++ field (show_int tid) (field (show_int fd) (field path []))

-- _read_request of src/posix/utils/cache.hpp
unfoldable pub read_request : Text → ℕ → ℤ → ℤ → Text
read_request path end_of_read tid fd =
    show_code 9
    ++ field path (field (show_int tid) (field (show_int fd) (field (show_nat end_of_read) [])))

unfoldable pub rename_request : Text → Text → ℤ → Text
rename_request old_path new_path tid =
    show_code 10 ++ field (show_int tid) (field old_path (field new_path []))

-- _write_request of src/posix/utils/cache.hpp
unfoldable pub write_request : ℤ → ℤ → ℤ → Text → Text
write_request count tid fd path =
    show_code 11
    ++ field (show_int tid) (field (show_int fd) (field path (field (show_int count) [])))
