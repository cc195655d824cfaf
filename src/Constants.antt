-- ===== src/Constants.antt =====
-- src/common/capio/constants.hpp and requests.hpp: the names of the streaming rules, the return
-- codes of a system call's handler, the codes of the requests.
use capio_v.Prelude.{ℕ, ◌-◌, ◌^◌, List, [], ◌∷◌}
use capio_v.Prelude.Int.{ℤ, pos, negsuc}
use capio_v.Prelude.Eq.{Text, codes}

abbrev pub capio_default_app_name : Text
capio_default_app_name = codes "default_app"

abbrev pub capio_file_mode_no_update : Text
capio_file_mode_no_update = codes "no_update"

abbrev pub capio_file_mode_update : Text
capio_file_mode_update = codes "update"

abbrev pub capio_file_committed_on_close : Text
capio_file_committed_on_close = codes "on_close"

abbrev pub capio_file_committed_on_file : Text
capio_file_committed_on_file = codes "on_file"

abbrev pub capio_file_committed_on_termination : Text
capio_file_committed_on_termination = codes "on_termination"

abbrev pub capio_posix_syscall_errno : ℤ
capio_posix_syscall_errno = negsuc 0

abbrev pub capio_posix_syscall_request_skip : ℤ
capio_posix_syscall_request_skip = negsuc 1

abbrev pub capio_posix_syscall_skip : ℤ
capio_posix_syscall_skip = pos 1

abbrev pub capio_posix_syscall_success : ℤ
capio_posix_syscall_success = pos 0

-- CAPIO_REQ_MAX_SIZE, bytes of a request
abbrev pub capio_req_max_size : ℕ
capio_req_max_size = 256

abbrev pub ullong_max : ℕ
ullong_max = 2 ^ 64 - 1

abbrev pub capio_dir_forbidden_paths : List Text
capio_dir_forbidden_paths = codes "/proc/" ∷ codes "/sys/" ∷ []

abbrev pub capio_default_workflow_name : Text
capio_default_workflow_name = codes "CAPIO"

abbrev pub capio_cache_line_size_default : ℕ
capio_cache_line_size_default = 4096
