-- ===== src/Tests/Runs.antt =====
-- Examples for the requests and the request loop.
use mathlib.Core.Option
use capio_v.Prelude.{ℕ, ◌≡◌, ◌≢◌, ◌⊎◌, ◌≤◌, ◌<◌, refl, some, none, List, [], ◌∷◌, ◌++◌, arith}
use capio_v.Prelude.Int.{ℤ, pos}
use capio_v.Prelude.Eq.{Text, codes, text_eq, int_eq, text_beq, contains}
use capio_v.Prelude.Assoc.{find, update, has, emplace, erase}
use capio_v.Prelude.Result.{ok, err, bad_call, err_exit}
use capio_v.Constants.{capio_default_app_name}
use capio_v.Disk.{Env, metadata_path, relative_token, after_find, exists}
use capio_v.Engine.{get_commit_rule, is_producer, producers, glob_producer}
use capio_v.Clients.{
  no_clients, remove_client, get_app_name, get_produced_files, register_new_client,
}
use capio_v.FileManager.{
  Server, awaiting_creation, unlock_thread_awaiting_creation, set_committed, increase_close_count,
  check_and_unlock_thread_awaiting_data, reply_all, delete_file_awaiting_creation, set_committed_by,
  set_committed_files,
}
use capio_v.FileManager.Replies.{buffer, answers}
use capio_v.Wire.Digits.{IsInt}
use capio_v.Wire.Words.{IsWord}
use capio_v.Requests.{
  consent_to_proceed_request, close_request, create_request, exit_group_request,
  handshake_named_request, handshake_anonymous_request, open_request, read_request, rename_request,
  write_request,
}
use capio_v.Handlers.{
  on_close, on_consent, on_create, on_exit, on_handshake, on_open, on_read, on_write, start,
  dispatch, request_handlers,
}
use capio_v.Handlers.Transport.{
  deliver, requests_arrive, serve-close_request, serve-exit_group_request,
  serve-handshake_named_request,
}
use capio_v.Handlers.Runs.{start-app_names, start-tokens, start-locations, exit_commits_nothing}
use capio_v.Handlers.Outcomes.{dispatch_codes, open_then_creation}
use capio_v.Tests.{a_file, new_path, on_close_location, two_clients, server, disk}
use capio_v.Path.{
  file_to_be_handled, same_path, parent_path, starts_with, ◌/path◌, is_absolute, drop_name,
  drop_slashes, or_root, components,
}
use capio_v.Wire.{is_blank}
use capio_v.Glob.{match_globs}

a-IsWord : IsWord a_file
unfolding is_blank
a-IsWord = record { not_empty = λ e. absurd (cc); no_blank = (refl, (refl, (refl, (refl, tt)))) }

b-IsWord : IsWord new_path
unfolding is_blank
b-IsWord = record { not_empty = λ e. absurd (cc); no_blank = (refl, (refl, (refl, (refl, tt)))) }

IsInt-7 : IsInt (pos 7)
IsInt-7 = (omega arith, omega arith)

IsInt-8 : IsInt (pos 8)
IsInt-8 = (omega arith, omega arith)

requests_arrive_example :
    (deliver disk server (consent_to_proceed_request a_file (pos 7) new_path)
      ≡ on_consent disk (pos 7) a_file server)
    × (deliver disk server (close_request a_file (pos 7)) ≡ on_close disk (pos 7) a_file server)
    × (deliver disk server (create_request (pos 8) a_file (pos 7))
        ≡ on_create disk (pos 7) a_file server)
    × (deliver disk server (exit_group_request (pos 7)) ≡ on_exit disk (pos 7) server)
    × (deliver disk server (handshake_named_request (pos 7) (pos 8) new_path)
        ≡ ok (on_handshake (pos 7) new_path server))
    × (deliver disk server (handshake_anonymous_request (pos 7) (pos 8))
        ≡ ok (on_handshake (pos 7) capio_default_app_name server))
    × (deliver disk server (open_request (pos 8) a_file (pos 7))
        ≡ on_open disk (pos 7) a_file server)
    × (deliver disk server (read_request a_file 10 (pos 7) (pos 8))
        ≡ on_read disk (pos 7) a_file 10 server)
    × (deliver disk server (rename_request a_file new_path (pos 7))
        ≡ unlock_thread_awaiting_creation new_path server)
    × (deliver disk server (write_request (pos 10) (pos 7) (pos 8) a_file)
        ≡ on_write disk a_file server)
requests_arrive_example =
    requests_arrive disk server a_file new_path (pos 7) (pos 8) 10 (omega arith) a-IsWord b-IsWord
      IsInt-7 IsInt-8 (omega arith)

abbrev nr_requests : ℕ
nr_requests = 12

dispatch_codes_example :
    ((nr_requests ≡ 1) ⊎ (nr_requests ≡ 12)
      → dispatch (pos nr_requests) disk [] server ≡ err bad_call)
    × (12 < nr_requests → dispatch (pos nr_requests) disk [] server ≡ err err_exit)
    × (nr_requests ≢ 1 → nr_requests < 12 → request_handlers nr_requests ≢ none)
dispatch_codes_example = dispatch_codes nr_requests disk [] server

open_then_creation_example :
    (s' s'' : Server) × (on_open disk (pos 8) new_path server ≡ ok s')
    × (s'.clients ≡ server.clients)
    × (unlock_thread_awaiting_creation new_path s' ≡ ok s'')
    × ((t : ℤ)
        → buffer t s''
          ≡ Option.map
              (λ buf. buf ++ answers t (awaiting_creation new_path server ++ pos 8 ∷ []) 1)
              (buffer t server))
    × (find new_path s''.thread_awaiting_file_creation ≡ none)
unfolding exists text_beq is_producer get_app_name find has glob_producer match_globs
open_then_creation_example = open_then_creation disk (pos 8) new_path server refl refl (refl, tt)

-- 7 closes a, which it has closed once before, and 8 exits.
abbrev closed_once : Server
closed_once = record server { tokens = (codes "/m/c/a.capio", 1) ∷ [] }

abbrev closed_twice : Server
closed_twice = record server { tokens = (codes "/m/c/a.capio", 2) ∷ [] }

abbrev after_exit : Server
after_exit = record closed_twice { clients = remove_client (pos 8) two_clients }

abbrev run : List (Env × Text)
run = (disk, close_request a_file (pos 7)) ∷ (disk, exit_group_request (pos 8)) ∷ []

close_again : on_close disk (pos 7) a_file closed_once ≡ ok closed_twice
unfolding on_close set_committed increase_close_count check_and_unlock_thread_awaiting_data
    unlock_thread_awaiting_creation file_to_be_handled same_path parent_path starts_with
    get_commit_rule find text_beq is_producer get_app_name has producers contains emplace update
    erase metadata_path ◌/path◌ relative_token after_find is_absolute reply_all
    delete_file_awaiting_creation drop_name drop_slashes or_root components
close_again = refl

exit_of_8 : on_exit disk (pos 8) closed_twice ≡ ok after_exit
unfolding on_exit set_committed_by get_produced_files find set_committed_files remove_client erase
exit_of_8 = refl

run_ends : start run closed_once ≡ ok after_exit
unfolding start
run_ends = rw (
  serve-close_request disk closed_once a_file (pos 7) IsInt-7 a-IsWord,
  close_again,
  serve-exit_group_request disk closed_twice (pos 8) IsInt-8,
  exit_of_8,
)

start-app_names_example : find (pos 8) after_exit.clients.app_names ≡ some (codes "r")
unfolding find remove_client
start-app_names_example =
    start-app_names (pos 8) (codes "r") run closed_once after_exit refl run_ends

start-tokens_example : (m : ℕ) × (find (codes "/m/c/a.capio") after_exit.tokens ≡ some m) × (1 ≤ m)
unfolding find text_beq
start-tokens_example =
    start-tokens (codes "/m/c/a.capio") 1 run closed_once after_exit refl run_ends

start-locations_example :
    (more : List Text) × (find a_file after_exit.locations
      ≡ some (record on_close_location { producers = codes "w" ∷ more }))
unfolding find text_beq
start-locations_example =
    start-locations a_file on_close_location run closed_once after_exit refl run_ends

-- 7 shakes hands with a new server.
abbrev fresh : Server
fresh = record server { clients = no_clients }

abbrev greeted : Server
greeted = record server {
  clients = record {
    bufs_response = (pos 7, []) ∷ [];
    app_names = (pos 7, codes "w") ∷ [];
    files_to_be_committed_by_tid = (pos 7, []) ∷ [];
  };
}

abbrev greeting : List (Env × Text)
greeting = (disk, handshake_named_request (pos 7) (pos 8) (codes "w")) ∷ []

w-IsWord : IsWord (codes "w")
unfolding is_blank
w-IsWord = record { not_empty = λ e. absurd (cc); no_blank = (refl, tt) }

greets : on_handshake (pos 7) (codes "w") fresh ≡ greeted
unfolding on_handshake register_new_client emplace
greets = refl

greeting_ends : start greeting fresh ≡ ok greeted
unfolding start
greeting_ends = rw (
  serve-handshake_named_request disk fresh (codes "w") (pos 7) IsInt-7 w-IsWord (pos 8) IsInt-8,
  greets,
)

exit_commits_nothing_example :
    on_exit disk (pos 7) greeted
    ≡ ok (record greeted { clients = remove_client (pos 7) greeted.clients })
unfolding has
exit_commits_nothing_example =
    exit_commits_nothing disk (pos 7) greeting fresh greeted refl greeting_ends refl
