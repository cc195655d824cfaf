-- ===== src/Clients.antt =====
-- ClientManager of src/server/client-manager/client_manager.hpp. The response buffer of a thread is
-- the list of the values written to it, oldest first; that a write waits while 512 values are
-- unread is not modelled.
use capio_v.Prelude.{ℕ, List, [], ◌∷◌, ◌++◌, some, none}
use capio_v.Prelude.Int.{ℤ}
use capio_v.Prelude.Eq.{Text, int_eq}
use capio_v.Prelude.Assoc.{Assoc, find, emplace, update, erase}
use capio_v.Prelude.Result.{Result, ok, err, out_of_range, or_fault}

pub record ClientManager : Type 0 where
  pub bufs_response : Assoc ℤ (List ℕ)
  pub app_names : Assoc ℤ Text
  pub files_to_be_committed_by_tid : Assoc ℤ (List Text)

abbrev pub no_clients : ClientManager
no_clients = record { bufs_response = []; app_names = []; files_to_be_committed_by_tid = [] }

unfoldable pub register_new_client : ℤ → Text → ClientManager → ClientManager
register_new_client tid app_name c = record {
  bufs_response = emplace tid [] c.bufs_response;
  app_names = emplace tid app_name c.app_names;
  files_to_be_committed_by_tid = emplace tid [] c.files_to_be_committed_by_tid;
}

-- The name of the application stays.
unfoldable pub remove_client : ℤ → ClientManager → ClientManager
remove_client tid c = record c {
  bufs_response = erase tid c.bufs_response;
  files_to_be_committed_by_tid = erase tid c.files_to_be_committed_by_tid;
}

unfoldable pub reply_to_client : ℤ → ℕ → ClientManager → Result ClientManager
reply_to_client tid offset c = elim (find tid c.bufs_response) [
  | none ↦ err out_of_range
  | some _ ↦
      ok (record c { bufs_response = update tid (λ buf. buf ++ offset ∷ []) c.bufs_response })
]

unfoldable pub add_producer_file_path : ℤ → Text → ClientManager → Result ClientManager
add_producer_file_path tid path c = elim (find tid c.files_to_be_committed_by_tid) [
  | none ↦ err out_of_range
  | some _ ↦ ok (record c {
    files_to_be_committed_by_tid =
        update tid (λ files. files ++ path ∷ []) c.files_to_be_committed_by_tid;
  })
]

unfoldable pub get_produced_files : ℤ → ClientManager → Result (List Text)
get_produced_files tid c = or_fault out_of_range (find tid c.files_to_be_committed_by_tid)

unfoldable pub get_app_name : ℤ → ClientManager → Result Text
get_app_name tid c = or_fault out_of_range (find tid c.app_names)
