-- ===== src/Monitor.antt =====
-- FileSystemMonitor of src/server/file-manager/fs_monitor.hpp: the thread that looks for files that
-- threads wait for. The file system is fixed during one round of its loop; the sleep between
-- rounds is left out.
pub mod Woken
pub mod Round
use capio_v.Prelude.{List, [], ◌∷◌, if◌then◌else◌}
use capio_v.Prelude.Eq.{Text}
use capio_v.Prelude.Result.{Result, ok, ◌>>=◌}
use capio_v.Disk.{Env, exists}
use capio_v.FileManager.{
  Server, unlock_thread_awaiting_creation, delete_file_awaiting_creation,
  check_and_unlock_thread_awaiting_data, get_file_awaiting_creation, get_file_awaiting_data,
}

-- one file of the first loop
unfoldable pub wake_on_creation : Env → Text → Server → Result Server
wake_on_creation env file s =
    if exists env file
    then (do
      s' ← unlock_thread_awaiting_creation file s
      ok (delete_file_awaiting_creation file s'))
    else ok s

unfoldable pub wake_all_on_creation : Env → List Text → Server → Result Server
wake_all_on_creation env [] s = ok s
wake_all_on_creation env (file ∷ files) s = do
  s' ← wake_on_creation env file s
  wake_all_on_creation env files s'

-- one file of the second loop
unfoldable pub wake_on_data : Env → Text → Server → Result Server
wake_on_data env file s =
    if exists env file then check_and_unlock_thread_awaiting_data env file s else ok s

unfoldable pub wake_all_on_data : Env → List Text → Server → Result Server
wake_all_on_data env [] s = ok s
wake_all_on_data env (file ∷ files) s = do
  s' ← wake_on_data env file s
  wake_all_on_data env files s'

-- the body of the loop of _main
unfoldable pub round : Env → Server → Result Server
round env s = do
  s' ← wake_all_on_creation env (get_file_awaiting_creation s) s
  wake_all_on_data env (get_file_awaiting_data s') s'
