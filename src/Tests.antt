-- ===== src/Tests.antt =====
-- Data for the examples: a server of a small workflow. The application `w` writes the files of /c,
-- the application `r` reads them; 7 is a thread of `w`, 8 one of `r`.
pub mod Paths
pub mod Tables
pub mod Servers
pub mod Runs
pub mod Descriptors
pub mod Calls
mod Queues
mod Watching
mod Configurations
mod Systems
mod Caches
use capio_v.Prelude.{ℕ, Bool, true, false, Option, none, some, List, [], ◌∷◌, if◌then◌else◌}
use capio_v.Prelude.Int.{ℤ, pos, negsuc}
use capio_v.Prelude.Eq.{Text, codes, text_eq, ◌==◌}
use capio_v.Constants.{
  capio_file_committed_on_close, capio_file_committed_on_file, capio_file_mode_update,
  capio_file_mode_no_update,
}
use capio_v.Disk.{Env, Node, file}
use capio_v.Engine.{Location, Locations}
use capio_v.Clients.{ClientManager}
use capio_v.FileManager.{Server}

abbrev pub a_file : Text
a_file = codes "/c/a"

abbrev pub new_path : Text
new_path = codes "/c/b"

abbrev pub location : Text → Text → List Text → Bool → List Text → Location
location commit fire prods is_file deps = record {
  producers = prods;
  consumers = [];
  commit_rule = commit;
  fire_rule = fire;
  permanent = false;
  exclude = false;
  is_file = is_file;
  commit_close_count = pos 1;
  directory_file_count = negsuc 0;
  file_deps = deps;
}

abbrev pub on_close_location : Location
on_close_location =
    location capio_file_committed_on_close capio_file_mode_update (codes "w" ∷ []) true []

-- one file, which w produces
abbrev pub one_file : Locations
one_file = (a_file, on_close_location) ∷ []

abbrev pub two_clients : ClientManager
two_clients = record {
  bufs_response = (pos 7, []) ∷ (pos 8, []) ∷ [];
  app_names = (pos 7, codes "w") ∷ (pos 8, codes "r") ∷ [];
  files_to_be_committed_by_tid = (pos 7, []) ∷ (pos 8, []) ∷ [];
}

abbrev pub server : Server
server = record {
  locations = one_file;
  clients = two_clients;
  thread_awaiting_file_creation = [];
  thread_awaiting_data = [];
  tokens = [];
}

-- On the disk the one file has ten bytes.
abbrev pub disk : Env
disk = record {
  capio_dir = codes "/c";
  metadata_dir = codes "/m";
  node = λ path. if path == a_file then some (file 10) else none;
  fuel = 4;
}
