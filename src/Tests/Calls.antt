-- ===== src/Tests/Calls.antt =====
-- Examples for the client's handlers.
use capio_v.Prelude.{List, ◌≡◌, refl, false, none, [], ◌∷◌}
use capio_v.Prelude.Int.{pos, negsuc}
use capio_v.Prelude.Eq.{codes, text_eq, int_eq, contains, text_beq}
use capio_v.Prelude.Assoc.{find, has, emplace, update}
use capio_v.Prelude.Result.{ok}
use capio_v.FdTable.{add_capio_fd, init_filesystem}
use capio_v.FdTable.Consistent.{Consistent, init_filesystem-Consistent, add_capio_fd-Consistent}
use capio_v.Cache.{new_read_cache}
use capio_v.Posix.{done, Client, Paths, Kernel, open_file}
use capio_v.Posix.Laws.{open_relative}
use capio_v.Posix.{at_fdcwd}
use capio_v.Posix.Calls.{Call, opens, seeks, unlinks, reads, closes}
use capio_v.Posix.Fine.{IsListening}
use capio_v.Posix.Runs.{Possible, at_end, then_next, run, run-Consistent}
use capio_v.Tests.{a_file}
use capio_v.Path.{is_absolute}

-- a is open as 3
abbrev pub client : Client
client = record {
  tid = pos 7;
  tables = record {
    current_dir = codes "/c";
    descriptors = (pos 3, a_file) ∷ [];
    paths = (a_file, pos 3 ∷ []) ∷ [];
    files = (pos 3, record { cell = 0; cloexec = false }) ∷ [];
    offsets = 0 ∷ [];
  };
  writes = record {
    current_fd = negsuc 0;
    current_size = 0;
    current_path = [];
    max_size = 4096;
    sent = [];
  };
  reads = new_read_cache;
  listeners = pos 7 ∷ [];
  requests = [];
}

pub client-Consistent : Consistent client.tables
unfolding init_filesystem has add_capio_fd emplace update text_beq contains
client-Consistent =
    (add_capio_fd-Consistent a_file (pos 3) 0 false
      (record { current_dir = codes "/c"; descriptors = []; paths = []; files = []; offsets = [] })
      (init_filesystem-Consistent (codes "/c")) refl).0

pub client-IsListening : IsListening client
unfolding contains
client-IsListening = refl

abbrev pub no_answers : Paths
no_answers = record {
  capio_dir = codes "/c";
  lexically_relative = λ path base. [];
  lexically_normal = λ path. path;
  realpath = λ path. none;
  fstat = λ fd. none;
  readlink = λ fd. [];
}

-- open("b", O_CREAT) in /c, which the kernel answers with 4
abbrev kernel : Kernel
kernel = record { result = pos 4; errno = 0 }

open_relative_example :
    open_file no_answers kernel (codes "b") 64 client ≡ ok (client, done (pos 4))
unfolding is_absolute find
open_relative_example =
    open_relative no_answers kernel (codes "b") 64 client refl refl refl refl refl

-- open("/c/b"), lseek(3, 5), read(3), close(3), unlink("/c/b")
abbrev some_calls : List Call
some_calls =
    opens kernel at_fdcwd (codes "/c/b") 64
    ∷ seeks (pos 3) 5 0
    ∷ reads 10 (pos 3) 2
    ∷ closes (pos 3)
    ∷ unlinks (codes "/c/b")
    ∷ []

possible : Possible no_answers (λ path. []) some_calls client
unfolding has
possible = then_next refl λ c₁ o₁ e₁.
    then_next tt
      λ c₂ o₂ e₂. then_next tt λ c₃ o₃ e₃. then_next tt λ c₄ o₄ e₄. then_next tt λ c₅ o₅ e₅. at_end

run-Consistent_example :
    (c' : Client) × (run no_answers (λ path. []) some_calls client ≡ ok c')
    × Consistent c'.tables
    × IsListening c'
run-Consistent_example =
    run-Consistent no_answers (λ path. []) some_calls client client-Consistent client-IsListening
      possible
