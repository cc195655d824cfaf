-- ===== src/Cache.antt =====
-- The client's request caches, src/posix/utils/cache.hpp. A call of _write_request or of
-- _read_request is a value; its text is write_text or read_text. The answers of the server are
-- arguments. Counts and offsets are not negative and stay below 2^63.
pub mod Writes
pub mod Again
use capio_v.Prelude.{
  ℕ, ◌+◌, Bool, true, false, not, ◌&&◌, ◌||◌, none, some, List, [], ◌∷◌, ◌++◌, ltb, nat_beq,
  if◌then◌else◌, Option,
}
use capio_v.Prelude.Int.{ℤ, pos, negsuc, int_beq}
use capio_v.Prelude.Eq.{Text, text_eq, int_eq, ◌==◌, contains}
use capio_v.Prelude.Result.{Result, ok, err, out_of_range}
use capio_v.Prelude.Assoc.{Assoc, find, emplace, update}
use capio_v.Constants.{ullong_max}
use capio_v.Path.{same_path}
use capio_v.Requests.{write_request, read_request}

-- the arguments of _write_request
pub record WriteCall : Type 0 where
  pub count : ℤ
  pub tid : ℤ
  pub fd : ℤ
  pub path : Text

unfoldable pub write_text : WriteCall → Text
write_text call = write_request call.count call.tid call.fd call.path

-- WriteRequestCache; `sent` are the calls made so far
pub record WriteCache : Type 0 where
  pub current_fd : ℤ
  pub current_size : ℕ
  pub current_path : Text
  pub max_size : ℕ
  pub sent : List WriteCall

unfoldable pub new_write_cache : ℕ → WriteCache
new_write_cache max_size = record {
  current_fd = negsuc 0;
  current_size = 0;
  current_path = [];
  max_size = max_size;
  sent = [];
}

-- flush hands the thread id over as the count, the descriptor as the thread id and the size as the
-- descriptor.
unfoldable pub flush : ℤ → WriteCache → WriteCache
flush tid c =
    let out =
      if not (int_beq c.current_fd (negsuc 0)) && ltb 0 c.current_size
      then c.sent
        ++ record {
          count = tid;
          tid = c.current_fd;
          fd = pos c.current_size;
          path = c.current_path;
        }
          ∷ []
      else c.sent in
    record c { current_fd = negsuc 0; current_size = 0; sent = out }

unfoldable pub switch_to : Text → ℤ → ℤ → WriteCache → WriteCache
unfolding flush
switch_to path tid fd c =
    if not (int_beq fd c.current_fd) || not (same_path path c.current_path)
    then record (flush tid c) { current_path = path; current_fd = fd }
    else c

-- WriteRequestCache::write_request
unfoldable pub cache_write : Text → ℤ → ℤ → ℕ → WriteCache → WriteCache
unfolding switch_to
cache_write path tid fd count c =
    let c₁ = switch_to path tid fd c in
    let c₂ = record c₁ { current_size = c₁.current_size + count } in
    if ltb c₂.max_size c₂.current_size then flush tid c₂ else c₂

-- the arguments of _read_request
pub record ReadCall : Type 0 where
  pub path : Text
  pub end_of_read : ℕ
  pub tid : ℤ
  pub fd : ℤ

unfoldable pub read_text : ReadCall → Text
read_text call = read_request call.path call.end_of_read call.tid call.fd

-- ReadRequestCache
pub record ReadCache : Type 0 where
  pub current_fd : ℤ
  pub max_read : ℕ
  pub current_path : Text
  pub available : Assoc Text ℕ
  pub sent : List ReadCall

abbrev pub new_read_cache : ReadCache
new_read_cache = record {
  current_fd = negsuc 0;
  max_read = 0;
  current_path = [];
  available = [];
  sent = [];
}

-- the entry of a path that is new in the cache is 0
unfoldable pub look_up : Text → ℤ → ReadCache → ReadCache
look_up path fd c = elim (find path c.available) [
  | some known ↦ record c { current_path = path; current_fd = fd; max_read = known }
  | none ↦ record c {
    current_path = path;
    current_fd = fd;
    max_read = 0;
    available = emplace path 0 c.available;
  }
]

-- the cache behind an answer of the server
unfoldable pub answered : ℕ → Text → ℕ → ℤ → ℤ → ReadCache → ReadCache
answered response key end_of_read tid fd c = record c {
  max_read = response;
  available = update key (λ _. response) (emplace key response c.available);
  sent =
      c.sent
      ++ record { path = c.current_path; end_of_read = end_of_read; tid = tid; fd = fd } ∷ [];
}

-- `listeners` are the threads with a buffer for responses: the request is written, and the look-up of
-- the buffer raises the exception for another thread. `key` is what the argument `path` holds here:
-- the path, or what a move has left of it.
unfoldable pub ask_server : ℕ → List ℤ → Text → ℕ → ℤ → ℤ → ReadCache → Result ReadCache
ask_server response listeners key end_of_read tid fd c =
    if contains tid listeners
    then ok (answered response key end_of_read tid fd c)
    else err out_of_range

unfoldable pub changed : Text → ℤ → ReadCache → Bool
changed path fd c = not (int_beq fd c.current_fd) || not (same_path path c.current_path)

-- ReadRequestCache::read_request; `moved` is what std::move leaves in a path.
unfoldable pub cache_read :
    (Text → Text) → ℕ → List ℤ → Text → ℕ → ℤ → ℤ → ReadCache → Result ReadCache
cache_read moved response listeners path end_of_read tid fd c =
    let c₁ = if changed path fd c then look_up path fd c else c in
    let key = if changed path fd c then moved path else path in
    if nat_beq c₁.max_read ullong_max
    then ok c₁
    else if ltb c₁.max_read end_of_read
    then ask_server response listeners key end_of_read tid fd c₁
    else ok c₁
