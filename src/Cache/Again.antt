-- ===== src/Cache/Again.antt =====
-- Reads of two files in turn through ReadRequestCache of src/posix/utils/cache.hpp.
use mathlib.Core.List.{map}
use capio_v.Prelude.{
  ℕ, ◌<◌, ◌≡◌, ◌≢◌, refl, sym, ◌∙◌, ◌⊎◌, true, none, some, List, [], ◌∷◌, ◌++◌, arith, inl, inr,
  if◌then◌else◌,
}
use capio_v.Prelude.Int.{ℤ, negsuc, int_beq_iff}
use capio_v.Prelude.Eq.{Text, text_eq, int_eq, text_beq_iff, ◌==◌, contains, ==_refl}
use capio_v.Prelude.Assoc.{Assoc, find, emplace, update, find-emplace, find-update, has-find}
use capio_v.Prelude.Result.{ok}
use capio_v.Cache.{
  ReadCall, ReadCache, new_read_cache, cache_read, ask_server, answered, look_up, changed,
}

-- Nothing is known to be there of the file.
abbrev pub Unknown : Text → ReadCache → Type 0
Unknown path c = (find path c.available ≡ none) ⊎ (find path c.available ≡ some 0)

looked_up :
    (path : Text) (fd : ℤ) (c : ReadCache)
    → Unknown path c
    → look_up path fd c ≡ record c {
      current_path = path;
      current_fd = fd;
      max_read = 0;
      available = emplace path 0 c.available;
    }
unfolding look_up emplace
looked_up path fd c (inl e) = ground (arith, e, has-find path c.available)
looked_up path fd c (inr e) = ground (arith, e, has-find path c.available)

asks :
    (moved : Text → Text) (response : ℕ) (listeners : List ℤ) (path : Text) (end : ℕ) (tid fd : ℤ)
    (c : ReadCache)
    → fd ≢ c.current_fd
    → Unknown path c
    → 0 < end
    → contains tid listeners ≡ true
    → cache_read moved response listeners path end tid fd c
      ≡ ok (answered response (moved path) end tid fd (look_up path fd c))
unfolding cache_read ask_server changed
asks moved response listeners path end tid fd c other unknown some_bytes listens =
    rw (looked_up path fd c unknown)
      (ground (arith, other, some_bytes, listens, int_beq_iff fd c.current_fd))

-- what a read of a file leaves, of which nothing was known
record Asked (moved : Text → Text) (response : ℕ) (path : Text) (fd : ℤ) (c r : ReadCache)
    : Type 0 where
  current : r.current_fd ≡ fd
  limit : r.max_read ≡ response
  sent : map (λ call. call.path) r.sent ≡ map (λ call. call.path) c.sent ++ path ∷ []
  own : moved path ≢ path → find path r.available ≡ some 0
  others : (q : Text) → moved path ≢ q → path ≢ q → find q r.available ≡ find q c.available
  left : find (moved path) r.available ≡ some response

map-last :
    (calls : List ReadCall) (call : ReadCall)
    → map (λ k. k.path) (calls ++ call ∷ []) ≡ map (λ k. k.path) calls ++ call.path ∷ []
map-last [] call = refl
map-last (k ∷ calls) call = rw (map-last calls call) refl

stored_under :
    (key q : Text) (response : ℕ) (m : Assoc Text ℕ)
    → find q (update key (λ _. response) (emplace key response m))
      ≡ (if key == q then some response else find q m)
stored_under key q response m = ground (
  arith,
  find-update key q (λ _. response) (emplace key response m),
  find-emplace key q response m,
  has-find key m,
  text_beq_iff key q,
)

answered-Asked :
    (moved : Text → Text) (response : ℕ) (path : Text) (end : ℕ) (tid fd : ℤ) (c : ReadCache)
    → Unknown path c
    → Asked moved response path fd c (
        answered response (moved path) end tid fd (record c {
          current_path = path;
          current_fd = fd;
          max_read = 0;
          available = emplace path 0 c.available;
        }))
unfolding answered
answered-Asked moved response path end tid fd c unknown =
    let stored = λ (q : Text). stored_under (moved path) q response (emplace path 0 c.available) in
    let entry = λ (q : Text). find-emplace path q 0 c.available in
    record {
      current = refl;
      limit = refl;
      sent = map-last c.sent (record { path = path; end_of_read = end; tid = tid; fd = fd });
      own = λ elsewhere. elim unknown [
        | inl e ↦ ground (
          arith,
          e,
          stored path,
          entry path,
          elsewhere,
          text_beq_iff (moved path) path,
          ==_refl path,
          has-find path c.available,
        )
        | inr e ↦ ground (
          arith,
          e,
          stored path,
          entry path,
          elsewhere,
          text_beq_iff (moved path) path,
          has-find path c.available,
        )
      ];
      others = λ q elsewhere other. ground (
        arith,
        stored q,
        entry q,
        elsewhere,
        other,
        text_beq_iff (moved path) q,
        text_beq_iff path q,
        has-find path c.available,
      );
      left = ground (arith, stored (moved path), ==_refl (moved path));
    }

reads :
    (moved : Text → Text) (response : ℕ) (listeners : List ℤ) (path : Text) (end : ℕ) (tid fd : ℤ)
    (c : ReadCache)
    → fd ≢ c.current_fd
    → Unknown path c
    → 0 < end
    → contains tid listeners ≡ true
    → (r : ReadCache) × (cache_read moved response listeners path end tid fd c ≡ ok r)
      × Asked moved response path fd c r
reads moved response listeners path end tid fd c other unknown some_bytes listens = (
  answered response (moved path) end tid fd (record c {
    current_path = path;
    current_fd = fd;
    max_read = 0;
    available = emplace path 0 c.available;
  }),
  asks moved response listeners path end tid fd c other unknown some_bytes listens
      ∙ rw (looked_up path fd c unknown) refl,
  answered-Asked moved response path end tid fd c unknown,
)

-- Where std::move leaves of the argument `p` neither path, and of `q` not `p`: a thread with a buffer
-- for responses and a new cache that reads at least a byte of `p`, then of `q`, then of `p` again, by
-- two descriptors for the two files, asks the server each time. The answer to the first read is
-- stored under what the move left, the entry of `p` stays 0, so that answer, whatever it was, is
-- not used for the last read.
pub asks_again :
    (moved : Text → Text) (response answer later : ℕ) (listeners : List ℤ) (p q : Text)
    (end end' end'' : ℕ) (tid f g : ℤ)
    → moved p ≢ p
    → moved p ≢ q
    → moved q ≢ p
    → p ≢ q
    → f ≢ negsuc 0
    → f ≢ g
    → 0 < end
    → 0 < end'
    → 0 < end''
    → contains tid listeners ≡ true
    → (c₁ : ReadCache) × (c₂ : ReadCache) × (c₃ : ReadCache) × (cache_read moved response listeners
          p end tid f new_read_cache
        ≡ ok c₁)
      × (cache_read moved answer listeners q end' tid g c₁ ≡ ok c₂)
      × (cache_read moved later listeners p end'' tid f c₂ ≡ ok c₃)
      × (find (moved p) c₁.available ≡ some response)
      × (find p c₂.available ≡ some 0)
      × (c₃.max_read ≡ later)
      × (map (λ call. call.path) c₃.sent ≡ p ∷ q ∷ p ∷ [])
unfolding find
asks_again moved response answer later listeners p q end end' end'' tid f g mp mpq mq pq f0 fg e₁ e₂
      e₃ listens =
    let (c₁, run₁, a₁) =
      reads moved response listeners p end tid f new_read_cache f0 (inl refl) e₁ listens in
    let unknown₁ : find q c₁.available ≡ none = a₁.others q mpq pq in
    let (c₂, run₂, a₂) =
      reads moved answer listeners q end' tid g c₁ (λ same. fg (sym (same ∙ a₁.current)))
        (inl unknown₁) e₂ listens in
    let still : find p c₂.available ≡ some 0 = a₂.others p mq (λ same. pq (sym same)) ∙ a₁.own mp in
    let (c₃, run₃, a₃) =
      reads moved later listeners p end'' tid f c₂ (λ same. fg (same ∙ a₂.current)) (inr still) e₃
        listens in
    (c₁, c₂, c₃, run₁, run₂, run₃, a₁.left, still, a₃.limit, rw (a₃.sent, a₂.sent, a₁.sent) refl)
