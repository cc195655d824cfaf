-- ===== src/Handlers/Keeps.antt =====
-- Properties that the primitive changes of the state keep, through the operations of
-- src/server/file-manager/file_manager_impl.hpp.
use mathlib.Core.Path.{subst}
use capio_v.Prelude.{
  ℕ, ◌+◌, ◌≡◌, Bool, true, false, Option, none, some, List, [], ◌∷◌, if◌then◌else◌,
}
use capio_v.Prelude.Int.{ℤ}
use capio_v.Prelude.Eq.{Text, text_eq}
use capio_v.Prelude.Assoc.{Assoc, find, emplace, update}
use capio_v.Prelude.Result.{Result, Fault, ok, err, ◌>>=◌, >>=-eq-ok}
use capio_v.Disk.{Env, metadata_path}
use capio_v.Engine.{Locations, add_producer}
use capio_v.Clients.{register_new_client, remove_client, get_produced_files}
use capio_v.FileManager.{
  Server, reply, reply_all, awaiting_creation, delete_file_awaiting_creation,
  unlock_thread_awaiting_creation, unlock_threads, keep_threads,
  check_and_unlock_thread_awaiting_data, increase_close_count, set_committed, set_committed_files,
  set_committed_by, lock_condition, unlock_value,
}

-- what each primitive change has to keep
pub record Stable {ℓ} (P : Server → Type ℓ) : Type ℓ where
  pub replied : (tid : ℤ) (v : ℕ) (s s' : Server) → reply tid v s ≡ ok s' → P s → P s'
  pub located :
      (path name : Text) (s : Server) (l : Locations)
      → add_producer path name s.locations ≡ ok l
      → P s
      → P (record s { locations = l })
  pub queued :
      (s : Server) (creation : Assoc Text (List ℤ)) (waiting : Assoc Text (Assoc ℤ ℕ))
      → P s
      → P (record s { thread_awaiting_file_creation = creation; thread_awaiting_data = waiting })
  pub token_made :
      (name : Text) (s : Server) → P s → P (record s { tokens = emplace name 0 s.tokens })
  pub token_raised :
      (name : Text) (s : Server)
      → P s
      → P (record s { tokens = update name (λ close_count. close_count + 1) s.tokens })
  pub registered :
      (tid : ℤ) (name : Text) (s : Server)
      → P s
      → P (record s { clients = register_new_client tid name s.clients })
  pub removed :
      (tid : ℤ) (s : Server) → P s → P (record s { clients = remove_client tid s.clients })

ok-injective : {s s' : Server} → ok s ≡ ok s' → s ≡ s'
ok-injective e = cc

out-injective : {o o' : Assoc ℤ ℕ × Server} → ok o ≡ ok o' → o ≡ o'
out-injective e = cc

module _ {ℓ} (P : Server → Type ℓ) (stable : Stable P) where
  -- after a call that succeeds
  abbrev pub After : Result Server → Type ℓ
  After r = (s' : Server) → r ≡ ok s' → P s'

  pub After-ok : (s : Server) → P s → After (ok s)
  After-ok s p s' e = subst P (ok-injective e) p

  pub After-err : (f : Fault) → After (err f)
  After-err f s' e = absurd (cc)

  pub After-bind :
      {A : Type 0} (r : Result A) (f : A → Result Server)
      → ((a : A) → r ≡ ok a → After (f a))
      → After (r >>= f)
  After-bind r f h s' e = let (a, e₁, e₂) = >>=-eq-ok r f e in h a e₁ s' e₂

  pub After-if : (b : Bool) (r q : Result Server) → After r → After q → After (if b then r else q)
  After-if true r q hr hq = hr
  After-if false r q hr hq = hq

  pub After-reply : (tid : ℤ) (v : ℕ) (s : Server) → P s → After (reply tid v s)
  After-reply tid v s p s' e = stable.replied tid v s s' e p

  After-reply_all : (tids : List ℤ) (v : ℕ) (s : Server) → P s → After (reply_all tids v s)
  unfolding reply_all
  After-reply_all [] v s p = After-ok s p
  After-reply_all (tid ∷ tids) v s p =
      After-bind (reply tid v s) (reply_all tids v)
        λ s' e. After-reply_all tids v s' (After-reply tid v s p s' e)

  pub After-unlock_creation :
      (path : Text) (s : Server) → P s → After (unlock_thread_awaiting_creation path s)
  unfolding unlock_thread_awaiting_creation
  After-unlock_creation path s p =
      After-bind (reply_all (awaiting_creation path s) 1 s)
        (λ s'. ok (delete_file_awaiting_creation path s'))
        λ s' e. After-ok (delete_file_awaiting_creation path s') (
          stable.queued s' _ s'.thread_awaiting_data
            (After-reply_all (awaiting_creation path s) 1 s p s' e))

  abbrev After-out : Result (Assoc ℤ ℕ × Server) → Type ℓ
  After-out r = (out : Assoc ℤ ℕ × Server) → r ≡ ok out → P out.1

  After-out-bind :
      {A : Type 0} (r : Result A) (f : A → Result (Assoc ℤ ℕ × Server))
      → ((a : A) → r ≡ ok a → After-out (f a))
      → After-out (r >>= f)
  After-out-bind r f h out e = let (a, e₁, e₂) = >>=-eq-ok r f e in h a e₁ out e₂

  After-out-ok : (kept : Assoc ℤ ℕ) (s : Server) → P s → After-out (ok (kept, s))
  After-out-ok kept s p out e = subst (λ o. P o.1) (out-injective e) p

  unlock_step-keeps :
      (env : Env) (path : Text) (tid : ℤ) (size : ℕ) (rest : Assoc ℤ ℕ) (s : Server)
      → ((s' : Server) → P s' → After-out (unlock_threads env path rest s'))
      → P s
      → (unlocked : Bool)
      → After-out (elim unlocked [
        | true ↦ unlock_value env path >>= λ value.
            reply tid value s >>= λ s'. unlock_threads env path rest s'
        | false ↦ unlock_threads env path rest s >>= λ out. ok ((tid, size) ∷ out.0, out.1)
      ])
  unlock_step-keeps env path tid size rest s later p true =
      After-out-bind (unlock_value env path) _ λ value _.
        After-out-bind (reply tid value s) _ λ s' e. later s' (stable.replied tid value s s' e p)
  unlock_step-keeps env path tid size rest s later p false =
      After-out-bind (unlock_threads env path rest s) _
        λ out e. After-out-ok ((tid, size) ∷ out.0) out.1 (later s p out e)

  unlock_threads-keeps :
      (env : Env) (path : Text) (threads : Assoc ℤ ℕ) (s : Server)
      → P s
      → After-out (unlock_threads env path threads s)
  unfolding unlock_threads
  unlock_threads-keeps env path [] s p = After-out-ok [] s p
  unlock_threads-keeps env path ((tid, size) ∷ rest) s p =
      After-out-bind (lock_condition env path tid s) _ λ unlocked _.
        unlock_step-keeps env path tid size rest s (unlock_threads-keeps env path rest) p unlocked

  keep_threads-keeps :
      (path : Text) (kept : Assoc ℤ ℕ) (s : Server) → P s → P (keep_threads path kept s)
  unfolding keep_threads
  keep_threads-keeps path [] s p = stable.queued s s.thread_awaiting_file_creation _ p
  keep_threads-keeps path (t ∷ ts) s p = stable.queued s s.thread_awaiting_file_creation _ p

  After-unlocked :
      (env : Env) (path : Text) (s : Server) (waiting : Option (Assoc ℤ ℕ))
      → P s
      → After (elim waiting [
        | none ↦ ok s
        | some threads ↦
            unlock_threads env path threads s >>= λ out. ok (keep_threads path out.0 out.1)
      ])
  After-unlocked env path s none p = After-ok s p
  After-unlocked env path s (some threads) p =
      After-bind (unlock_threads env path threads s) _ λ out e.
        After-ok (keep_threads path out.0 out.1)
          (keep_threads-keeps path out.0 out.1 (unlock_threads-keeps env path threads s p out e))

  pub After-check_and_unlock :
      (env : Env) (path : Text) (s : Server)
      → P s
      → After (check_and_unlock_thread_awaiting_data env path s)
  unfolding check_and_unlock_thread_awaiting_data
  After-check_and_unlock env path s p =
      After-unlocked env path s (find path s.thread_awaiting_data) p

  pub After-set_committed :
      (env : Env) (path : Text) (s : Server) → P s → After (set_committed env path s)
  unfolding set_committed
  After-set_committed env path s p =
      After-bind (check_and_unlock_thread_awaiting_data env path _) _ λ s' e.
        After-unlock_creation path s'
          (After-check_and_unlock env path _ (stable.token_made (metadata_path env path) s p) s' e)

  After-set_committed_files :
      (env : Env) (files : List Text) (s : Server) → P s → After (set_committed_files env files s)
  unfolding set_committed_files
  After-set_committed_files env [] s p = After-ok s p
  After-set_committed_files env (file ∷ files) s p =
      After-bind (set_committed env file s) _
        λ s' e. After-set_committed_files env files s' (After-set_committed env file s p s' e)

  pub After-set_committed_by :
      (env : Env) (tid : ℤ) (s : Server) → P s → After (set_committed_by env tid s)
  unfolding set_committed_by
  After-set_committed_by env tid s p =
      After-bind (get_produced_files tid s.clients) _
        λ files _. After-set_committed_files env files s p

  pub increase_close_count-keeps :
      (env : Env) (path : Text) (s : Server) → P s → P (increase_close_count env path s)
  unfolding increase_close_count
  increase_close_count-keeps env path s p =
      stable.token_raised (metadata_path env path) _
        (stable.token_made (metadata_path env path) s p)
