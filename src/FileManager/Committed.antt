-- ===== src/FileManager/Committed.antt =====
-- isCommitted of src/server/file-manager/file_manager_impl.hpp against a relation that says what a
-- committed path is, and its recursion over the dependencies.
use capio_v.Prelude.{
  ℕ, zero, suc, ◌<◌, ◌≡◌, refl, ◌↔◌, Bool, true, false, none, some, List, [], ◌∷◌, All, arith,
  Bool-cases, inl, inr,
}
use capio_v.Prelude.Eq.{Text, text_eq, ◌==◌}
use capio_v.Prelude.Result.{Result, ok, err, out_of_fuel}
use capio_v.Constants.{capio_file_committed_on_close, capio_file_committed_on_file}
use capio_v.Disk.{Env, directory_count}
use capio_v.Disk
use capio_v.Prelude.Int.{◌≤ℤ◌}
use capio_v.Prelude.{ap, none}
use capio_v.Engine.{
  get_directory_file_count, get_commit_rule, get_file_deps, get_commit_close_count,
}
use capio_v.FileManager.{
  Server, token, all_committed, closed_often_enough, directory_committed, is_committed_within,
  is_committed,
}
use capio_v.FileManager.Counting.{
  both_true, token_there, All-lt_mono, all_committed_total, ClosedEnough, closes_sound,
  closes_complete, directory_sound, directory_complete,
}

module _ (env : Env) (s : Server) where
  abbrev rule : Text → Text
  rule path = get_commit_rule path s.locations

  -- a path whose commit rule is on_file, and is not a directory on the disk
  pub record OnFile (path : Text) : Type 0 where
    pub no_directory : Disk.is_directory env path ≡ false
    pub on_file : (rule path == capio_file_committed_on_file) ≡ true

  mutual
    -- A directory is committed when it holds enough files; a file by its rule: when all its
    -- dependencies are, when it was closed often enough, or when its token is there.
    pub data Committed : Text → Type 0 where
      by_directory :
          {path : Text}
          → Disk.is_directory env path ≡ true
          → get_directory_file_count path s.locations ≤ℤ directory_count env path
          → Committed path
      by_dependencies :
          {path : Text}
          → OnFile path
          → CommittedAll (get_file_deps path s.locations)
          → Committed path
      by_closes :
          {path : Text} (n : ℕ)
          → Disk.is_directory env path ≡ false
          → (rule path == capio_file_committed_on_file) ≡ false
          → (rule path == capio_file_committed_on_close) ≡ true
          → token env s path ≡ some n
          → ClosedEnough (get_commit_close_count path s.locations) n
          → Committed path
      by_token :
          {path : Text} (n : ℕ)
          → Disk.is_directory env path ≡ false
          → (rule path == capio_file_committed_on_file) ≡ false
          → (rule path == capio_file_committed_on_close) ≡ false
          → token env s path ≡ some n
          → Committed path

    pub data CommittedAll : List Text → Type 0 where
      none_left : CommittedAll []
      one_more :
          {path : Text} {rest : List Text}
          → Committed path
          → CommittedAll rest
          → CommittedAll (path ∷ rest)

  all_committed_sound :
      (f : Text → Result Bool)
      → ((path : Text) → f path ≡ ok true → Committed path)
      → (files : List Text) → all_committed f files ≡ ok true
      → CommittedAll files
  unfolding all_committed
  all_committed_sound f sound [] h = none_left
  all_committed_sound f sound (file ∷ files) h =
      let (first, rest) = both_true (f file) (all_committed f files) h in
      one_more (sound file first) (all_committed_sound f sound files rest)

  Committed-sound :
      (n : ℕ) (path : Text) → is_committed_within n env s path ≡ ok true → Committed path
  unfolding is_committed_within
  Committed-sound zero path h = absurd (cc)
  Committed-sound (suc n) path h = elim (Bool-cases (Disk.is_directory env path)) [
    | inl d ↦ by_directory d (directory_sound env s path (ground arith))
    | inr nd ↦ elim (Bool-cases (rule path == capio_file_committed_on_file)) [
      | inl f ↦
          by_dependencies (record { no_directory = nd; on_file = f })
            (all_committed_sound (is_committed_within n env s) (Committed-sound n)
              (get_file_deps path s.locations) (rw (nd, f) at h))
      | inr nf ↦ elim (Bool-cases (rule path == capio_file_committed_on_close)) [
        | inl c ↦
            let (k, t, enough) =
              closes_sound (get_commit_close_count path s.locations) (token env s path)
                (ground arith) in
            by_closes k nd nf c t enough
        | inr nc ↦
            let (k, t) = token_there (token env s path) (ground arith) in by_token k nd nf nc t
      ]
    ]
  ]

  -- A number for each path that falls along the dependencies: there is no cycle.
  abbrev pub Acyclic : (Text → ℕ) → Type 0
  Acyclic rank =
      (path : Text)
      → OnFile path
      → All (λ dep. rank dep < rank path) (get_file_deps path s.locations)

  module _ (rank : Text → ℕ) (acyclic : Acyclic rank) where
    mutual
      unfolding is_committed_within all_committed

      Committed-complete :
          {path : Text}
          → Committed path
          → (n : ℕ) → rank path < n
          → is_committed_within n env s path ≡ ok true
      Committed-complete c zero h = elim h [ ]
      Committed-complete {path} (by_directory d e) (suc n) h =
          rw d (ap ok (directory_complete env s path e))
      Committed-complete {path} (by_dependencies o cs) (suc n) h =
          rw (o.no_directory, o.on_file)
            (complete-All cs n
              (All-lt_mono rank (get_file_deps path s.locations) (acyclic path o) h))
      Committed-complete {path} (by_closes k nd nf c e enough) (suc n) h =
          rw (nd, nf, c, e)
            (ap ok (closes_complete (get_commit_close_count path s.locations) k enough))
      Committed-complete (by_token k nd nf nc e) (suc n) h = rw (nd, nf, nc, e)

      complete-All :
          {files : List Text}
          → CommittedAll files
          → (n : ℕ) → All (λ dep. rank dep < n) files
          → all_committed (is_committed_within n env s) files ≡ ok true
      complete-All none_left n h = refl
      complete-All (one_more c cs) n h = rw (Committed-complete c n h.0) (complete-All cs n h.1)

    committed_total :
        (n : ℕ) (path : Text)
        → rank path < n
        → (b : Bool) × (is_committed_within n env s path ≡ ok b)
    unfolding is_committed_within
    committed_total zero path h = elim h [ ]
    committed_total (suc n) path h = elim (Bool-cases (Disk.is_directory env path)) [
      | inl d ↦ (directory_committed env s path, rw d)
      | inr nd ↦ elim (Bool-cases (rule path == capio_file_committed_on_file)) [
        | inr nf ↦ elim (Bool-cases (rule path == capio_file_committed_on_close)) [
          | inl c ↦ (
            closed_often_enough (get_commit_close_count path s.locations) (token env s path),
            rw (nd, nf, c),
          )
          | inr nc ↦ (elim (token env s path) [ none ↦ false | some _ ↦ true ], rw (nd, nf, nc))
        ]
        | inl f ↦
            rw (nd, f)
              (all_committed_total (is_committed_within n env s) (λ dep. rank dep < n)
                (committed_total n) (get_file_deps path s.locations)
                (All-lt_mono rank (get_file_deps path s.locations)
                  (acyclic path (record { no_directory = nd; on_file = f })) h))
      ]
    ]

-- Where no file depends on itself through the on_file rules, and the fuel is above the path's rank,
-- isCommitted returns, and returns true exactly for a committed path.
pub is_committed_iff :
    (env : Env) (s : Server) (rank : Text → ℕ) (path : Text)
    → Acyclic env s rank
    → rank path < env.fuel
    → ((b : Bool) × (is_committed env s path ≡ ok b))
      × ((is_committed env s path ≡ ok true) ↔ Committed env s path)
unfolding is_committed
is_committed_iff env s rank path acyclic enough = (
  committed_total env s rank acyclic env.fuel path enough,
  (
    Committed-sound env s env.fuel path,
    λ c. Committed-complete env s rank acyclic c env.fuel enough,
  ),
)

-- the files whose first dependency is one of them again
abbrev pub Circular : Env → Server → (Text → Type 0) → Type 0
Circular env s P =
    (path : Text)
    → P path
    → OnFile env s path
      × ((dep : Text) × (rest : List Text) × (get_file_deps path s.locations ≡ dep ∷ rest) × P dep)

-- A file whose first dependencies lead round in a circle of on_file files has no answer: whatever
-- the fuel, the recursion uses it up.
pub circular_dependencies_diverge :
    (env : Env) (s : Server) (P : Text → Type 0)
    → Circular env s P
    → (n : ℕ) (path : Text) → P path
    → is_committed_within n env s path ≡ err out_of_fuel
unfolding is_committed_within all_committed
circular_dependencies_diverge env s P circle zero path p = refl
circular_dependencies_diverge env s P circle (suc n) path p =
    let (o, next) = circle path p in
    let (dep, rest, e, q) = next in
    rw (o.no_directory, o.on_file, e, circular_dependencies_diverge env s P circle n dep q)
