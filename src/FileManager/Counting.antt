-- ===== src/FileManager/Counting.antt =====
-- The counting of closed files in src/server/file-manager/file_manager_impl.hpp.
use capio_v.Prelude.{
  ℕ, suc, ◌<◌, ◌≡◌, refl, Bool, true, false, Option, none, some, List, [], ◌∷◌, All, arith,
  Bool-cases, inl, inr,
}
use capio_v.Prelude.Eq.{Text, text_eq}
use capio_v.Prelude.Result.{Result, ok, err, ◌>>=◌}
use capio_v.Disk.{Env, directory_count}
use capio_v.Prelude.Int.{ℤ, pos, negsuc, ◌≤ℤ◌, int_beq, int_beq_iff}
use capio_v.Prelude.{◌⊎◌, Option, none}
use capio_v.Engine.{get_directory_file_count}
use capio_v.FileManager.{Server, all_committed, closed_often_enough, directory_committed}

pub both_true :
    (r rest : Result Bool)
    → (r >>= λ computed. elim computed [ true ↦ rest | false ↦ ok false ]) ≡ ok true
    → (r ≡ ok true) × (rest ≡ ok true)
both_true (ok true) rest h = (refl, h)
both_true (ok false) rest h = absurd (cc)
both_true (err f) rest h = absurd (cc)

pub token_there :
    (t : Option ℕ) → (elim t [ none ↦ false | some _ ↦ true ]) ≡ true → (n : ℕ) × (t ≡ some n)
token_there none h = absurd (cc)
token_there (some n) h = (n, refl)

pub All-lt_mono :
    (rank : Text → ℕ) (files : List Text) {m n : ℕ}
    → All (λ file. rank file < m) files
    → m < suc n
    → All (λ file. rank file < n) files
All-lt_mono rank [] h lt = tt
All-lt_mono rank (file ∷ files) h lt = (omega arith, All-lt_mono rank files h.1 lt)

step_total :
    (r rest : Result Bool) (b : Bool)
    → r ≡ ok b
    → (c : Bool) × (rest ≡ ok c)
    → (c : Bool) × ((r >>= λ computed. elim computed [ true ↦ rest | false ↦ ok false ]) ≡ ok c)
step_total r rest true e (c, h) = (c, rw e h)
step_total r rest false e h = (false, rw e)

pub all_committed_total :
    (f : Text → Result Bool) (P : Text → Type 0)
    → ((path : Text) → P path → (b : Bool) × (f path ≡ ok b))
    → (files : List Text) → All P files
    → (b : Bool) × (all_committed f files ≡ ok b)
unfolding all_committed
all_committed_total f P total [] h = (true, refl)
all_committed_total f P total (file ∷ files) h =
    let (b, e) = total file h.0 in
    step_total (f file) (all_committed f files) b e (all_committed_total f P total files h.1)

-- -1 stands for any number of closes.
abbrev pub ClosedEnough : ℤ → ℕ → Type 0
ClosedEnough count n = (count ≡ negsuc 0) ⊎ (count ≤ℤ pos n)

pub closes_sound :
    (count : ℤ) (t : Option ℕ)
    → closed_often_enough count t ≡ true
    → (n : ℕ) × (t ≡ some n) × ClosedEnough count n
unfolding closed_often_enough
closes_sound count none h = absurd (cc)
closes_sound count (some n) h = elim (Bool-cases (int_beq count (negsuc 0))) [
  | inl y ↦ (n, refl, inl ((int_beq_iff count (negsuc 0)).0 y))
  | inr other ↦ (n, refl, inr (ground (arith, other)))
]

pub closes_complete :
    (count : ℤ) (n : ℕ) → ClosedEnough count n → closed_often_enough count (some n) ≡ true
unfolding closed_often_enough
closes_complete count n (inl any) = ground (arith, any)
closes_complete count n (inr enough) = ground arith

pub directory_sound :
    (env : Env) (s : Server) (path : Text)
    → directory_committed env s path ≡ true
    → get_directory_file_count path s.locations ≤ℤ directory_count env path
unfolding directory_committed
directory_sound env s path h = ground arith

pub directory_complete :
    (env : Env) (s : Server) (path : Text)
    → get_directory_file_count path s.locations ≤ℤ directory_count env path
    → directory_committed env s path ≡ true
unfolding directory_committed
directory_complete env s path h = ground arith
