-- ===== src/Pipeline/Sums.antt =====
-- Sums over the tasks of `run_pipeline`: what the shared state has, and what each task still owes.
use parq.Prelude.{ℕ, ◌+◌, ◌≡◌, refl, Bool, true, List, [], ◌∷◌, ◌++◌, map, arith, Bytes}
use parq.Crates.{Crates}
use parq.Parser.{Arrow, ParseConfig}
use parq.Pipeline.{
  Shared, Task, waiting, parsing, sending, done, Move, Drain, all_done, System, Step, work, drain,
  start_system, Reach, here, next,
}

module _ {ℓ} {B : Type ℓ} where
  -- The sum of a weight over a list.
  unfoldable pub sum_by : (B → ℕ) → List B → ℕ
  sum_by f [] = 0
  sum_by f (x ∷ xs) = f x + sum_by f xs

  pub sum_by-append : (f : B → ℕ) (xs ys : List B) → sum_by f (xs ++ ys) ≡ sum_by f xs + sum_by f ys
  unfolding sum_by
  sum_by-append f [] ys = omega arith
  sum_by-append f (x ∷ xs) ys = omega (arith, sum_by-append f xs ys)

  pub sum_by-last : (f : B → ℕ) (xs : List B) (y : B) → sum_by f (xs ++ y ∷ []) ≡ sum_by f xs + f y
  unfolding sum_by
  sum_by-last f xs y = omega (arith, sum_by-append f xs (y ∷ []))

  pub sum_by-middle :
      (f : B → ℕ) (xs ys : List B) (y : B)
      → sum_by f (xs ++ y ∷ ys) ≡ sum_by f xs + f y + sum_by f ys
  unfolding sum_by
  sum_by-middle f xs ys y = omega (arith, sum_by-append f xs (y ∷ ys))

module _ (X : Crates) (A : Arrow X) (c : ParseConfig X A) (depth : ℕ) (Guard : Shared X A → Type 0)
    (held : Shared X A → ℕ) (due : Task X A → ℕ)
    (move_guard : (s s' : Shared X A) (t t' : Task X A)
      → Move X A c depth s t s' t'
      → Guard s'
      → Guard s)
    (move_keeps : (s s' : Shared X A) (t t' : Task X A)
      → Move X A c depth s t s' t'
      → Guard s'
      → held s' + due t' ≡ held s + due t)
    (drain_guard : (b : Bool) (s s' : Shared X A) → Drain X A b s s' → Guard s' → Guard s)
    (drain_keeps : (b : Bool) (s s' : Shared X A)
      → Drain X A b s s'
      → Guard s'
      → held s' ≡ held s) where
  step_guard : {a b : System X A} → Step X A c depth a b → Guard b.shared → Guard a.shared
  step_guard (work {s} {s'} {t} {t'} before after m) g = move_guard s s' t t' m g
  step_guard (drain {s} {s'} {tasks} d) g = drain_guard (all_done X A tasks) s s' d g

  Step-keeps :
      {a b : System X A}
      → Step X A c depth a b
      → Guard b.shared
      → held b.shared + sum_by due b.tasks ≡ held a.shared + sum_by due a.tasks
  Step-keeps (work {s} {s'} {t} {t'} before after m) g = omega (
    arith,
    move_keeps s s' t t' m g,
    sum_by-middle due before after t,
    sum_by-middle due before after t',
  )
  Step-keeps (drain {s} {s'} {tasks} d) g = omega (arith, drain_keeps (all_done X A tasks) s s' d g)

  -- While the guard holds, nothing that the tasks owed at the start is lost or counted twice.
  pub conserved :
      {chunks : List Bytes} {a : System X A}
      → Reach X A c depth chunks a
      → Guard a.shared
      → held a.shared + sum_by due a.tasks
        ≡ held (start_system X A c chunks).shared + sum_by due (map waiting chunks)
  conserved here g = refl
  conserved (next r st) g = omega (arith, Step-keeps st g, conserved r (step_guard st g))

module _ (X : Crates) (A : Arrow X) where
  -- When every task has returned, none owes anything.
  pub all_done-due :
      (due : Task X A → ℕ)
      → due done ≡ 0
      → (ts : List (Task X A)) → all_done X A ts ≡ true
      → sum_by due ts ≡ 0
  unfolding sum_by
  all_done-due due z [] h = refl
  all_done-due due z (done ∷ ts) h = omega (arith, all_done-due due z ts h)
  all_done-due due z (waiting b ∷ ts) h = cc
  all_done-due due z (parsing l r ∷ ts) h = cc
  all_done-due due z (sending bs ∷ ts) h = cc

  pub sum_by-waiting :
      (due : Task X A → ℕ) (chunks : List Bytes)
      → sum_by due (map waiting chunks) ≡ sum_by (λ k. due (waiting k)) chunks
  unfolding sum_by
  sum_by-waiting due [] = refl
  sum_by-waiting due (k ∷ ks) = omega (arith, sum_by-waiting due ks)
