-- ===== src/Pipeline/Failures.antt =====
-- Where the error of a failing pipeline comes from.
use parq.Prelude.{
  ℕ, ◌≡◌, ◌⊎◌, inl, inr, refl, subst, Bool, Option, none, some, List, [], ◌∷◌, ◌++◌, map, arith,
  Bytes, All,
}
use parq.Prelude.Results.{err}
use parq.Crates.{Crates}
use parq.Error.{Failure}
use parq.Parser.{Arrow, ParseConfig, parse_chunk}
use parq.Pipeline.{
  Shared, Task, waiting, parsing, sending, done, Move, skip, start, quarantine, fail, count, send,
  hand_over, lose, finish_task, Drain, receive, close, break_down, dead_receive, dead_close,
  dead_break_down, System, Step, work, drain, Reach, here, next, broken, first_error, returned,
}

module _ (X : Crates) (A : Arrow X) (c : ParseConfig X A) (depth : ℕ) where
  -- One of the chunks fails with this error.
  abbrev pub SomeFails : Failure X → List Bytes → Type 0
  SomeFails e [] = ⊥
  SomeFails e (k ∷ ks) = ((parse_chunk X A c k).result ≡ err e) ⊎ SomeFails e ks

  module _ (chunks : List Bytes) where
    -- An error that a task may still report is that of a chunk.
    abbrev IsHonest : Task X A → Type 0
    IsHonest (waiting k) =
        (e : Failure X) → (parse_chunk X A c k).result ≡ err e → SomeFails e chunks
    IsHonest (parsing l r) = (e : Failure X) → r ≡ err e → SomeFails e chunks
    IsHonest (sending bs) = Unit
    IsHonest done = Unit

    abbrev IsTrue : Shared X A → Type 0
    IsTrue s = (e : Failure X) → s.parse_error ≡ some e → SomeFails e chunks

    first_error-true :
        (o : Option (Failure X)) (e0 : Failure X)
        → ((e : Failure X) → o ≡ some e → SomeFails e chunks)
        → SomeFails e0 chunks
        → (e : Failure X) → first_error X A o e0 ≡ some e
        → SomeFails e chunks
    first_error-true none e0 h k e p = let q : e0 ≡ e = cc in subst (λ x. SomeFails x chunks) q k
    first_error-true (some x) e0 h k e p = h e p

    move-IsTrue :
        {s s' : Shared X A} {t t' : Task X A}
        → Move X A c depth s t s' t'
        → IsTrue s
        → IsHonest t
        → IsTrue s' × IsHonest t'
    move-IsTrue (skip e) h k = (h, tt)
    move-IsTrue (start e) h k = (h, k)
    move-IsTrue quarantine h k = (h, k)
    move-IsTrue {s} (fail {e = e0}) h k = (first_error-true s.parse_error e0 h (k e0 refl), tt)
    move-IsTrue count h k = (h, tt)
    move-IsTrue (send w e) h k = (h, tt)
    move-IsTrue (hand_over w e) h k = (h, tt)
    move-IsTrue (lose w) h k = (h, tt)
    move-IsTrue finish_task h k = (h, tt)

    replace_task :
        (before after : List (Task X A)) (t t' : Task X A)
        → All IsHonest (before ++ t ∷ after)
        → (IsHonest t' → All IsHonest (before ++ t' ∷ after)) × IsHonest t
    replace_task [] after t t' h = (λ k. (k, h.1), h.0)
    replace_task (b ∷ before) after t t' h =
        let (put, old) = replace_task before after t t' h.1 in (λ k. (h.0, put k), old)

    Drain-IsTrue : {b : Bool} {s s' : Shared X A} → Drain X A b s s' → IsTrue s → IsTrue s'
    Drain-IsTrue (receive w e) h = h
    Drain-IsTrue (close w e d) h = h
    Drain-IsTrue (break_down e w) h = h
    Drain-IsTrue (dead_receive w e) h = h
    Drain-IsTrue (dead_close w e d) h = h
    Drain-IsTrue (dead_break_down e w) h = h

    abbrev IsTrueSystem : System X A → Type 0
    IsTrueSystem a = IsTrue a.shared × All IsHonest a.tasks

    Step-true : {a b : System X A} → Step X A c depth a b → IsTrueSystem a → IsTrueSystem b
    Step-true (work {t} {t'} before after m) (h, k) =
        let (put, old) = replace_task before after t t' k in
        let (h', k') = move-IsTrue m h old in (h', put k')
    Step-true (drain d) (h, k) = (Drain-IsTrue d h, k)

    start-IsHonest :
        (ks : List Bytes)
        → ((e : Failure X) → SomeFails e ks → SomeFails e chunks)
        → All IsHonest (map waiting ks)
    start-IsHonest [] h = tt
    start-IsHonest (k ∷ ks) h = (λ e p. h e (inl p), start-IsHonest ks (λ e p. h e (inr p)))

    Reach-true : {a : System X A} → Reach X A c depth chunks a → IsTrueSystem a
    Reach-true here = (λ e p. cc, start-IsHonest chunks (λ e p. p))
    Reach-true (next r st) = Step-true st (Reach-true r)

  returned-err :
      (a : System X A) (e : Failure X)
      → returned X A a ≡ some (err e)
      → (a.shared.parse_error ≡ some e)
        ⊎ (a.shared.writer ≡ broken e)
        ⊎ (a.shared.dead_writer ≡ broken e)
  unfolding returned
  returned-err a e h = ground arith

  -- An error that the pipeline returns is that of a chunk whose parse failed, or that of one of the
  -- two writer threads.
  pub failure_source :
      {chunks : List Bytes} {a : System X A} {e : Failure X}
      → Reach X A c depth chunks a
      → returned X A a ≡ some (err e)
      → SomeFails e chunks ⊎ (a.shared.writer ≡ broken e) ⊎ (a.shared.dead_writer ≡ broken e)
  failure_source {chunks} {a} {e} r h = elim (returned-err a e h) [
    | inl p ↦ inl ((Reach-true chunks r).0 e p)
    | inr q ↦ inr q
  ]
