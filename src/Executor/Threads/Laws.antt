-- ===== src/Executor/Threads/Laws.antt =====
-- The runs of the threads of `ExecuteScript`.
use gitlab_ci_fargate_arm_dr.Prelude.{
  ◌≡◌, ◌≢◌, ◌↔◌, refl, sym, ap, ◌∙◌, Bool, true, inl, inr, arith,
}
use mathlib.Core.Path.{subst, subst₂}
use gitlab_ci_fargate_arm_dr.Platform.{Platform, State, Result, Wait, ended, cancelled}
use gitlab_ci_fargate_arm_dr.Signal.{
  TerminationHandler, new_termination_handler, Pc, left, Step-IsSound,
}
use gitlab_ci_fargate_arm_dr.Signal as Signal
use gitlab_ci_fargate_arm_dr.Executor.Session.{await}
use gitlab_ci_fargate_arm_dr.Executor.Threads.{
  Runner, running, sending, sent, Caller, selecting, interrupting, returned, Threads, executing,
  killing, start, Step, handle, script_ends, receive, see_done, interrupt, Reach, here, next,
  Explained, Inv,
}

pub start-Inv : Inv start
start-Inv = ground arith

-- Another answer of the goroutine that is not sent, and a handler that has gone on, explain as well.
Explained-runner :
    (c : Caller) (r r' : Runner) (b : Bool)
    → r ≢ sent
    → r' ≢ sent
    → Explained c r b
    → Explained c r' b
Explained-runner selecting r r' b h h' x = h'
Explained-runner interrupting r r' b h h' x = (x.0, h')
Explained-runner (returned _) r r' b h h' (inl (a, e, done)) = absurd (h done)
Explained-runner (returned _) r r' b h h' (inr (a, e, on, _)) = inr (a, e, on, h')

Explained-handler :
    (c : Caller) (r : Runner) (b b' : Bool)
    → (b ≡ true → b' ≡ true)
    → Explained c r b
    → Explained c r b'
Explained-handler selecting r b b' h x = x
Explained-handler interrupting r b b' h x = (h x.0, x.1)
Explained-handler (returned _) r b b' h (inl x) = inl x
Explained-handler (returned _) r b b' h (inr (a, e, on, x)) = inr (a, e, h on, x)

Step-cancelled :
    {h k : TerminationHandler} → Signal.Step h k → h.cancelled ≡ true → k.cancelled ≡ true
Step-cancelled (Signal.notify p e) on = ground arith
Step-cancelled (Signal.block p e) on = ground arith
Step-cancelled (Signal.deliver p e) on = ground arith
Step-cancelled (Signal.lose p q e) on = ground arith
Step-cancelled (Signal.cancel p e) on = ground arith

-- The explanation at a known caller and goroutine.
pub at :
    {s : Threads} {c : Caller} {r : Runner}
    → Inv s
    → s.caller ≡ c
    → s.runner ≡ r
    → Explained c r s.handler.cancelled
at {s} i p q = subst₂ (λ c r. Explained c r s.handler.cancelled) p q i.explained

module _ {s t : Threads} where
  Step-Inv : Step s t → Inv s → Inv t
  Step-Inv (handle h st e) i = subst Inv (sym e) (record {
    sound = Step-IsSound st i.sound;
    explained =
        Explained-handler s.caller s.runner s.handler.cancelled h.cancelled (Step-cancelled st)
          i.explained;
  })
  Step-Inv (script_ends r p e) i = subst Inv (sym e) (record {
    sound = i.sound;
    explained =
        Explained-runner s.caller s.runner (sending r) s.handler.cancelled (ground arith)
          (ground arith) i.explained;
  })
  Step-Inv (receive r p q e) i =
      subst Inv (sym e) (record { sound = i.sound; explained = inl (r, refl, refl) })
  Step-Inv (see_done p q e) i =
      subst Inv (sym e) (record { sound = i.sound; explained = (q, at i p refl) })
  Step-Inv (interrupt r p e) i = subst Inv (sym e) (record {
    sound = i.sound;
    explained = let (on, open_) = at i p refl in inr (r, refl, on, open_);
  })

pub run-Inv : {s t : Threads} → Inv s → Reach s t → Inv t
run-Inv i here = i
run-Inv i (next r st) = Step-Inv st (run-Inv i r)

-- A run to a caller that has seen its context cancelled: one signal is delivered.
cancelled_run : Reach start (record {
  handler = record { pc = Signal.finished; cancelled = true };
  runner = running;
  caller = interrupting;
})
cancelled_run =
    next
      (next
        (next
          (next (next here (handle _ (Signal.notify refl refl) refl))
            (handle _ (Signal.block refl refl) refl))
          (handle _ (Signal.deliver refl refl) refl))
        (handle _ (Signal.cancel refl refl) refl))
      (see_done refl refl refl)

module _ {P : Platform} (s : State P) where
  -- What `ExecuteScript` can return when its threads run in any order, signals come at any time, and
  -- the script and the interrupt have any answers, is exactly what `await` returns for some `Wait`,
  -- the choice that the executor takes as given.
  pub returned-iff-await :
      (r : Result (Unit {0}))
      → ((t : Threads) × Reach start t × (t.caller ≡ returned r))
        ↔ ((w : Wait) × ((await w s).0 ≡ r))
  unfolding await
  returned-iff-await r = (
    λ (t, run, e). elim (at (run-Inv start-Inv run) e refl) [
      | inl (a, same, _) ↦ (ended a, await_ended a ∙ sym same)
      | inr (a, same, _, _) ↦ (cancelled a, await_cancelled a ∙ sym same)
    ],
    λ (w, e). runs w e,
  )
    where
      await_ended : (a : Result (Unit {0})) → (await (ended a) s).0 ≡ executing a
      await_ended a = ground arith

      await_cancelled : (a : Result (Unit {0})) → (await (cancelled a) s).0 ≡ killing a
      await_cancelled a = ground arith

      runs :
          (w : Wait) → (await w s).0 ≡ r → (t : Threads) × Reach start t × (t.caller ≡ returned r)
      runs (ended a) e = (
        record {
          handler = new_termination_handler;
          runner = sent;
          caller = returned (executing a);
        },
        next (next here (script_ends a refl refl)) (receive a refl refl refl),
        ap returned (sym (await_ended a) ∙ e),
      )
      runs (cancelled a) e = (
        record {
          handler = record { pc = Signal.finished; cancelled = true };
          runner = running;
          caller = returned (killing a);
        },
        next cancelled_run (interrupt a refl refl),
        ap returned (sym (await_cancelled a) ∙ e),
      )
