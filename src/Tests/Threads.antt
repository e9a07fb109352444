-- ===== src/Tests/Threads.antt =====
-- The threads of `ExecuteScript` in a run in which a signal comes while the script runs.
use gitlab_ci_fargate_arm_dr.Prelude.{◌≡◌, ◌≢◌, refl, ◌≤◌, true, [], inr, arith}
use gitlab_ci_fargate_arm_dr.Go.Errors.{Error, wrapped, external}
use gitlab_ci_fargate_arm_dr.Platform.{Result, ok, err, Wait}
use gitlab_ci_fargate_arm_dr.Signal.{TerminationHandler}
use gitlab_ci_fargate_arm_dr.Signal as Signal
use gitlab_ci_fargate_arm_dr.Executor.Session.{await}
use gitlab_ci_fargate_arm_dr.Executor.Threads.{
  running, sending, sent, interrupting, returned, Threads, start, Step, handle, script_ends,
  receive, see_done, interrupt, Reach, here, next,
}
use gitlab_ci_fargate_arm_dr.Executor.Threads.Laws.{returned-iff-await}
use gitlab_ci_fargate_arm_dr.Executor.Threads.Ends.{
  Reach-not_sent, turns, turns-le, IsOwn, stuck-returned,
}
use gitlab_ci_fargate_arm_dr.Tests.Machine.{machine}
use gitlab_ci_fargate_arm_dr.Tests.Machine as Machine

abbrev done_handler : TerminationHandler
done_handler = record { pc = Signal.finished; cancelled = true }

abbrev interrupted : Threads
interrupted = record { handler = done_handler; runner = running; caller = interrupting }

abbrev left_alone : Threads
left_alone = record { handler = done_handler; runner = running; caller = returned (ok tt) }

-- The script ends after the caller has returned.
abbrev leaked : Threads
leaked = record left_alone { runner = sending (ok tt) }

abbrev to_interrupt : Reach start interrupted
to_interrupt =
    next
      (next
        (next
          (next (next here (handle _ (Signal.notify refl refl) refl))
            (handle _ (Signal.block refl refl) refl))
          (handle _ (Signal.deliver refl refl) refl))
        (handle _ (Signal.cancel refl refl) refl))
      (see_done refl refl refl)

abbrev to_left_alone : Reach start left_alone
to_left_alone = next to_interrupt (interrupt (ok tt) refl refl)

abbrev to_leaked : Reach start leaked
to_leaked = next to_left_alone (script_ends (ok tt) refl refl)

-- A script that fails: the caller gets its error.
abbrev failure : Error
failure = external 7

abbrev failed : Threads
failed = record start {
  runner = sent;
  caller = returned (err (wrapped "executing SSH command: %w" [] failure));
}

abbrev to_failed : Reach start failed
to_failed =
    next (next here (script_ends (err failure) refl refl)) (receive (err failure) refl refl refl)

returned-iff-await_example :
    (w : Wait) × ((await w Machine.start).0 ≡ err (wrapped "executing SSH command: %w" [] failure))
returned-iff-await_example =
    (returned-iff-await Machine.start (err (wrapped "executing SSH command: %w" [] failure))).0
      (failed, to_failed, refl)

Reach-not_sent_example : (leaked.caller ≡ returned (ok tt)) × (leaked.runner ≢ sent)
Reach-not_sent_example =
    Reach-not_sent {s = left_alone} (ok tt) refl (λ e. ground arith)
      (next here (script_ends (ok tt) refl refl))

turns-le_example : turns to_leaked ≤ 7
turns-le_example = turns-le to_leaked

-- The goroutine waits for ever at its send, and no step of the driver's own is left.
leaked_is_stuck : (t : Threads) (st : Step leaked t) → IsOwn st → t ≡ leaked
leaked_is_stuck t (handle h (Signal.notify p q) e) own = absurd (ground arith)
leaked_is_stuck t (handle h (Signal.block p q) e) own = absurd (ground arith)
leaked_is_stuck t (handle h (Signal.deliver p q) e) own = absurd own
leaked_is_stuck t (handle h (Signal.lose p g q) e) own = ground arith
leaked_is_stuck t (handle h (Signal.cancel p q) e) own = absurd (ground arith)
leaked_is_stuck t (script_ends r p e) own = absurd own
leaked_is_stuck t (receive r p q e) own = absurd (ground arith)
leaked_is_stuck t (see_done p q e) own = absurd (ground arith)
leaked_is_stuck t (interrupt r p e) own = absurd (ground arith)

stuck-returned_example : (r : Result (Unit {0})) × (leaked.caller ≡ returned r)
stuck-returned_example = stuck-returned to_leaked leaked_is_stuck (inr refl)
