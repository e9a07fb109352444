-- ===== src/Executor/Threads/Ends.antt =====
-- How long the threads of `ExecuteScript` run, and what they leave behind.
use gitlab_ci_fargate_arm_dr.Prelude.{◌≡◌, ◌≢◌, refl, ℕ, ◌+◌, ◌≤◌, true, ◌⊎◌, inl, inr, arith}
use gitlab_ci_fargate_arm_dr.Platform.{Result, ok}
use gitlab_ci_fargate_arm_dr.Signal.{TerminationHandler, left}
use gitlab_ci_fargate_arm_dr.Signal as Signal
use gitlab_ci_fargate_arm_dr.Executor.Threads.{
  Runner, running, sending, sent, Caller, selecting, interrupting, returned, Threads, executing,
  killing, start, Step, handle, script_ends, receive, see_done, interrupt, Reach, here, next,
}
use gitlab_ci_fargate_arm_dr.Executor.Threads.Laws.{at, start-Inv, run-Inv}

Step-not_sent :
    {s t : Threads} (r : Result (Unit {0}))
    → Step s t
    → (s.caller ≡ returned r) × (s.runner ≢ sent)
    → (t.caller ≡ returned r) × (t.runner ≢ sent)
Step-not_sent r (handle h st e) (p, q) = ground arith
Step-not_sent r (script_ends a w e) (p, q) = ground arith
Step-not_sent r (receive a w v e) (p, q) = absurd (ground arith)
Step-not_sent r (see_done w v e) (p, q) = absurd (ground arith)
Step-not_sent r (interrupt a w e) (p, q) = absurd (ground arith)

-- A goroutine whose answer was not received when `ExecuteScript` returned, as after a cancellation,
-- never gets past its send: it is leaked.
pub Reach-not_sent :
    {s t : Threads} (r : Result (Unit {0}))
    → s.caller ≡ returned r
    → s.runner ≢ sent
    → Reach s t
    → (t.caller ≡ returned r) × (t.runner ≢ sent)
Reach-not_sent r p q here = (p, q)
Reach-not_sent r p q (next run st) = Step-not_sent r st (Reach-not_sent r p q run)

-- A lost signal is no progress; each other step is one.
abbrev pub handler_progress : {h k : TerminationHandler} → Signal.Step h k → ℕ
handler_progress (Signal.lose _ _ _) = 0
handler_progress _ = 1

abbrev pub progress : {s t : Threads} → Step s t → ℕ
progress (handle h st e) = handler_progress st
progress _ = 1

abbrev pub turns : {s t : Threads} → Reach s t → ℕ
turns here = 0
turns (next run st) = turns run + progress st

abbrev runner_left : Runner → ℕ
runner_left running = 1
runner_left _ = 0

abbrev caller_left : Caller → ℕ
caller_left selecting = 2
caller_left interrupting = 1
caller_left (returned _) = 0

abbrev todo : Threads → ℕ
todo s = left s.handler.pc + runner_left s.runner + caller_left s.caller

handler_progress-left :
    {h k : TerminationHandler} (st : Signal.Step h k) → left k.pc + handler_progress st ≤ left h.pc
handler_progress-left (Signal.notify p e) = ground arith
handler_progress-left (Signal.block p e) = ground arith
handler_progress-left (Signal.deliver p e) = ground arith
handler_progress-left (Signal.lose p q e) = ground arith
handler_progress-left (Signal.cancel p e) = ground arith

progress-todo : {s t : Threads} (st : Step s t) → todo t + progress st ≤ todo s
progress-todo (handle h st e) = ground (arith, handler_progress-left st)
progress-todo (script_ends r p e) = ground arith
progress-todo (receive r p q e) = ground arith
progress-todo (see_done p q e) = ground arith
progress-todo (interrupt r p e) = ground arith

turns-todo : {s t : Threads} (run : Reach s t) → todo t + turns run ≤ todo s
turns-todo here = omega arith
turns-todo (next run st) = omega (arith, turns-todo run, progress-todo st)

-- Every run of the threads ends: it has at most seven steps, signals that are lost not counted.
pub turns-le : {t : Threads} (run : Reach start t) → turns run ≤ 7
turns-le run = omega (arith, turns-todo run)

-- A step that the driver takes by itself: no signal arrives and the script does not end.
abbrev pub IsOwn : {s t : Threads} → Step s t → Type 0
IsOwn (script_ends r p e) = ⊥
IsOwn (handle h (Signal.deliver p q) e) = ⊥
IsOwn _ = Unit

-- No deadlock: once the script has ended or the context is cancelled, a state in which no step of the
-- driver's own changes anything is one in which `ExecuteScript` has returned.
pub stuck-returned :
    {s : Threads}
    → Reach start s
    → ((t : Threads) (st : Step s t) → IsOwn st → t ≡ s)
    → (s.runner ≢ running) ⊎ (s.handler.cancelled ≡ true)
    → (r : Result (Unit {0})) × (s.caller ≡ returned r)
stuck-returned {s} run stuck ready = by_caller s.caller refl
  where
    by_runner : (q : Runner) → s.runner ≡ q → s.caller ≡ selecting → ⊥
    by_runner running g e = elim ready [
      | inl h ↦ h g
      | inr on ↦
          let same = stuck (record s { caller = interrupting }) (see_done e on refl) tt in
          absurd (ground arith)
    ]
    by_runner (sending r) g e =
        let t : Threads = record s { runner = sent; caller = returned (executing r) } in
        let same = stuck t (receive r g e refl) tt in absurd (ground arith)
    by_runner sent g e = at (run-Inv start-Inv run) e refl g

    by_caller : (c : Caller) → s.caller ≡ c → (r : Result (Unit {0})) × (s.caller ≡ returned r)
    by_caller (returned r) e = (r, e)
    by_caller interrupting e =
        let t : Threads = record s { caller = returned (killing (ok tt)) } in
        let same = stuck t (interrupt (ok tt) e refl) tt in absurd (ground arith)
    by_caller selecting e = absurd (by_runner s.runner refl e)
