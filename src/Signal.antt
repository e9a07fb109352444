-- ===== src/Signal.antt =====
-- The termination handler (internal/signal/termination_handler.go): the goroutine that waits for one
-- signal and cancels the context. `Notify` never waits for a receiver, as its documentation says: a
-- signal is handed over only if the goroutine is at its receive, and is lost otherwise. A signal before
-- `Notify` ends the process, and is not a step.
use gitlab_ci_fargate_arm_dr.Prelude.{◌≡◌, ◌≢◌, ℕ, Bool, true, false, arith}

-- Where `HandleSignals` stands: before `Notify`, after it, at the receive, before `cancelFn`, at its end.
pub data Pc : Type 0 where
  starting registered receiving received finished : Pc

pub record TerminationHandler : Type 0 where
  pub pc : Pc
  pub cancelled : Bool

-- `NewTerminationHandler`, and the start of `HandleSignals`.
abbrev pub new_termination_handler : TerminationHandler
new_termination_handler = record { pc = starting; cancelled = false }

-- A step of the goroutine, or a signal of the operating system.
pub data Step (h k : TerminationHandler) : Type 0 where
  notify : h.pc ≡ starting → k ≡ record h { pc = registered } → Step h k
  block : h.pc ≡ registered → k ≡ record h { pc = receiving } → Step h k
  deliver : h.pc ≡ receiving → k ≡ record h { pc = received } → Step h k
  lose : h.pc ≢ starting → h.pc ≢ receiving → k ≡ h → Step h k
  cancel : h.pc ≡ received → k ≡ record { pc = finished; cancelled = true } → Step h k

-- A context is cancelled at the end of the handler, and not before.
pub record IsSound (h : TerminationHandler) : Type 0 where
  pub cancelled_finished : h.cancelled ≡ true → h.pc ≡ finished
  pub finished_cancelled : h.pc ≡ finished → h.cancelled ≡ true

pub Step-IsSound : {h k : TerminationHandler} → Step h k → IsSound h → IsSound k
Step-IsSound (notify p e) s = ground arith
Step-IsSound (block p e) s = ground arith
Step-IsSound (deliver p e) s = ground arith
Step-IsSound (lose p q e) s = ground arith
Step-IsSound (cancel p e) s = ground arith

-- Steps that the goroutine still takes.
abbrev pub left : Pc → ℕ
left starting = 4
left registered = 3
left receiving = 2
left received = 1
left finished = 0
