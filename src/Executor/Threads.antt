-- ===== src/Executor/Threads.antt =====
-- `ExecuteScript` of a session (executors/ssh/internal/session/session.go) as concurrent threads: the
-- caller in its `select`, the goroutine that runs the script, and the termination handler whose
-- context the caller watches. `waitErr` has no buffer: the goroutine's send waits for the receive.
pub mod Laws
pub mod Ends
use gitlab_ci_fargate_arm_dr.Prelude.{
  ◌≡◌, ◌≢◌, refl, ℕ, ◌+◌, String, Bytes, Bool, true, false, [], ◌⊎◌, inl, inr, arith,
}
use gitlab_ci_fargate_arm_dr.Go.Errors.{wrapped}
use gitlab_ci_fargate_arm_dr.Platform.{Result, ok, err, panic}
use gitlab_ci_fargate_arm_dr.Signal.{TerminationHandler, new_termination_handler, left}
use gitlab_ci_fargate_arm_dr.Signal as Signal

-- The goroutine: the script runs, its answer is to be sent, it is sent.
pub data Runner : Type 0 where
  running : Runner
  sending : Result (Unit {0}) → Runner
  sent : Runner

-- The caller: at the `select`, at the call of `Signal`, returned.
pub data Caller : Type 0 where
  selecting interrupting : Caller
  returned : Result (Unit {0}) → Caller

pub record Threads : Type 0 where
  pub handler : TerminationHandler
  pub runner : Runner
  pub caller : Caller

-- `if err != nil { return fmt.Errorf(format, err) }`, then `return nil`.
abbrev pub session_error : String → Result (Unit {0}) → Result (Unit {0})
session_error format (ok _) = ok tt
session_error format (err e) = err (wrapped format [] e)
session_error format (panic t) = panic t

abbrev pub executing : Result (Unit {0}) → Result (Unit {0})
executing = session_error "executing SSH command: %w"

abbrev pub killing : Result (Unit {0}) → Result (Unit {0})
killing = session_error "killing SSH command: %w"

abbrev pub start : Threads
start = record { handler = new_termination_handler; runner = running; caller = selecting }

-- What happens next: the handler goes on, the script ends with an answer, the caller receives it, or
-- sees the cancelled context, or gets an answer to the interrupt.
pub data Step (s t : Threads) : Type 0 where
  handle :
      (h : TerminationHandler) → Signal.Step s.handler h → t ≡ record s { handler = h } → Step s t
  script_ends :
      (r : Result (Unit {0})) → s.runner ≡ running → t ≡ record s { runner = sending r } → Step s t
  receive :
      (r : Result (Unit {0}))
      → s.runner ≡ sending r
      → s.caller ≡ selecting
      → t ≡ record s { runner = sent; caller = returned (executing r) }
      → Step s t
  see_done :
      s.caller ≡ selecting
      → s.handler.cancelled ≡ true
      → t ≡ record s { caller = interrupting }
      → Step s t
  interrupt :
      (r : Result (Unit {0}))
      → s.caller ≡ interrupting
      → t ≡ record s { caller = returned (killing r) }
      → Step s t

pub data Reach (s : Threads) : Threads → Type 0 where
  here : Reach s s
  next : {t u : Threads} → Reach s t → Step t u → Reach s u

-- What the state of the caller tells of the others.
abbrev pub Explained : Caller → Runner → Bool → Type 0
Explained selecting runner cancelled = runner ≢ sent
Explained interrupting runner cancelled = (cancelled ≡ true) × (runner ≢ sent)
Explained (returned r) runner cancelled =
    ((a : Result (Unit {0})) × (r ≡ executing a) × (runner ≡ sent))
    ⊎ ((a : Result (Unit {0})) × (r ≡ killing a) × (cancelled ≡ true) × (runner ≢ sent))

pub record Inv (s : Threads) : Type 0 where
  pub sound : Signal.IsSound s.handler
  pub explained : Explained s.caller s.runner s.handler.cancelled
