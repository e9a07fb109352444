-- ===== src/Executor/Laws.antt =====
-- `Execute` of executors/ssh/executor.go: its calls, its disconnection and its error.
use gitlab_ci_fargate_arm_dr.Prelude.{inl, inr, String, ◌⊎◌, ◌≢◌, [], ◌≡◌, Bytes, ◌∷◌, some, arith}
use gitlab_ci_fargate_arm_dr.Go.Errors.{Error, wrapped}
use gitlab_ci_fargate_arm_dr.Platform.{
  Platform, State, ok, err, panic, ConnectionSettings, Call, History, cancelled,
}
use gitlab_ci_fargate_arm_dr.Platform.Effects.{Result-cases}
use gitlab_ci_fargate_arm_dr.Aws.Tasks.{tasks}
use gitlab_ci_fargate_arm_dr.Executor.{
  Executor, connect, disconnect, execute_script, execute, address,
}
use gitlab_ci_fargate_arm_dr.Executor.Session.{run_script, close}

module _ {P : Platform} where
  -- A connection that was made: the client is the address, and the call is recorded.
  abbrev connected : ConnectionSettings → State P → Executor × State P
  connected c s = (
    record { client = some (address c) },
    record s { calls = Call.dial (address c) c.username c.private_key ∷ s.calls },
  )

  connect_lem :
      (c : ConnectionSettings) (x : Executor) (s : State P)
      → (connect c (x, s)).0 ≡ ok tt
      → connect c (x, s) ≡ (ok tt, connected c s)
  unfolding connect
  connect_lem c x s h = ground arith

  execute_script-client :
      (script : Bytes) (x : Executor) (s : State P) → (execute_script script (x, s)).1.0 ≡ x
  unfolding execute_script run_script close
  execute_script-client script x s = ground arith

  disconnect_lem :
      (a : Bytes) (s : State P)
      → (disconnect (record { client = some a }, s)).1.1.calls ≡ Call.disconnect ∷ s.calls
  unfolding disconnect
  disconnect_lem a s = ground arith

  -- If the connection was made, the last call of `execute` is the disconnection.
  pub execute-disconnects :
      (c : ConnectionSettings) (script : Bytes) (x : Executor) (s : State P)
      → (connect c (x, s)).0 ≡ ok tt
      → (h : History) × ((execute c script (x, s)).1.1.calls ≡ Call.disconnect ∷ h)
  unfolding execute
  execute-disconnects c script x s h =
      let (x', t) = (execute_script script (connected c s)).1 in
      (
        t.calls,
        ground (
          arith,
          connect_lem c x s h,
          execute_script-client script (connected c s).0 (connected c s).1,
          disconnect_lem (address c) t,
        ),
      )

  -- The executor never touches the disk.
  pub execute-disk :
      (c : ConnectionSettings) (script : Bytes) (x : Executor) (s : State P)
      → (execute c script (x, s)).1.1.disk ≡ s.disk
  unfolding execute connect disconnect execute_script run_script close
  execute-disk c script x s = ground arith

  -- The executor starts and stops no task.
  pub execute-tasks :
      (c : ConnectionSettings) (script : Bytes) (x : Executor) (s : State P)
      → tasks (execute c script (x, s)).1.1.calls ≡ tasks s.calls
  unfolding execute connect disconnect execute_script run_script close
  execute-tasks c script x s = ground arith

  -- If the executor succeeds, it dialled the address with the user and the key, opened a session,
  -- ran the script once, closed the session and disconnected; where the context was cancelled, it
  -- also sent an interrupt. Nothing else was called.
  pub execute_success_calls :
      (c : ConnectionSettings) (script : Bytes) (x : Executor) (s : State P)
      → (execute c script (x, s)).0 ≡ ok tt
      → let before =
          Call.run_script script
          ∷ Call.open_session
          ∷ Call.dial (address c) c.username c.private_key
          ∷ s.calls in
        let t = (execute c script (x, s)).1.1 in
        (t.calls ≡ Call.disconnect ∷ Call.close_session ∷ before)
        ⊎ (t.calls ≡ Call.disconnect ∷ Call.close_session ∷ Call.signal_interrupt ∷ before)
  unfolding execute connect disconnect execute_script run_script close
  execute_success_calls c script x s h = ground arith

  -- If the connection was made and the script fails, the script's error is the one that is
  -- returned, whatever the disconnection answers, unless that panics.
  pub execute_script_error_wins :
      (c : ConnectionSettings) (script : Bytes) (x : Executor) (e : Error) (s : State P)
      → (connect c (x, s)).0 ≡ ok tt
      → (execute_script script (connect c (x, s)).1).0 ≡ err e
      → ((d : String) → (disconnect (execute_script script (connect c (x, s)).1).1).0 ≢ panic d)
      → (execute c script (x, s)).0 ≡ err (wrapped "executing script: %w" [] e)
  unfolding execute
  execute_script_error_wins c script x e s h g p =
      elim (Result-cases (disconnect (execute_script script (connect c (x, s)).1).1).0) [
        | inl (u, d) ↦ ground arith
        | inr (inl (failure, d)) ↦ ground arith
        | inr (inr (text, d)) ↦ absurd (p text d)
      ]

  -- A script that is cancelled counts as a success: if the connection and the session are made, the
  -- context is cancelled while the script runs, the interrupt is sent and the connection closes,
  -- `execute` returns no error.
  pub execute_cancelled_ok :
      (c : ConnectionSettings) (script : Bytes) (x : Executor) (s : State P)
      → (connect c (x, s)).0 ≡ ok tt
      → P.ssh_new_session (connect c (x, s)).1.1.calls ≡ ok tt
      → P.ssh_run (Call.open_session ∷ (connect c (x, s)).1.1.calls) script ≡ cancelled (ok tt)
      → (disconnect (execute_script script (connect c (x, s)).1).1).0 ≡ ok tt
      → (execute c script (x, s)).0 ≡ ok tt
  unfolding execute execute_script run_script close
  execute_cancelled_ok c script x s h opened stop closed = ground (arith, connect_lem c x s h)
