-- ===== src/Executor/Session.antt =====
-- A session (executors/ssh/internal/session/session.go). `ExecuteScript` starts the script in a
-- goroutine and waits for the first of two events: the script ends, or the context is cancelled.
-- Which one comes first is the environment's choice, `ssh_run`.
use gitlab_ci_fargate_arm_dr.Prelude.{Bytes, [], ◌∷◌}
use gitlab_ci_fargate_arm_dr.Platform.{Platform, ok, Call, Wait, ended, cancelled}
use gitlab_ci_fargate_arm_dr.Platform.Effects.{M, wrap, lift, perform}

module _ {P : Platform} where
  -- The two cases of the `select`.
  unfoldable pub await : Wait → M P (Unit {0})
  await (ended r) = wrap "executing SSH command: %w" [] (lift r)
  await (cancelled r) =
      wrap "killing SSH command: %w" [] (perform (λ _. r) (λ _. Call.signal_interrupt))

  -- `ExecuteScript`
  unfoldable pub run_script : Bytes → M P (Unit {0})
  unfolding await
  run_script script s =
      await (P.ssh_run s.calls script) (record s { calls = Call.run_script script ∷ s.calls })

  -- `Close`; the caller drops its error.
  unfoldable pub close : M P (Unit {0})
  close s = (ok tt, record s { calls = Call.close_session ∷ s.calls })
