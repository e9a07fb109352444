-- ===== src/Commands/Custom.antt =====
-- What every stage does first (`Execute` of cmd/fargate/commands/custom/custom.go), and what the
-- program does with the stage's error (`main` of cmd/fargate/main.go).
use gitlab_ci_fargate_arm_dr.Prelude.{Option, none, some, []}
use gitlab_ci_fargate_arm_dr.Go.Int.{ℤ, pos}
use gitlab_ci_fargate_arm_dr.Go.Errors.{wrapped}
use gitlab_ci_fargate_arm_dr.Runner.{Environment, Adapter, init_adapter, generate_exit_from_error}
use gitlab_ci_fargate_arm_dr.Runner.Global.{get_adapter}
use gitlab_ci_fargate_arm_dr.Platform.{Platform, Result, ok, err, panic}
use gitlab_ci_fargate_arm_dr.Platform.Effects.{M, raise}
use gitlab_ci_fargate_arm_dr.Context.{Context}

module _ {P : Platform} where
  -- `InitAdapter` sets the package variable, whether it fails or not; then the stage runs.
  unfoldable pub execute_stage : Environment → (Context → M P (Unit {0})) → Context → M P (Unit {0})
  execute_stage env custom_execute ctx =
      let (a, failure) = init_adapter env in
      elim failure [
        | some e ↦ raise (wrapped "couldn't initialize GitLab Runner Adapter: %w" [] e)
        | none ↦ custom_execute (record ctx { adapter = some a })
      ]

-- The end of `main`: it returns, or it exits with the code of the error.
unfoldable pub exit_code : Option Adapter → Result (Unit {0}) → Result ℤ
unfolding get_adapter
exit_code adapter (ok _) = ok (pos 0)
exit_code adapter (panic t) = panic t
exit_code adapter (err e) = elim (get_adapter adapter) [
  | ok a ↦ ok (generate_exit_from_error a e)
  | err f ↦ err f
  | panic t ↦ panic t
]
