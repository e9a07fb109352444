-- ===== src/Commands/Config.antt =====
-- The config stage (cmd/fargate/commands/custom/config.go) and the output that it writes
-- (`WriteCustomExecutorConfig` of internal/runner/adapter.go).
pub mod Laws
use gitlab_ci_fargate_arm_dr.Prelude.{Bytes, codes, ◌++◌}
use gitlab_ci_fargate_arm_dr.Go.Errors.{typed, Kind}
use gitlab_ci_fargate_arm_dr.Platform.{Platform, Result, ok, err, panic, Call}
use gitlab_ci_fargate_arm_dr.Platform.Effects.{M, ◌>>=◌, pure, lift, perform}
use gitlab_ci_fargate_arm_dr.Runner.Global.{get_adapter}
use gitlab_ci_fargate_arm_dr.Task.Filename.{generate_filename}
use gitlab_ci_fargate_arm_dr.Task.Metadata.{runner_data}
use gitlab_ci_fargate_arm_dr.Version.{VersionInfo, short_line}
use gitlab_ci_fargate_arm_dr.Context.{Context}

abbrev pub typed_result : Result (Unit {0}) → Result (Unit {0})
typed_result (ok _) = ok tt
typed_result (err e) = err (typed Kind.write_config e)
typed_result (panic t) = panic t

module _ {P : Platform} where
  -- The output is encoded, then written to the standard output in one call.
  unfoldable pub write_custom_executor_config : VersionInfo → Bytes → M P (Unit {0})
  write_custom_executor_config v hostname = do
    content ← lift (P.encode_config v.name (short_line v) hostname)
    perform (λ h. P.write_stdout h content) (λ _. Call.write_output content)

  unfoldable pub create_unique_identifier_for_hostname : Context → M P Bytes
  create_unique_identifier_for_hostname ctx = do
    a ← lift (get_adapter ctx.adapter)
    pure (generate_filename P.sha256 (runner_data a))

  -- `return &errWriteConfig{inner: err}`
  abbrev pub with_write_config : M P (Unit {0}) → M P (Unit {0})
  with_write_config m s = let (r, t) = m s in (typed_result r, t)

  unfoldable pub custom_execute : VersionInfo → Context → M P (Unit {0})
  custom_execute v ctx = do
    hostname ← create_unique_identifier_for_hostname ctx
    with_write_config (write_custom_executor_config v hostname)
