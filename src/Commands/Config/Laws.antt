-- ===== src/Commands/Config/Laws.antt =====
-- How the config stage ends (cmd/fargate/commands/custom/config.go).
use mathlib.Core.Path.{subst}
use gitlab_ci_fargate_arm_dr.Prelude.{sym, ◌≡◌, refl, Bytes, some, ◌∷◌, arith}
use gitlab_ci_fargate_arm_dr.Go.Errors.{Kind}
use gitlab_ci_fargate_arm_dr.Runner.{Adapter}
use gitlab_ci_fargate_arm_dr.Runner.Global.{get_adapter}
use gitlab_ci_fargate_arm_dr.Runner.ExitCode.{Holds, here}
use gitlab_ci_fargate_arm_dr.Platform.{Platform, State, Result, ok, err, panic, Call}
use gitlab_ci_fargate_arm_dr.Platform.Effects.{◌>>=◌, lift, perform}
use gitlab_ci_fargate_arm_dr.Context.{Context}
use gitlab_ci_fargate_arm_dr.Commands.Prepare.Stored.{job_manager}
use gitlab_ci_fargate_arm_dr.Version.{VersionInfo, short_line}
use gitlab_ci_fargate_arm_dr.Commands.Config.{
  typed_result, with_write_config, write_custom_executor_config,
  create_unique_identifier_for_hostname, custom_execute,
}

module _ {P : Platform} where
  -- By the result: the output with `hostname` was written, and nothing else was done; or the error is
  -- the stage's own.
  abbrev pub Reports : VersionInfo → Bytes → Result (Unit {0}) × State P → State P → Type 0
  Reports v hostname (ok _, t) s =
      (content : Bytes) × (P.encode_config v.name (short_line v) hostname ≡ ok content)
      × (t ≡ record s { calls = Call.write_output content ∷ s.calls })
  Reports v hostname (err e, t) s = Holds Kind.write_config e × (t.disk ≡ s.disk)
  Reports v hostname (panic _, t) s = Unit

  typed_result-Reports :
      (v : VersionInfo) (hostname content : Bytes) (s : State P) (r : Result (Unit {0}))
      → P.encode_config v.name (short_line v) hostname ≡ ok content
      → Reports v hostname
          (typed_result r, record s { calls = Call.write_output content ∷ s.calls })
          s
  typed_result-Reports v hostname content s (ok u) e = (content, e, refl)
  typed_result-Reports v hostname content s (err f) e = (here, refl)
  typed_result-Reports v hostname content s (panic t) e = tt

  -- The output is written if it is encoded.
  write-Reports :
      (v : VersionInfo) (hostname : Bytes) (s : State P) (r : Result Bytes)
      → P.encode_config v.name (short_line v) hostname ≡ r
      → Reports v hostname
          (with_write_config
            (lift r >>= λ content.
              perform (λ h. P.write_stdout h content) (λ _. Call.write_output content))
            s)
          s
  write-Reports v hostname s (ok content) e =
      typed_result-Reports v hostname content s (P.write_stdout s.calls content) e
  write-Reports v hostname s (err f) e = (here, refl)
  write-Reports v hostname s (panic t) e = tt

  -- With an initialised runner adapter: if the config stage succeeds, it wrote one output, and
  -- the host name in it is the name of the job's metadata file, the one that the later stages
  -- use, without its extension. If it fails, the error is an `errWriteConfig` and the disk is as
  -- it was. Nothing is said of a panic.
  pub custom_execute-Reports :
      (v : VersionInfo) (ctx : Context) (a : Adapter) (s : State P)
      → ctx.adapter ≡ some a
      → Reports v
          (job_manager P a ctx.config.task_metadata.directory).filename
          (custom_execute v ctx s)
          s
  unfolding custom_execute create_unique_identifier_for_hostname get_adapter
      write_custom_executor_config
  custom_execute-Reports v ctx a s h =
      let hostname = (job_manager P a ctx.config.task_metadata.directory).filename in
      let same : custom_execute v ctx s
          ≡ with_write_config (write_custom_executor_config v hostname) s =
        ground arith in
      subst (λ r. Reports v hostname r s) (sym same)
        (write-Reports v hostname s (P.encode_config v.name (short_line v) hostname) refl)
