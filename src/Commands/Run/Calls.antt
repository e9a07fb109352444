-- ===== src/Commands/Run/Calls.antt =====
-- What the run stage asks of the SSH server (cmd/fargate/commands/custom/run.go).
use gitlab_ci_fargate_arm_dr.Prelude.{
  ◌≡◌, ◌⊎◌, inl, inr, ◌≤◌, ◌++◌, Bytes, some, List, [], ◌∷◌, arith, refl, if◌then◌else◌,
}
use gitlab_ci_fargate_arm_dr.Go.Int.{ℤ, pos, negsuc, below_one}
use gitlab_ci_fargate_arm_dr.Go.Decimal.{fmt_int}
use gitlab_ci_fargate_arm_dr.Config.{Ssh}
use gitlab_ci_fargate_arm_dr.Runner.{Adapter}
use gitlab_ci_fargate_arm_dr.Platform.{Platform, State, ok, Data, RoundTrips, Call, History}
use gitlab_ci_fargate_arm_dr.Platform.Effects.{Result-cases}
use gitlab_ci_fargate_arm_dr.Task.Metadata.{new_metadata_manager}
use gitlab_ci_fargate_arm_dr.Task.Metadata.Laws.{Stores, get-of_Stores}
use gitlab_ci_fargate_arm_dr.Executor.{new_executor, address}
use gitlab_ci_fargate_arm_dr.Executor.Laws.{execute_success_calls}
use gitlab_ci_fargate_arm_dr.Context.{Context}
use gitlab_ci_fargate_arm_dr.Commands.Prepare.Stored.{job_manager}
use gitlab_ci_fargate_arm_dr.Commands.Run.{
  default_port, settings, init_command, read_file_content, obtain_task_data,
  execute_script_on_task_container, execute_script_file, run_args, custom_execute,
}

-- The port that a configured one stands for: 22 where it is below 1.
abbrev pub UsesPort : ℤ → ℤ → Type 0
UsesPort (pos n) port = ((n ≡ 0) × (port ≡ pos 22)) ⊎ ((1 ≤ n) × (port ≡ pos n))
UsesPort (negsuc n) port = port ≡ pos 22

-- The calls of a session that runs `script` with the key of `x`, on top of the calls before it; the
-- session may have been interrupted.
abbrev pub Session : Data → Bytes → ℤ → Bytes → History → History → Type 0
Session x username port script before after =
    let ran =
      Call.run_script script
      ∷ Call.open_session
      ∷ Call.dial (x.container_ip ++ (b':' ∷ fmt_int port)) username x.private_key
      ∷ before in
    (after ≡ Call.disconnect ∷ Call.close_session ∷ ran)
    ⊎ (after ≡ Call.disconnect ∷ Call.close_session ∷ Call.signal_interrupt ∷ ran)

UsesPort-below_one : (port : ℤ) → UsesPort port (if below_one port then default_port else port)
UsesPort-below_one (pos n) = ground arith
UsesPort-below_one (negsuc n) = refl

settings-UsesPort : (x : Data) (ssh : Ssh) → UsesPort ssh.port (settings x ssh).port
unfolding settings
settings-UsesPort x ssh = UsesPort-below_one ssh.port

module _ {P : Platform} where
  execute_script_on_task_container-Session :
      (x : Data) (ssh : Ssh) (script : Bytes) (s : State P)
      → (execute_script_on_task_container x ssh script s).0 ≡ ok tt
      → Session x ssh.username
          (settings x ssh).port
          script
          s.calls
          (execute_script_on_task_container x ssh script s).1.calls
  unfolding execute_script_on_task_container settings address
  execute_script_on_task_container-Session x ssh script s h =
      ground (arith, execute_success_calls (settings x ssh) script new_executor s)

  -- A success of the stage, from the stored data on: which script was read and run.
  abbrev Runs : Context → Bytes → Data → State P → State P → Type 0
  Runs ctx path x s t =
      (script : Bytes) × (port : ℤ) × (P.read_file s.disk path ≡ ok script)
      × UsesPort ctx.config.ssh.port port
      × Session x ctx.config.ssh.username port script s.calls t.calls

  execute_script_file-Runs :
      (ctx : Context) (a : Adapter) (x : Data) (path : Bytes) (s : State P)
      → ctx.adapter ≡ some a
      → Stores (job_manager P a ctx.config.task_metadata.directory) x s
      → RoundTrips P x
      → (execute_script_file ctx path s).0 ≡ ok tt
      → Runs ctx path x s (execute_script_file ctx path s).1
  unfolding execute_script_file init_command read_file_content obtain_task_data new_metadata_manager
  execute_script_file-Runs ctx a x path s adapter stored json h =
      let got =
        get-of_Stores (job_manager P a ctx.config.task_metadata.directory) x s json stored in
      elim (Result-cases (P.read_file s.disk path)) [
        | inl (script, read) ↦ (
          script,
          (settings x ctx.config.ssh).port,
          read,
          settings-UsesPort x ctx.config.ssh,
          ground (arith, got, execute_script_on_task_container-Session x ctx.config.ssh script s),
        )
        | inr (inl (failure, e)) ↦ absurd (ground arith)
        | inr (inr (text, e)) ↦ absurd (ground arith)
      ]

  run_args-Runs :
      (ctx : Context) (a : Adapter) (x : Data) (args : List Bytes) (s : State P)
      → ctx.adapter ≡ some a
      → Stores (job_manager P a ctx.config.task_metadata.directory) x s
      → RoundTrips P x
      → (run_args ctx args s).0 ≡ ok tt
      → (path stage : Bytes) × (more : List Bytes) × (args ≡ path ∷ stage ∷ more)
        × Runs ctx path x s (run_args ctx args s).1
  unfolding run_args
  run_args-Runs ctx a x [] s adapter stored json h = absurd (ground arith)
  run_args-Runs ctx a x (path ∷ []) s adapter stored json h = absurd (ground arith)
  run_args-Runs ctx a x (path ∷ stage ∷ more) s adapter stored json h =
      (path, stage, more, refl, execute_script_file-Runs ctx a x path s adapter stored json h)

  -- If the metadata file of the job holds a task's data, which survives JSON, and the run stage
  -- succeeds, there were at least two arguments, the first the path of a script that was read, and
  -- the stage made these calls and no other: it dialled the stored address at the configured port, 22
  -- where that is below 1, as the configured user with the stored key, opened a session, ran the
  -- script once, possibly interrupted it, closed the session and disconnected.
  pub custom_execute-Runs :
      (ctx : Context) (a : Adapter) (x : Data) (s : State P)
      → ctx.adapter ≡ some a
      → Stores (job_manager P a ctx.config.task_metadata.directory) x s
      → RoundTrips P x
      → (custom_execute ctx s).0 ≡ ok tt
      → (path stage : Bytes) × (more : List Bytes) × (script : Bytes) × (port : ℤ) × (ctx.args
          ≡ path ∷ stage ∷ more)
        × (P.read_file s.disk path ≡ ok script)
        × UsesPort ctx.config.ssh.port port
        × Session x ctx.config.ssh.username port script s.calls (custom_execute ctx s).1.calls
  unfolding custom_execute
  custom_execute-Runs ctx a x s adapter stored json h =
      let (path, stage, more, args, ran) = run_args-Runs ctx a x ctx.args s adapter stored json h in
      let (script, port, readable, uses, session) = ran in
      (path, stage, more, script, port, args, readable, uses, session)
