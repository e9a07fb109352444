-- ===== src/Commands/Overlap/Duty/Run.antt =====
-- What the run and config stages owe (cmd/fargate/commands/custom/run.go and config.go), step by step.
use gitlab_ci_fargate_arm_dr.Prelude.{ap, Bytes, List, [], ◌∷◌, arith}
use gitlab_ci_fargate_arm_dr.Config.{Ssh}
use gitlab_ci_fargate_arm_dr.Platform.{Platform, Data}
use gitlab_ci_fargate_arm_dr.Platform.Program.{
  Program, ret, act, on_ok, wrapped_result, wrap, ◌>>=◌,
}
use gitlab_ci_fargate_arm_dr.Aws.Tasks.{tasks}
use gitlab_ci_fargate_arm_dr.Context.{Context}
use gitlab_ci_fargate_arm_dr.Task.Metadata.{new_metadata_manager}
use gitlab_ci_fargate_arm_dr.Task.Metadata.Store.{Known}
use gitlab_ci_fargate_arm_dr.Version.{VersionInfo}
use gitlab_ci_fargate_arm_dr.Commands.Jobs.Effects.{config-quiet}
use gitlab_ci_fargate_arm_dr.Commands.Config
use gitlab_ci_fargate_arm_dr.Commands.Run.{
  RunCommand, init_command, read_file_content, obtain_task_data, execute_script_on_task_container,
}
use gitlab_ci_fargate_arm_dr.Commands.Run.Laws.{
  execute_script_on_task_container-disk, execute_script_on_task_container-tasks,
  obtain_task_data-state,
}
use gitlab_ci_fargate_arm_dr.Commands.Overlap.Programs.{
  runs, configures, execute_script_file, run_args,
}
use gitlab_ci_fargate_arm_dr.Commands.Overlap.Duty.{
  Ends, Settled, Duty, IsIdle, IsIdle-of_disk, idle-Duty,
}

module _ {P : Platform} where
  init_command-IsIdle : (ctx : Context) → IsIdle {P = P} (init_command ctx)
  unfolding init_command new_metadata_manager
  init_command-IsIdle ctx = IsIdle-of_disk (init_command ctx) (λ s. ground arith) λ s. ground arith

  read_file_content-IsIdle : (path : Bytes) → IsIdle {P = P} (read_file_content path)
  unfolding read_file_content
  read_file_content-IsIdle path =
      IsIdle-of_disk (read_file_content path) (λ s. ground arith) λ s. ground arith

  obtain_task_data-IsIdle : (c : RunCommand) → IsIdle {P = P} (obtain_task_data c)
  obtain_task_data-IsIdle c =
      IsIdle-of_disk (obtain_task_data c) (λ s. ap (λ v. v.disk) (obtain_task_data-state c s))
        λ s. ap (λ v. tasks v.calls) (obtain_task_data-state c s)

  execute_script-IsIdle :
      (x : Data) (ssh : Ssh) (script : Bytes)
      → IsIdle {P = P} (execute_script_on_task_container x ssh script)
  execute_script-IsIdle x ssh script =
      IsIdle-of_disk (execute_script_on_task_container x ssh script)
        (execute_script_on_task_container-disk x ssh script)
        (execute_script_on_task_container-tasks x ssh script)

module _ (P : Platform) (path : Bytes) (ctx : Context) (o : List Bytes) (k : Known)
    (settled : Settled o k) where
  -- The steps of the run stage from the last to the first.
  execute-Duty :
      (c : RunCommand) (x : Data) (script : Bytes)
      → Duty {P = P} path
          (Ends (runs ctx))
          (wrap "executing the script on the remote host: %w" []
            (act (execute_script_on_task_container x c.cfg.ssh script)))
          o
          k
  execute-Duty c x script =
      idle-Duty path {A = Unit {0}} {B = Unit {0}} (Ends (runs ctx))
        (execute_script_on_task_container x c.cfg.ssh script)
        (λ r. ret (wrapped_result "executing the script on the remote host: %w" [] r)) o k
        (execute_script-IsIdle x c.cfg.ssh script) (λ _ _ _. settled) (λ _. settled) λ _. settled

  obtain-Duty :
      (c : RunCommand) (script : Bytes)
      → Duty {P = P} path
          (Ends (runs ctx))
          (wrap "obtaining information about the running task: %w" [] (act (obtain_task_data c))
            >>= λ x.
                wrap "executing the script on the remote host: %w" []
                  (act (execute_script_on_task_container x c.cfg.ssh script)))
          o
          k
  obtain-Duty c script =
      let further : Data → Program P (Unit {0}) = λ x.
        wrap "executing the script on the remote host: %w" []
          (act (execute_script_on_task_container x c.cfg.ssh script)) in
      idle-Duty path {A = Data} {B = Unit {0}} (Ends (runs ctx)) (obtain_task_data c)
        (λ r.
          on_ok further (wrapped_result "obtaining information about the running task: %w" [] r))
        o k (obtain_task_data-IsIdle c) (λ x _ _. execute-Duty c x script) (λ _. settled)
        λ _. settled

  execute_script_file-Duty :
      (script_path : Bytes)
      → Duty {P = P} path (Ends (runs ctx)) (execute_script_file ctx script_path) o k
  unfolding execute_script_file
  execute_script_file-Duty script_path =
      let obtained : RunCommand → Bytes → Program P (Unit {0}) = λ c script.
        wrap "obtaining information about the running task: %w" [] (act (obtain_task_data c))
        >>= λ x.
            wrap "executing the script on the remote host: %w" []
              (act (execute_script_on_task_container x c.cfg.ssh script)) in
      let script_of : RunCommand → Program P (Unit {0}) = λ c.
        wrap "reading the script content: %w" [] (act (read_file_content script_path))
        >>= obtained c in
      idle-Duty path {A = RunCommand} {B = Unit {0}} (Ends (runs ctx)) (init_command ctx)
        (on_ok script_of) o k (init_command-IsIdle ctx)
        (λ c _ _.
          idle-Duty path {A = Bytes} {B = Unit {0}} (Ends (runs ctx))
            (read_file_content script_path)
            (λ r. on_ok (obtained c) (wrapped_result "reading the script content: %w" [] r)) o k
            (read_file_content-IsIdle script_path) (λ script _ _. obtain-Duty c script)
            (λ _. settled) λ _. settled)
        (λ _. settled) λ _. settled

  pub run_args-Duty :
      (args : List Bytes) → Duty {P = P} path (Ends (runs ctx)) (run_args ctx args) o k
  unfolding run_args
  run_args-Duty [] = settled
  run_args-Duty (script_path ∷ []) = settled
  run_args-Duty (script_path ∷ stage ∷ more) = execute_script_file-Duty script_path

  pub config-Duty :
      (v : VersionInfo)
      → Duty {P = P} path (Ends (configures v ctx)) (act (Config.custom_execute v ctx)) o k
  config-Duty v =
      let idle =
        IsIdle-of_disk {P = P} (Config.custom_execute v ctx) (λ s. (config-quiet v ctx s).0)
          λ s. (config-quiet v ctx s).1 in
      idle-Duty path {A = Unit {0}} {B = Unit {0}} (Ends (configures v ctx))
        (Config.custom_execute v ctx) ret o k idle (λ _ _ _. settled) (λ _. settled) λ _. settled
