-- ===== src/Commands/Run/Laws.antt =====
-- What the run stage does with the stored task, and what it leaves alone.
use gitlab_ci_fargate_arm_dr.Prelude.{◌≡◌, refl, Bytes, some, List, [], ◌∷◌, arith}
use gitlab_ci_fargate_arm_dr.Config.{Ssh}
use gitlab_ci_fargate_arm_dr.Runner.{Adapter}
use gitlab_ci_fargate_arm_dr.Platform.{Platform, State, ok, Data, RoundTrips}
use gitlab_ci_fargate_arm_dr.Platform.Effects.{wrap}
use gitlab_ci_fargate_arm_dr.Task.Metadata.{new_metadata_manager}
use gitlab_ci_fargate_arm_dr.Task.Metadata.Laws.{Stores, get-of_Stores, get-state}
use gitlab_ci_fargate_arm_dr.Aws.Tasks.{tasks}
use gitlab_ci_fargate_arm_dr.Executor.{new_executor, execute}
use gitlab_ci_fargate_arm_dr.Executor.Laws.{execute-disk, execute-tasks}
use gitlab_ci_fargate_arm_dr.Context.{Context}
use gitlab_ci_fargate_arm_dr.Commands.Prepare.Stored.{job_manager}
use gitlab_ci_fargate_arm_dr.Commands.Run.{
  RunCommand, settings, init_command, read_file_content, obtain_task_data,
  execute_script_on_task_container, execute_script_file, run_args, custom_execute,
}

module _ {P : Platform} where
  -- If the metadata file of the job holds a task's data, which survives JSON, there are at least
  -- two arguments and the script, the first of them, is readable, the run stage is the
  -- executor's run of the script with the stored address and key; only the error gets two more
  -- wrappings.
  pub custom_execute-execute :
      (ctx : Context) (a : Adapter) (x : Data) (script_path stage script : Bytes)
      (more : List Bytes) (s : State P)
      → ctx.adapter ≡ some a
      → ctx.args ≡ script_path ∷ stage ∷ more
      → P.read_file s.disk script_path ≡ ok script
      → Stores (job_manager P a ctx.config.task_metadata.directory) x s
      → RoundTrips P x
      → let (r, (_, t)) = execute (settings x ctx.config.ssh) script (new_executor, s) in
        custom_execute ctx s
        ≡ wrap "executing the script on the remote host: %w" []
            (wrap "executing script on container with IP %q: %w"
              (x.container_ip ∷ [])
              (λ _. (r, t)))
            s
  unfolding custom_execute execute_script_file init_command read_file_content obtain_task_data
      execute_script_on_task_container new_metadata_manager
  custom_execute-execute ctx a x script_path stage script more s adapter args readable stored json =
      ground
        (arith, get-of_Stores (job_manager P a ctx.config.task_metadata.directory) x s json stored)

  pub execute_script_on_task_container-disk :
      (x : Data) (ssh : Ssh) (script : Bytes) (s : State P)
      → (execute_script_on_task_container x ssh script s).1.disk ≡ s.disk
  unfolding execute_script_on_task_container
  execute_script_on_task_container-disk x ssh script s =
      ground (arith, execute-disk (settings x ssh) script new_executor s)

  pub obtain_task_data-state : (c : RunCommand) (s : State P) → (obtain_task_data c s).1 ≡ s
  unfolding obtain_task_data
  obtain_task_data-state c s = ground (arith, get-state c.metadata_manager s)

  execute_script_file-disk :
      (ctx : Context) (path : Bytes) (s : State P)
      → (execute_script_file ctx path s).1.disk ≡ s.disk
  unfolding execute_script_file init_command read_file_content new_metadata_manager
  execute_script_file-disk ctx path s =
      grind (arith, execute_script_on_task_container-disk, obtain_task_data-state)

  run_args-disk :
      (ctx : Context) (args : List Bytes) (s : State P) → (run_args ctx args s).1.disk ≡ s.disk
  unfolding run_args
  run_args-disk ctx [] s = refl
  run_args-disk ctx (path ∷ []) s = refl
  run_args-disk ctx (path ∷ stage ∷ more) s = execute_script_file-disk ctx path s

  -- The run stage never changes the disk, however it ends.
  pub custom_execute-disk : (ctx : Context) (s : State P) → (custom_execute ctx s).1.disk ≡ s.disk
  unfolding custom_execute
  custom_execute-disk ctx s = run_args-disk ctx ctx.args s

  pub execute_script_on_task_container-tasks :
      (x : Data) (ssh : Ssh) (script : Bytes) (s : State P)
      → tasks (execute_script_on_task_container x ssh script s).1.calls ≡ tasks s.calls
  unfolding execute_script_on_task_container
  execute_script_on_task_container-tasks x ssh script s =
      ground (arith, execute-tasks (settings x ssh) script new_executor s)

  execute_script_file-tasks :
      (ctx : Context) (path : Bytes) (s : State P)
      → tasks (execute_script_file ctx path s).1.calls ≡ tasks s.calls
  unfolding execute_script_file init_command read_file_content new_metadata_manager
  execute_script_file-tasks ctx path s =
      grind (arith, execute_script_on_task_container-tasks, obtain_task_data-state)

  run_args-tasks :
      (ctx : Context) (args : List Bytes) (s : State P)
      → tasks (run_args ctx args s).1.calls ≡ tasks s.calls
  unfolding run_args
  run_args-tasks ctx [] s = refl
  run_args-tasks ctx (path ∷ []) s = refl
  run_args-tasks ctx (path ∷ stage ∷ more) s = execute_script_file-tasks ctx path s

  -- The run stage starts and stops no task, however it ends.
  pub custom_execute-tasks :
      (ctx : Context) (s : State P) → tasks (custom_execute ctx s).1.calls ≡ tasks s.calls
  unfolding custom_execute
  custom_execute-tasks ctx s = run_args-tasks ctx ctx.args s
