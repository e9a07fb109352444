-- ===== src/Tests/Jobs.antt =====
-- A job on the concrete machine, as steps of the system of many jobs.
use gitlab_ci_fargate_arm_dr.Prelude.{text_eq, ◌≡◌, refl, codes, [], ◌∷◌}
use gitlab_ci_fargate_arm_dr.Platform.{State, ok}
use gitlab_ci_fargate_arm_dr.Aws.{
  new_fargate, init, run_task, wait_until_task_running, get_container_ip, stop_task,
}
use gitlab_ci_fargate_arm_dr.Aws.Details.{extract_private_ip}
use gitlab_ci_fargate_arm_dr.Go.Hex.{hex}
use gitlab_ci_fargate_arm_dr.Executor.{execute, connect, execute_script, disconnect}
use gitlab_ci_fargate_arm_dr.Keys.{create}
use gitlab_ci_fargate_arm_dr.Task.Filename.{generate_filename}
use gitlab_ci_fargate_arm_dr.Task.Metadata.{
  get_full_file_path, get, new_metadata_manager, persist, clear,
}
use gitlab_ci_fargate_arm_dr.Commands.Prepare
use gitlab_ci_fargate_arm_dr.Commands.Run
use gitlab_ci_fargate_arm_dr.Commands.Cleanup
use gitlab_ci_fargate_arm_dr.Commands.Jobs.{
  Job, System, boot, prepares, runs, cleans_up, Reach, here, next,
}
use gitlab_ci_fargate_arm_dr.Commands.Jobs.Accounts.{Inv}
use gitlab_ci_fargate_arm_dr.Commands.Jobs.Invariant.{Reach-Inv}
use gitlab_ci_fargate_arm_dr.Tests.Machine.{
  machine, start, machine-IsFaithful, machine-NamesTasks, machine-RoundTrips,
}
use gitlab_ci_fargate_arm_dr.Tests.Stages.{adapter, stage, run_stage, prepare_succeeds}

abbrev pub job : Job
job = record { adapter = adapter; directory = codes "/m" }

abbrev prepared : State machine
prepared = (Prepare.custom_execute stage start).1

abbrev has_run : State machine
has_run = (Run.custom_execute run_stage prepared).1

abbrev cleaned : State machine
cleaned = (Cleanup.custom_execute stage has_run).1

abbrev with_job : State machine → System machine
with_job s = record { state = s; live = job ∷ [] }

abbrev at_end : System machine
at_end = record { state = cleaned; live = [] }

to_run : Reach (boot machine start.disk) (with_job has_run)
to_run =
    next (next here (prepares stage job (refl, refl) tt prepare_succeeds refl))
      (runs run_stage refl)

cleanup_of_job : (Cleanup.custom_execute stage has_run).0 ≡ ok tt
unfolding Prepare.custom_execute Prepare.init_command Prepare.create_key_and_start
    Prepare.start_and_finish Prepare.start_new_fargate_task Prepare.started_or_stopped
    Prepare.finish_task Prepare.complete_task Prepare.persist_or_stop
    Prepare.persist_data_for_later_stages Prepare.wait_or_stop Prepare.wait_fargate_task_ready
    new_fargate init run_task wait_until_task_running get_container_ip create new_metadata_manager
    persist extract_private_ip text_eq generate_filename hex Cleanup.custom_execute
    Cleanup.init_command Cleanup.stop_and_clear stop_task get clear Run.custom_execute
    Run.execute_script_file Run.init_command Run.read_file_content get_full_file_path
    Run.obtain_task_data Run.execute_script_on_task_container execute connect execute_script
    disconnect
cleanup_of_job = refl

to_end : Reach (boot machine start.disk) at_end
to_end = next to_run (cleans_up stage [] job [] (refl, refl) refl cleanup_of_job refl)

Reach-Inv_example : Inv (with_job has_run)
Reach-Inv_example =
    Reach-Inv machine-IsFaithful machine-NamesTasks machine-RoundTrips start.disk to_run
