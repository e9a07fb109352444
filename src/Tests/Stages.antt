-- ===== src/Tests/Stages.antt =====
-- The three stages of one job on the concrete machine.
use gitlab_ci_fargate_arm_dr.Prelude.{text_eq, ◌≡◌, refl, Bytes, codes, false, some, List, [], ◌∷◌}
use gitlab_ci_fargate_arm_dr.Go.Int.{pos}
use gitlab_ci_fargate_arm_dr.Config.{Global}
use gitlab_ci_fargate_arm_dr.Runner.{Adapter}
use gitlab_ci_fargate_arm_dr.Platform.{ok}
use gitlab_ci_fargate_arm_dr.Aws.{
  new_fargate, init, run_task, wait_until_task_running, get_container_ip, stop_task,
}
use gitlab_ci_fargate_arm_dr.Aws.Tasks.{tasks}
use gitlab_ci_fargate_arm_dr.Aws.Details.{extract_private_ip}
use gitlab_ci_fargate_arm_dr.Go.Hex.{hex}
use gitlab_ci_fargate_arm_dr.Executor.{execute, connect, execute_script, disconnect}
use gitlab_ci_fargate_arm_dr.Keys.{create}
use gitlab_ci_fargate_arm_dr.Task.Filename.{generate_filename}
use gitlab_ci_fargate_arm_dr.Task.Metadata.{
  get_full_file_path, get, new_metadata_manager, persist, clear,
}
use gitlab_ci_fargate_arm_dr.Context.{Context}
use gitlab_ci_fargate_arm_dr.Commands.Lifecycle.{after_runs, lifecycle_balanced}
use gitlab_ci_fargate_arm_dr.Commands.Prepare.Stored.{job_manager}
use gitlab_ci_fargate_arm_dr.Commands.Prepare.Traced.{Traced}
use gitlab_ci_fargate_arm_dr.Commands.Prepare.Tasks.{Settles, custom_execute-Settles}
use gitlab_ci_fargate_arm_dr.Commands.Cleanup.Laws.{absent}
use gitlab_ci_fargate_arm_dr.Commands.Prepare
use gitlab_ci_fargate_arm_dr.Commands.Run
use gitlab_ci_fargate_arm_dr.Commands.Cleanup
use gitlab_ci_fargate_arm_dr.Tests.Machine.{
  machine, start, machine-IsFaithful, machine-NamesTasks, machine-RoundTrips,
}

abbrev pub config : Global
config = record {
  log_level = [];
  log_file = [];
  log_format = [];
  fargate = record {
    cluster = codes "c";
    enable_public_ip = false;
    platform_version = [];
    region = codes "r";
    subnet = codes "n";
    security_group = codes "g";
    task_definition = codes "d";
  };
  task_metadata = record { directory = codes "/m" };
  ssh = record { username = codes "u"; port = pos 22 };
}

abbrev pub adapter : Adapter
adapter = record {
  build_failure_exit_code = pos 1;
  system_failure_exit_code = pos 2;
  short_token = codes "t";
  project_url = codes "p";
  pipeline_id = pos 1;
  job_id = pos 2;
}

-- A process of the job with its arguments.
abbrev pub with_args : List Bytes → Context
with_args args = record { config = config; args = args; adapter = some adapter }

abbrev pub stage : Context
stage = with_args []

abbrev pub run_stage : Context
run_stage = with_args (codes "/s" ∷ codes "build_script" ∷ [])

pub prepare_succeeds : (Prepare.custom_execute {P = machine} stage start).0 ≡ ok tt
unfolding Prepare.custom_execute Prepare.init_command Prepare.create_key_and_start
    Prepare.start_and_finish Prepare.start_new_fargate_task Prepare.started_or_stopped
    Prepare.finish_task Prepare.complete_task Prepare.persist_or_stop
    Prepare.persist_data_for_later_stages Prepare.wait_or_stop Prepare.wait_fargate_task_ready
    new_fargate init run_task wait_until_task_running get_container_ip create new_metadata_manager
    persist extract_private_ip
prepare_succeeds = refl

custom_execute-Settles_example : Settles (Prepare.custom_execute {P = machine} stage start) start
custom_execute-Settles_example = custom_execute-Settles machine-NamesTasks stage start

cleanup_succeeds :
    (Cleanup.custom_execute {P = machine} stage
      (after_runs (run_stage ∷ stage ∷ []) (Prepare.custom_execute stage start).1)).0
    ≡ ok tt
unfolding Prepare.custom_execute Prepare.init_command Prepare.create_key_and_start
    Prepare.start_and_finish Prepare.start_new_fargate_task Prepare.started_or_stopped
    Prepare.finish_task Prepare.complete_task Prepare.persist_or_stop
    Prepare.persist_data_for_later_stages Prepare.wait_or_stop Prepare.wait_fargate_task_ready
    new_fargate init run_task wait_until_task_running get_container_ip create new_metadata_manager
    persist extract_private_ip text_eq generate_filename hex Cleanup.custom_execute
    Cleanup.init_command Cleanup.stop_and_clear stop_task get clear Run.custom_execute
    Run.execute_script_file Run.init_command Run.read_file_content get_full_file_path
    Run.obtain_task_data Run.execute_script_on_task_container execute connect execute_script
    disconnect
cleanup_succeeds = refl

lifecycle_balanced_example :
    let t =
      (Cleanup.custom_execute {P = machine} stage
        (after_runs (run_stage ∷ stage ∷ []) (Prepare.custom_execute stage start).1)).1 in
    (arn : Bytes) × (tasks t.calls ≡ (arn ∷ [], arn ∷ []))
    × ((get (job_manager machine adapter (codes "/m")) t).0
        ≡ absent machine (job_manager machine adapter (codes "/m")))
lifecycle_balanced_example =
    lifecycle_balanced machine-IsFaithful machine-NamesTasks adapter (codes "/m") stage stage
      (run_stage ∷ stage ∷ []) start (refl, refl) (refl, refl) (λ x _. machine-RoundTrips x)
      prepare_succeeds cleanup_succeeds
