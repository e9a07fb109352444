-- ===== src/Tests/Stored.antt =====
-- The run and cleanup stages, and the metadata manager, on a disk that holds a task's data.
use gitlab_ci_fargate_arm_dr.Prelude.{text_eq, Bytes, List, ◌≡◌, refl, codes, some, [], ◌∷◌}
use gitlab_ci_fargate_arm_dr.Go.Errors.{wrapped, external}
use gitlab_ci_fargate_arm_dr.Go.Hex.{hex}
use gitlab_ci_fargate_arm_dr.Platform.{Platform, State, ok, err, Data}
use gitlab_ci_fargate_arm_dr.Aws.{new_fargate, init, stop_task}
use gitlab_ci_fargate_arm_dr.Aws.Tasks.{tasks}
use gitlab_ci_fargate_arm_dr.Executor.{execute, connect, execute_script, disconnect}
use gitlab_ci_fargate_arm_dr.Task.Filename.{generate_filename}
use gitlab_ci_fargate_arm_dr.Task.Metadata.{
  MetadataManager, get_full_file_path, get, new_metadata_manager, persist, clear,
}
use gitlab_ci_fargate_arm_dr.Task.Metadata.Laws.{Stores, persist-get}
use gitlab_ci_fargate_arm_dr.Task.Metadata.Store.{
  Operation, persists, gets, clears, unknown, answers, Conforms,
}
use gitlab_ci_fargate_arm_dr.Task.Metadata.Store.Refines.{answers-Conforms}
use gitlab_ci_fargate_arm_dr.Commands.Prepare.Stored.{job_manager, task_data}
use gitlab_ci_fargate_arm_dr.Commands.Run.Calls.{UsesPort, Session, custom_execute-Runs}
use gitlab_ci_fargate_arm_dr.Go.Int.{ℤ}
use gitlab_ci_fargate_arm_dr.Commands.Cleanup.{CleanupCommand}
use gitlab_ci_fargate_arm_dr.Commands.Cleanup.Laws.{
  absent, custom_execute-stops, custom_execute-keeps,
}
use gitlab_ci_fargate_arm_dr.Commands.Run
use gitlab_ci_fargate_arm_dr.Commands.Cleanup
use gitlab_ci_fargate_arm_dr.Tests.Machine.{
  machine, start, encode, machine-IsFaithful, machine-RoundTrips,
}
use gitlab_ci_fargate_arm_dr.Tests.Stages.{config, adapter, stage, run_stage}

abbrev pub task : Data
task = task_data (codes "arn:1") (codes "10.0.0.7") (codes "secret")

abbrev manager : MetadataManager
manager = job_manager machine adapter (codes "/m")

-- The state in which the metadata file of the job holds the task's data.
abbrev pub stored : State machine
stored = record {
  calls = [];
  disk = (get_full_file_path machine.join manager, encode task) ∷ start.disk;
}

task-Stores : Stores manager task stored
unfolding text_eq generate_filename hex get_full_file_path
task-Stores = record { content = encode task; encodes = refl; found = refl; holds = refl }

cleanup_of_stored : (Cleanup.custom_execute stage stored).0 ≡ ok tt
unfolding Cleanup.custom_execute Cleanup.init_command Cleanup.stop_and_clear stop_task get clear
    new_fargate init new_metadata_manager text_eq generate_filename hex get_full_file_path
cleanup_of_stored = refl

custom_execute-stops_example :
    let t = (Cleanup.custom_execute stage stored).1 in
    (tasks t.calls ≡ ([], codes "arn:1" ∷ [])) × ((get manager t).0 ≡ absent machine manager)
custom_execute-stops_example =
    custom_execute-stops machine-IsFaithful stage adapter task stored refl (machine-RoundTrips task)
      task-Stores cleanup_of_stored

-- AWS refuses to stop a task.
abbrev refusing : Platform
refusing = record machine { ecs_stop_task = λ h cluster arn. err (external 5) }

abbrev stored_there : State refusing
stored_there = record { calls = []; disk = stored.disk }

abbrev command : CleanupCommand
command = record {
  cfg = config;
  aws_fargate = record {
    aws_region = codes "r";
    ecs_svc = some (codes "r");
    ec2_svc = some (codes "r");
  };
  metadata_manager = manager;
}

task-Stores_there : Stores {P = refusing} manager task stored_there
unfolding text_eq generate_filename hex get_full_file_path
task-Stores_there = record { content = encode task; encodes = refl; found = refl; holds = refl }

command_made : (Cleanup.init_command {P = refusing} stage stored_there).0 ≡ ok command
unfolding Cleanup.init_command new_fargate init new_metadata_manager generate_filename
command_made = refl

stop_refused :
    (stop_task command.aws_fargate task.task_arn
      (codes "c")
      (Cleanup.init_command {P = refusing} stage stored_there).1).0
    ≡ err (wrapped "error stopping AWS Fargate Task %q: %w" (codes "arn:1" ∷ []) (external 5))
unfolding stop_task Cleanup.init_command new_fargate init new_metadata_manager
stop_refused = refl

custom_execute-keeps_example :
    ((Cleanup.custom_execute {P = refusing} stage stored_there).0
      ≡ err (
          wrapped "stopping Fargate Task %q: %w"
            (codes "arn:1" ∷ [])
            (wrapped "error stopping AWS Fargate Task %q: %w" (codes "arn:1" ∷ []) (external 5))))
    × ((Cleanup.custom_execute {P = refusing} stage stored_there).1.disk ≡ stored.disk)
custom_execute-keeps_example =
    custom_execute-keeps stage adapter command task _ stored_there refl (machine-RoundTrips task)
      task-Stores_there command_made stop_refused

run_of_stored : (Run.custom_execute run_stage stored).0 ≡ ok tt
unfolding Run.custom_execute Run.execute_script_file Run.init_command Run.read_file_content
    Run.obtain_task_data Run.execute_script_on_task_container get new_metadata_manager text_eq
    generate_filename hex get_full_file_path execute connect execute_script disconnect
run_of_stored = refl

custom_execute-Runs_example :
    (path stage : Bytes) × (more : List Bytes) × (script : Bytes) × (port : ℤ) × (codes "/s"
        ∷ codes "build_script"
        ∷ []
      ≡ path ∷ stage ∷ more)
    × (machine.read_file stored.disk path ≡ ok script)
    × UsesPort config.ssh.port port
    × Session task config.ssh.username port script [] (Run.custom_execute run_stage stored).1.calls
custom_execute-Runs_example =
    custom_execute-Runs run_stage adapter task stored refl task-Stores (machine-RoundTrips task)
      run_of_stored

persisted : (persist manager task start).0 ≡ ok tt
unfolding persist
persisted = refl

persist-get_example :
    get manager (persist manager task start).1 ≡ (ok task, (persist manager task start).1)
persist-get_example =
    persist-get machine-IsFaithful manager task start (machine-RoundTrips task) persisted

cleared : (clear manager stored).0 ≡ ok tt
unfolding clear text_eq generate_filename hex get_full_file_path
cleared = refl

abbrev other : MetadataManager
other = record { directory = codes "/m"; filename = codes "x" }

-- Two managers in sequence: what one persists and clears, and what the other finds.
abbrev operations : List Operation
operations = persists manager task ∷ gets manager ∷ gets other ∷ clears manager ∷ gets manager ∷ []

answers-Conforms_example :
    Conforms machine.join (λ _. unknown) operations (answers operations start)
answers-Conforms_example = answers-Conforms machine-IsFaithful machine-RoundTrips operations start
