-- ===== src/Tests/Overlap.antt =====
-- Two jobs on the concrete machine whose processes take turns.
use gitlab_ci_fargate_arm_dr.Prelude.{
  arith, text_eq, ◌≡◌, ◌≢◌, refl, ℕ, ◌≤◌, ◌+◌, Option, codes, Bytes, List, [], ◌∷◌,
}
use gitlab_ci_fargate_arm_dr.Platform.{ok, Data}
use gitlab_ci_fargate_arm_dr.Platform.Program.{ret}
use gitlab_ci_fargate_arm_dr.Context.{Context}
use gitlab_ci_fargate_arm_dr.Aws.{
  new_fargate, init, run_task, wait_until_task_running, get_container_ip, stop_task,
}
use gitlab_ci_fargate_arm_dr.Aws.Tasks.{started, stopped}
use gitlab_ci_fargate_arm_dr.Aws.Details.{extract_private_ip}
use gitlab_ci_fargate_arm_dr.Go.Hex.{hex}
use gitlab_ci_fargate_arm_dr.Keys.{create}
use gitlab_ci_fargate_arm_dr.Task.Filename.{generate_filename}
use gitlab_ci_fargate_arm_dr.Task.Metadata.{
  get_full_file_path, get, new_metadata_manager, persist, clear,
}
use gitlab_ci_fargate_arm_dr.Commands.Prepare
use gitlab_ci_fargate_arm_dr.Commands.Cleanup
use gitlab_ci_fargate_arm_dr.Commands.Jobs.{Job, file, count}
use gitlab_ci_fargate_arm_dr.Commands.Jobs.Accounts.{Distinct}
use gitlab_ci_fargate_arm_dr.Commands.Overlap.Programs.{Stage, prepares, cleans_up, program}
use gitlab_ci_fargate_arm_dr.Commands.Overlap.Programs
use gitlab_ci_fargate_arm_dr.Commands.Overlap.System.{
  System, Process, boot, begin, jobs, arrives, goes_on, departs, Reach, here, next,
}
use gitlab_ci_fargate_arm_dr.Commands.Overlap.Rest.{
  AllRest, AllHave, stored, AllRest-stored, departed-stopped,
}
use gitlab_ci_fargate_arm_dr.Commands.Overlap.Schedule.{schedule, schedule-Reach}
use gitlab_ci_fargate_arm_dr.Tests.Machine.{
  machine, start, machine-IsFaithful, machine-WritesReturn, machine-NamesTasks, machine-RoundTrips,
}
use gitlab_ci_fargate_arm_dr.Tests.Stages.{adapter, stage}
use gitlab_ci_fargate_arm_dr.Tests.Jobs.{job}

-- The second job keeps its metadata elsewhere.
abbrev other_stage : Context
other_stage = record stage {
  config = record stage.config { task_metadata = record { directory = codes "/n" } };
}

abbrev other_job : Job
other_job = record { adapter = adapter; directory = codes "/n" }

abbrev both_begin : System machine
both_begin = record {
  state = start;
  processes = begin other_job (prepares other_stage) ∷ begin job (prepares stage) ∷ [];
}

other_file : file machine job ≢ file machine other_job
unfolding get_full_file_path generate_filename hex
other_file e = ground arith

to_both : Reach (boot machine start.disk) both_begin
to_both =
    next (next here (arrives stage job (refl, refl) tt refl))
      (arrives other_stage other_job (refl, refl) (other_file, tt) refl)

-- They take turns until both are prepared.
abbrev turns : List ℕ
turns = 0 ∷ 1 ∷ 0 ∷ 1 ∷ 1 ∷ 0 ∷ 0 ∷ 1 ∷ 1 ∷ 0 ∷ 0 ∷ 1 ∷ 0 ∷ 1 ∷ []

abbrev prepared : System machine
prepared = schedule turns both_begin

prepared_rest : AllRest prepared.processes
unfolding program Programs.prepare Programs.create_key_and_start Programs.start_and_finish
    Programs.started_or_stopped Programs.finish_task Programs.complete_task Programs.persist_or_stop
    Programs.wait_or_stop Programs.wait_fargate_task_ready Prepare.init_command
    Prepare.start_new_fargate_task Prepare.persist_data_for_later_stages new_fargate init run_task
    wait_until_task_running get_container_ip create new_metadata_manager persist extract_private_ip
    text_eq generate_filename hex get_full_file_path
prepared_rest = (tt, (tt, tt))

AllRest-stored_example :
    (xs : List (Option Data)) × AllHave prepared.processes xs prepared.state
    × Distinct machine (jobs prepared.processes)
    × ((a : Bytes)
        → count a (started prepared.state.calls)
          ≤ count a (stopped prepared.state.calls) + stored a xs)
AllRest-stored_example =
    AllRest-stored machine-IsFaithful machine-WritesReturn machine-NamesTasks machine-RoundTrips
      start.disk (schedule-Reach turns both_begin to_both) prepared_rest

-- Then both are cleaned up in turns.
abbrev finished : Job → Stage → Process machine
finished j stage = record { job = j; stage = stage; rest = ret (ok tt) }

abbrev cleaning : Process machine
cleaning = begin other_job (cleans_up other_stage)

abbrev both_clean : System machine
both_clean = record {
  state = prepared.state;
  processes = cleaning ∷ begin job (cleans_up stage) ∷ [];
}

prepared_processes :
    prepared.processes
    ≡ finished other_job (prepares other_stage) ∷ finished job (prepares stage) ∷ []
unfolding program Programs.prepare Programs.create_key_and_start Programs.start_and_finish
    Programs.started_or_stopped Programs.finish_task Programs.complete_task Programs.persist_or_stop
    Programs.wait_or_stop Programs.wait_fargate_task_ready Prepare.init_command
    Prepare.start_new_fargate_task Prepare.persist_data_for_later_stages new_fargate init run_task
    wait_until_task_running get_container_ip create new_metadata_manager persist extract_private_ip
    text_eq generate_filename hex get_full_file_path
prepared_processes = refl

to_clean : Reach (boot machine start.disk) both_clean
to_clean =
    next
      (next (schedule-Reach turns both_begin to_both) (
        goes_on [] (finished other_job (prepares other_stage)) (finished job (prepares stage) ∷ [])
          (ok tt) (cleans_up other_stage) prepared_processes refl (refl, refl) tt refl))
      (goes_on (cleaning ∷ []) (finished job (prepares stage)) [] (ok tt) (cleans_up stage) refl
        refl (refl, refl) tt refl)

abbrev cleaned : System machine
cleaned = schedule (0 ∷ 1 ∷ 1 ∷ 0 ∷ 0 ∷ 1 ∷ 1 ∷ 0 ∷ []) both_clean

cleaned_processes :
    cleaned.processes
    ≡ finished other_job (cleans_up other_stage) ∷ finished job (cleans_up stage) ∷ []
unfolding program Programs.prepare Programs.create_key_and_start Programs.start_and_finish
    Programs.started_or_stopped Programs.finish_task Programs.complete_task Programs.persist_or_stop
    Programs.wait_or_stop Programs.wait_fargate_task_ready Prepare.init_command
    Prepare.start_new_fargate_task Prepare.persist_data_for_later_stages new_fargate init run_task
    wait_until_task_running get_container_ip create new_metadata_manager persist extract_private_ip
    text_eq generate_filename hex get_full_file_path Programs.cleanup Programs.stop_and_clear
    Cleanup.init_command get clear stop_task
cleaned_processes = refl

to_end : Reach (boot machine start.disk) (record { state = cleaned.state; processes = [] })
to_end =
    next
      (next (schedule-Reach (0 ∷ 1 ∷ 1 ∷ 0 ∷ 0 ∷ 1 ∷ 1 ∷ 0 ∷ []) both_clean to_clean) (
        departs [] (finished other_job (cleans_up other_stage))
          (finished job (cleans_up stage) ∷ []) (ok tt) cleaned_processes refl tt refl))
      (departs [] (finished job (cleans_up stage)) [] (ok tt) refl refl tt refl)

departed-stopped_example :
    count (codes "arn:1") (started cleaned.state.calls)
    ≤ count (codes "arn:1") (stopped cleaned.state.calls)
departed-stopped_example =
    departed-stopped machine-IsFaithful machine-WritesReturn machine-NamesTasks machine-RoundTrips
      start.disk to_end refl (codes "arn:1")
