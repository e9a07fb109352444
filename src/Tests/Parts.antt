-- ===== src/Tests/Parts.antt =====
-- The adapters, the executor, the file names and the numbers.
use gitlab_ci_fargate_arm_dr.Prelude.{
  ◌≡◌, ◌≢◌, refl, String, Bytes, codes, false, none, some, List, [], ◌∷◌, arith,
}
use gitlab_ci_fargate_arm_dr.Go.Errors.{wrapped, external}
use gitlab_ci_fargate_arm_dr.Go.Int.{pos, negsuc, InRange}
use gitlab_ci_fargate_arm_dr.Go.Decimal.{
  fmt_int, parse_int, parse_uint, parse_loop, with_sign, value,
}
use gitlab_ci_fargate_arm_dr.Go.Decimal.RoundTrip.{parse_int-fmt_int, parse_int-InRange}
use gitlab_ci_fargate_arm_dr.Platform.{
  Platform, State, ok, err, panic, Call, ConnectionSettings, Detail,
}
use gitlab_ci_fargate_arm_dr.Aws.{
  AwsFargate, TaskSettings, new_fargate, run_task, wait_until_task_running, stop_task,
  get_container_ip, run_task_input,
}
use gitlab_ci_fargate_arm_dr.Aws.Environment.{
  process_env_variables_to_inject, process_env_variables_to_inject_last, default_container_name,
  to_pair,
}
use gitlab_ci_fargate_arm_dr.Aws.Answers.{run_task_lem}
use gitlab_ci_fargate_arm_dr.Task.Filename.{RunnerData}
use gitlab_ci_fargate_arm_dr.Task.Filename.Laws.{IsId, generate_filename-injective}
use gitlab_ci_fargate_arm_dr.Executor.{new_executor, connect, disconnect, execute_script, execute}
use gitlab_ci_fargate_arm_dr.Executor.Session.{run_script, close}
use gitlab_ci_fargate_arm_dr.Executor.Laws.{execute-disconnects, execute_script_error_wins}
use gitlab_ci_fargate_arm_dr.Tests.Machine.{machine, start}

abbrev pub server : ConnectionSettings
server = record {
  hostname = codes "h";
  port = pos 22;
  username = codes "u";
  private_key = codes "k";
}

connected : (connect {P = machine} server (new_executor, start)).0 ≡ ok tt
unfolding connect
connected = refl

executed : (execute {P = machine} server (codes "true") (new_executor, start)).0 ≡ ok tt
unfolding execute connect execute_script disconnect run_script close
executed = refl

execute-disconnects_example :
    (h : List Call) × ((execute {P = machine} server (codes "true") (new_executor, start)).1.1.calls
      ≡ Call.disconnect ∷ h)
execute-disconnects_example = execute-disconnects server (codes "true") new_executor start connected

-- No session can be opened, and the connection cannot be closed.
abbrev failing : Platform
failing = record machine {
  ssh_new_session = λ h. err (external 6);
  ssh_close = λ h. err (external 7);
}

abbrev there : State failing
there = record { calls = []; disk = [] }

connected_there : (connect {P = failing} server (new_executor, there)).0 ≡ ok tt
unfolding connect
connected_there = refl

script_failed :
    (execute_script {P = failing} (codes "true") (connect server (new_executor, there)).1).0
    ≡ err (wrapped "creating session for ssh client: %w" [] (external 6))
unfolding connect execute_script
script_failed = refl

no_panic :
    (d : String)
    → (disconnect
        (execute_script {P = failing} (codes "true") (connect server (new_executor, there)).1).1).0
      ≢ panic d
unfolding connect execute_script disconnect
no_panic d h = absurd (cc)

execute_script_error_wins_example :
    (execute {P = failing} server (codes "true") (new_executor, there)).0
    ≡ err (
        wrapped "executing script: %w" []
          (wrapped "creating session for ssh client: %w" [] (external 6)))
execute_script_error_wins_example =
    execute_script_error_wins server (codes "true") new_executor _ there connected_there
      script_failed no_panic

abbrev settings : TaskSettings
settings = record {
  cluster = codes "c";
  task_definition = codes "d";
  platform_version = [];
  environment_variables = (codes "A", codes "1") ∷ [];
}

abbrev network : gitlab_ci_fargate_arm_dr.Aws.ConnectionSettings
network = record { subnet = codes "n"; security_group = codes "g"; enable_public_ip = false }

abbrev fargate : AwsFargate
fargate = record { aws_region = codes "r"; ecs_svc = some (codes "r"); ec2_svc = some (codes "r") }

run_task_lem_example : run_task fargate settings network start ≡ (
  ok (codes "arn:1", none),
  record start {
    calls = Call.run_task (run_task_input settings network) (ok (some (codes "arn:1") ∷ [])) ∷ [];
  },
)
run_task_lem_example =
    run_task_lem {P = machine} fargate settings network start
      (record { ecs = codes "r"; ec2 = codes "r"; ecs_svc = refl; ec2_svc = refl })

process_env_variables_to_inject_last_example :
    process_env_variables_to_inject ((codes "A", codes "1") ∷ (codes "B", codes "2") ∷ [])
    ≡ some (record {
      container_name = default_container_name;
      environment = to_pair (codes "B", codes "2") ∷ to_pair (codes "B", codes "2") ∷ [];
    })
process_env_variables_to_inject_last_example =
    process_env_variables_to_inject_last ((codes "A", codes "1") ∷ []) (codes "B") (codes "2")

abbrev subnet_detail : Detail
subnet_detail = record { name = some (codes "subnetId"); value = some (codes "n") }

abbrev interface_detail : Detail
interface_detail = record { name = some (codes "networkInterfaceId"); value = some (codes "eni-1") }

abbrev job : RunnerData
job = record {
  short_token = codes "t";
  project_url = codes "p";
  pipeline_id = pos 1;
  job_id = pos 2;
}

-- A hash of one byte.
abbrev hash : Bytes → Bytes
hash s = 171 ∷ []

generate_filename-injective_example : job ≡ job
generate_filename-injective_example =
    generate_filename-injective hash job job (λ s. (omega arith, tt)) (λ e. refl)
      (IsId.id 1 (omega arith), IsId.id 2 (omega arith))
      (IsId.id 1 (omega arith), IsId.id 2 (omega arith)) refl

parse_int-fmt_int_example : parse_int (fmt_int (negsuc 41)) 64 ≡ value (negsuc 41)
parse_int-fmt_int_example = parse_int-fmt_int (negsuc 41) (omega arith)

parsed : parse_int (codes "-42") 64 ≡ value (negsuc 41)
unfolding parse_int parse_uint parse_loop with_sign
parsed = refl

parse_int-InRange_example : InRange (negsuc 41)
parse_int-InRange_example = parse_int-InRange (codes "-42") (negsuc 41) parsed
