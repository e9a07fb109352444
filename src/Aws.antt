-- ===== src/Aws.antt =====
-- The AWS Fargate adapter (aws/fargate.go). `AwsFargate` is the struct `awsFargate`; a client of
-- ECS or EC2 is the region of its session, and a nil client is `none`. Log lines are left out.
pub mod Environment
pub mod Details
pub mod Tasks
pub mod Answers
pub mod Addresses
use gitlab_ci_fargate_arm_dr.Prelude.{
  String, Bytes, codes, Bool, true, false, is_empty, Option, none, some, List, [], ◌∷◌,
  if◌then◌else◌,
}
use gitlab_ci_fargate_arm_dr.Go.Errors.{Error, sentinel, Sentinel, wrapped}
use gitlab_ci_fargate_arm_dr.Platform.{
  Platform, Result, ok, err, panic, RunTaskInput, TaskDescription, PublicAddress, Call,
}
use gitlab_ci_fargate_arm_dr.Platform.Effects.{
  M, ◌>>=◌, ◌>>◌, pure, raise, lift, wrap, perform, first, deref, two_results,
}
use Environment.{process_env_variables_to_inject}
use Details.{extract_private_ip, extract_network_interface_id}

pub record TaskSettings : Type 0 where
  pub cluster : Bytes
  pub task_definition : Bytes
  pub platform_version : Bytes
  -- The map, in the order in which `range` visits it.
  pub environment_variables : List (Bytes × Bytes)

pub record ConnectionSettings : Type 0 where
  pub subnet : Bytes
  pub security_group : Bytes
  pub enable_public_ip : Bool

pub record AwsFargate : Type 0 where
  pub aws_region : Bytes
  pub ecs_svc : Option Bytes
  pub ec2_svc : Option Bytes

unfoldable pub new_fargate : Bytes → AwsFargate
new_fargate region = record { aws_region = region; ecs_svc = none; ec2_svc = none }

-- `errIfNotInitialized`: both clients must be there.
abbrev initialized : Option Bytes → Option Bytes → Option Error
initialized (some _) (some _) = none
initialized _ _ = some (sentinel Sentinel.not_initialized)

abbrev pub err_if_not_initialized : AwsFargate → Option Error
err_if_not_initialized a = initialized a.ecs_svc a.ec2_svc

abbrev enabled : Bool → Bytes
enabled true = codes "ENABLED"
enabled false = codes "DISABLED"

-- A text as an optional parameter: nil where it is empty.
abbrev optional : Bytes → Option Bytes
optional s = if is_empty s then none else some s

-- The request that `RunTask` builds.
unfoldable pub run_task_input : TaskSettings → ConnectionSettings → RunTaskInput
run_task_input t c = record {
  task_definition = t.task_definition;
  cluster = t.cluster;
  security_groups = c.security_group ∷ [];
  subnets = c.subnet ∷ [];
  assign_public_ip = enabled c.enable_public_ip;
  overrides = process_env_variables_to_inject t.environment_variables;
  platform_version = optional t.platform_version;
}

module _ {P : Platform} where
  -- The guard that every operation starts with.
  abbrev guard : AwsFargate → String → M P (Unit {0})
  guard a format = elim (err_if_not_initialized a) [
    | some e ↦ raise (wrapped format [] e)
    | none ↦ pure tt
  ]

  -- `Init`: the adapter with its clients, or the error and the adapter as it was.
  unfoldable pub init : AwsFargate → M P AwsFargate
  init a = do
    wrap "couldn't create AWS session: %w" []
        (perform (λ h. P.session_creator h a.aws_region) (λ _. Call.new_session a.aws_region))
    pure (record a { ecs_svc = some a.aws_region; ec2_svc = some a.aws_region })

  unfoldable pub run_task :
      AwsFargate → TaskSettings → ConnectionSettings → M P (Bytes × Option Error)
  run_task a t c = two_results [] (do
    guard a "could not start AWS Fargate Task: %w"
    let input = run_task_input t c
    tasks ←
        wrap "error starting AWS Fargate Task: %w" []
          (perform (λ h. P.ecs_run_task h input) (Call.run_task input))
    task ← lift (first tasks)
    lift (deref task))

  unfoldable pub wait_until_task_running : AwsFargate → Bytes → Bytes → M P (Unit {0})
  wait_until_task_running a arn cluster = do
    guard a "could not wait AWS Fargate task: %w"
    wrap "error waiting AWS Fargate Task %q to be in \"Running\" state: %w" (arn ∷ []) (
        perform (λ h. P.ecs_wait_until_tasks_running h cluster arn)
          (λ _. Call.wait_until_tasks_running cluster arn))

  unfoldable pub stop_task : AwsFargate → Bytes → Bytes → M P (Unit {0})
  stop_task a arn cluster = do
    guard a "could not stop AWS Fargate Task: %w"
    wrap "error stopping AWS Fargate Task %q: %w" (arn ∷ [])
        (perform (λ h. P.ecs_stop_task h cluster arn) (λ _. Call.stop_task cluster arn))

  get_task_details : Bytes → Bytes → M P (List TaskDescription)
  get_task_details arn cluster =
      wrap "error during call to describe fargate task: %w" []
        (perform (λ h. P.ecs_describe_tasks h cluster arn) (λ _. Call.describe_tasks cluster arn))

  get_public_ip : Bytes → M P Bytes
  get_public_ip id = do
    interfaces ← wrap "error reading network interfaces: %w" [] (
        perform (λ h. P.ec2_describe_network_interfaces h id)
          (λ _. Call.describe_network_interfaces id))
    interface ← lift (first interfaces)
    association ← lift (deref interface)
    lift (deref association)

  -- The last part of `GetContainerIP`, where the public address is asked for.
  fetch_public_ip : List TaskDescription → M P Bytes
  unfolding get_public_ip
  fetch_public_ip tasks = do
    id ← lift (extract_network_interface_id tasks)
    wrap "error trying to get the public IP: %w" [] (get_public_ip id)

  unfoldable pub get_container_ip : AwsFargate → Bytes → Bytes → Bool → M P Bytes
  unfolding get_task_details fetch_public_ip
  get_container_ip a arn cluster use_public_ip = do
    guard a "could not get container IP: %w"
    tasks ←
        wrap "error accessing information about the task %q: %w" (arn ∷ [])
          (get_task_details arn cluster)
    if use_public_ip then fetch_public_ip tasks else lift (extract_private_ip tasks)
