-- ===== src/Commands/Prepare/Request.antt =====
-- The request that the prepare stage sends to start the task.
use gitlab_ci_fargate_arm_dr.Prelude.{
  ◌≡◌, ap, ◌∙◌, inl, inr, Bytes, some, none, [], ◌∷◌, arith, codes, is_empty, if◌then◌else◌,
}
use gitlab_ci_fargate_arm_dr.Platform.{Platform, State, RunTaskInput, Call}
use gitlab_ci_fargate_arm_dr.Platform.Effects.{Result-cases}
use gitlab_ci_fargate_arm_dr.Config.{Global}
use gitlab_ci_fargate_arm_dr.Aws.{run_task, run_task_input}
use gitlab_ci_fargate_arm_dr.Aws.Environment.{process_env_variables_to_inject_one}
use gitlab_ci_fargate_arm_dr.Aws.Answers.{run_task_lem}
use gitlab_ci_fargate_arm_dr.Aws.Tasks.{IsInitialized}
use gitlab_ci_fargate_arm_dr.Commands.Prepare.{
  PrepareCommand, start_new_fargate_task, task_settings, connection_settings,
}

-- The request for a job's task: the configuration, and the public key as its one variable.
abbrev pub request : Global → Bytes → RunTaskInput
request cfg public_key = record {
  task_definition = cfg.fargate.task_definition;
  cluster = cfg.fargate.cluster;
  security_groups = cfg.fargate.security_group ∷ [];
  subnets = cfg.fargate.subnet ∷ [];
  assign_public_ip = if cfg.fargate.enable_public_ip then codes "ENABLED" else codes "DISABLED";
  overrides = some (record {
    container_name = codes "ci-coordinator";
    environment = record { name = codes "SSH_PUBLIC_KEY"; value = public_key } ∷ [];
  });
  platform_version =
      if is_empty cfg.fargate.platform_version then none else some cfg.fargate.platform_version;
}

run_task_input-request :
    (cfg : Global) (public_key : Bytes)
    → run_task_input (task_settings cfg public_key) (connection_settings cfg)
      ≡ request cfg public_key
unfolding run_task_input
run_task_input-request cfg public_key =
    ground (arith, process_env_variables_to_inject_one (codes "SSH_PUBLIC_KEY") public_key)

module _ {P : Platform} where
  pub start_new_fargate_task-calls :
      (c : PrepareCommand) (public_key : Bytes) (s : State P)
      → IsInitialized c.aws_fargate
      → let sent = request c.cfg public_key in
        (start_new_fargate_task c public_key s).1.calls
        ≡ Call.run_task sent (P.ecs_run_task s.calls sent) ∷ s.calls
  unfolding start_new_fargate_task
  start_new_fargate_task-calls c public_key s ready =
      let t = task_settings c.cfg public_key in
      let n = connection_settings c.cfg in
      let same : (start_new_fargate_task c public_key s).1 ≡ (run_task c.aws_fargate t n s).1 =
        elim (Result-cases (run_task c.aws_fargate t n s).0) [
          | inl ((arn, none), e) ↦ ground arith
          | inl ((arn, some failure), e) ↦ ground arith
          | inr (inl (failure, e)) ↦ ground arith
          | inr (inr (text, e)) ↦ ground arith
        ] in
      ap (λ (u : State P). u.calls) same
      ∙ ap (λ v. v.1.calls) (run_task_lem c.aws_fargate t n s ready)
      ∙ ap (λ sent. Call.run_task sent (P.ecs_run_task s.calls sent) ∷ s.calls)
          (run_task_input-request c.cfg public_key)
