-- ===== src/Aws/Answers.antt =====
-- The results of the adapter (aws/fargate.go), before and after it is initialised.
use gitlab_ci_fargate_arm_dr.Prelude.{
  inl, inr, String, ◌≡◌, refl, Bytes, Bool, Option, none, some, List, [], ◌∷◌, arith,
}
use gitlab_ci_fargate_arm_dr.Go.Errors.{Error, wrapped, sentinel, Sentinel}
use gitlab_ci_fargate_arm_dr.Platform.{Platform, State, Result, ok, err, panic, Call}
use gitlab_ci_fargate_arm_dr.Aws.{
  AwsFargate, TaskSettings, ConnectionSettings, new_fargate, run_task, wait_until_task_running,
  stop_task, get_container_ip, run_task_input,
}
use gitlab_ci_fargate_arm_dr.Aws.Tasks.{IsInitialized, answer_cases}

-- The results of `RunTask` for an answer of ECS.
abbrev pub returned : Result (List (Option Bytes)) → Result (Bytes × Option Error)
returned (ok (some arn ∷ more)) = ok (arn, none)
returned (ok (none ∷ more)) = panic "nil pointer dereference"
returned (ok []) = panic "index out of range"
returned (err e) = ok ([], some (wrapped "error starting AWS Fargate Task: %w" [] e))
returned (panic t) = panic t

module _ {P : Platform} where
  -- Before `Init` every operation fails with `ErrNotInitialized`, wrapped once, and calls nothing.
  pub new_fargate-not_initialized :
      (region : Bytes) (t : TaskSettings) (c : ConnectionSettings) (arn cluster : Bytes)
      (public : Bool) (s : State P)
      → let a = new_fargate region in
        let failed = λ (f : String). wrapped f [] (sentinel Sentinel.not_initialized) in
        (run_task a t c s ≡ (ok ([], some (failed "could not start AWS Fargate Task: %w")), s))
        × (wait_until_task_running a arn cluster s
            ≡ (err (failed "could not wait AWS Fargate task: %w"), s))
        × (stop_task a arn cluster s ≡ (err (failed "could not stop AWS Fargate Task: %w"), s))
        × (get_container_ip a arn cluster public s
            ≡ (err (failed "could not get container IP: %w"), s))
  unfolding new_fargate run_task wait_until_task_running stop_task get_container_ip
  new_fargate-not_initialized region t c arn cluster public s = (refl, refl, refl, refl)

  -- An initialised adapter's `RunTask` sends one request, built from its settings, and its result is
  -- the answer's: the first ARN and no error; no ARN and the error; or a panic where the answer has
  -- no task, as ECS answers where it lists failures, or the first task has no ARN.
  pub run_task_lem :
      (a : AwsFargate) (t : TaskSettings) (c : ConnectionSettings) (s : State P)
      → IsInitialized a
      → let answer = P.ecs_run_task s.calls (run_task_input t c) in
        run_task a t c s ≡ (
          returned answer,
          record s { calls = Call.run_task (run_task_input t c) answer ∷ s.calls },
        )
  unfolding run_task
  run_task_lem a t c s ready = elim (answer_cases (P.ecs_run_task s.calls (run_task_input t c))) [
    | inl (arn, more, e) ↦ ground arith
    | inr (inl (more, e)) ↦ ground arith
    | inr (inr (inl e)) ↦ ground arith
    | inr (inr (inr (inl (failure, e)))) ↦ ground arith
    | inr (inr (inr (inr (text, e)))) ↦ ground arith
  ]
