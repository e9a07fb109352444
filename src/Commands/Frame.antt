-- ===== src/Commands/Frame.antt =====
-- What the steps of a stage do to a file that is not their own.
pub mod Stages
use mathlib.Core.Path.{subst}
use gitlab_ci_fargate_arm_dr.Prelude.{
  ℕ, String, ◌≡◌, ◌≢◌, refl, sym, ap, ◌∙◌, inl, inr, Bytes, Option, none, some, List, [], ◌∷◌,
  arith,
}
use gitlab_ci_fargate_arm_dr.Go.Errors.{Error}
use gitlab_ci_fargate_arm_dr.Runner.{Adapter}
use gitlab_ci_fargate_arm_dr.Platform.{
  Platform, State, Result, ok, err, panic, Data, KeyPair, IsFaithful,
}
use gitlab_ci_fargate_arm_dr.Platform.Effects.{M, ◌>>=◌, wrap, on_error, Result-cases}
use gitlab_ci_fargate_arm_dr.Aws.{
  init, new_fargate, run_task, wait_until_task_running, stop_task, get_container_ip,
}
use gitlab_ci_fargate_arm_dr.Keys.{create}
use gitlab_ci_fargate_arm_dr.Task.Metadata.{
  MetadataManager, new_metadata_manager, get_full_file_path, persist, get, clear,
}
use gitlab_ci_fargate_arm_dr.Task.Metadata.Laws.{Stores}
use gitlab_ci_fargate_arm_dr.Context.{Context}
use gitlab_ci_fargate_arm_dr.Commands.Prepare.{
  PrepareCommand, start_new_fargate_task, stop_fargate_task_on_error, persist_data_for_later_stages,
  wait_fargate_task_ready, started_or_stopped, finish_task, persist_or_stop, wait_or_stop,
  complete_task, start_and_finish, create_key_and_start,
}
use gitlab_ci_fargate_arm_dr.Commands.Cleanup.{CleanupCommand, stop_and_clear}
use gitlab_ci_fargate_arm_dr.Commands.Prepare
use gitlab_ci_fargate_arm_dr.Commands.Cleanup
use gitlab_ci_fargate_arm_dr.Commands.Prepare.Stored.{job_manager}

module _ {P : Platform} where
  -- The file `path` is in `t` as it is in `s`.
  abbrev pub SameFile : Bytes → State P → State P → Type 0
  SameFile path s t =
      (P.exists t.disk path ≡ P.exists s.disk path)
      × (P.read_file t.disk path ≡ P.read_file s.disk path)

  pub Stores-of_file :
      (m : MetadataManager) (x : Data) (s t : State P)
      → SameFile (get_full_file_path P.join m) s t
      → Stores m x s
      → Stores m x t
  Stores-of_file m x s t (e, r) h = record {
    content = h.content;
    encodes = h.encodes;
    found = e ∙ h.found;
    holds = r ∙ h.holds;
  }

  module _ (path : Bytes) where
    -- An action that leaves the file `path` as it was.
    abbrev pub Spares : {A : Type 0} → M P A → Type 0
    Spares m = (s : State P) → SameFile path s (m s).1

    pub >>=-Spares :
        {A B : Type 0} (m : M P A) (f : A → M P B)
        → Spares m
        → ((a : A) → Spares (f a))
        → Spares (m >>= f)
    >>=-Spares m f h k s = elim (Result-cases (m s).0) [
      | inl (a, e) ↦ ground (arith, h s, k a (m s).1)
      | inr (inl (failure, e)) ↦ ground (arith, h s)
      | inr (inr (text, e)) ↦ ground (arith, h s)
    ]

    pub wrap-Spares :
        {A : Type 0} (format : String) (args : List Bytes) (m : M P A)
        → Spares m
        → Spares (wrap format args m)
    wrap-Spares format args m h s = ground (arith, h s)

    pub on_error-Spares :
        {A : Type 0} (m : M P A) (handler : Error → M P (Unit {0}))
        → Spares m
        → ((e : Error) → Spares (handler e))
        → Spares (on_error m handler)
    on_error-Spares m handler h k s = elim (Result-cases (m s).0) [
      | inl (a, e) ↦ ground (arith, h s)
      | inr (inl (failure, e)) ↦ ground (arith, h s, k failure (m s).1)
      | inr (inr (text, e)) ↦ ground (arith, h s)
    ]

    pub init_command-Spares : (ctx : Context) → Spares (Prepare.init_command ctx)
    unfolding Prepare.init_command new_metadata_manager init
    init_command-Spares ctx s = ground arith

    pub cleanup_init-Spares : (ctx : Context) → Spares (Cleanup.init_command ctx)
    unfolding Cleanup.init_command new_metadata_manager init
    cleanup_init-Spares ctx s = ground arith

    pub create-Spares : (bits : ℕ) → Spares (create bits)
    unfolding create
    create-Spares bits s = ground arith

    pub stop_on_error-Spares :
        (c : PrepareCommand) (arn : Bytes) (e : Error) → Spares (stop_fargate_task_on_error c arn e)
    unfolding stop_fargate_task_on_error stop_task
    stop_on_error-Spares c arn e s = ground arith

    pub start_new_fargate_task-Spares :
        (c : PrepareCommand) (key : Bytes) → Spares (start_new_fargate_task c key)
    unfolding start_new_fargate_task run_task
    start_new_fargate_task-Spares c key s = ground arith

    pub wait_fargate_task_ready-Spares :
        (c : PrepareCommand) (arn : Bytes) → Spares (wait_fargate_task_ready c arn)
    unfolding wait_fargate_task_ready wait_until_task_running get_container_ip
    wait_fargate_task_ready-Spares c arn s = ground arith

    module _ (F : IsFaithful P) (m : MetadataManager)
        (apart : path ≢ get_full_file_path P.join m) where
      pub persist-Spares : (x : Data) → Spares (persist m x)
      unfolding persist
      persist-Spares x s = elim (Result-cases (P.encode_data x)) [
        | inl (content, e) ↦
            let there =
              F.exists-write_other s.disk (get_full_file_path P.join m) path content 0o600 apart in
            let same =
              F.read-write_other s.disk (get_full_file_path P.join m) path content 0o600 apart in
            ground arith
        | inr (inl (failure, e)) ↦ ground arith
        | inr (inr (t, e)) ↦ ground arith
      ]

      pub clear-Spares : Spares (clear m)
      unfolding clear
      clear-Spares s =
          let there = F.exists-remove_other s.disk (get_full_file_path P.join m) path apart in
          let same = F.read-remove_other s.disk (get_full_file_path P.join m) path apart in
          ground arith
