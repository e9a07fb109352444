-- ===== src/Commands/Overlap/Duty/Writes.antt =====
-- The wait for the task and the writes of its data (cmd/fargate/commands/custom/prepare.go), with
-- their error handling: what they owe.
use mathlib.Core.Path.{subst}
use gitlab_ci_fargate_arm_dr.Prelude.{inl, inr, String, ◌≡◌, ◌≢◌, refl, Bytes, List, [], ◌∷◌, arith}
use gitlab_ci_fargate_arm_dr.Platform.{
  Platform, State, Result, ok, err, panic, Data, IsFaithful, WritesReturn,
}
use gitlab_ci_fargate_arm_dr.Platform.Effects.{Result-cases}
use gitlab_ci_fargate_arm_dr.Platform.Program.{Program, ret, act, on_ok, wrapped_result, wrap}
use gitlab_ci_fargate_arm_dr.Aws.{wait_until_task_running, get_container_ip}
use gitlab_ci_fargate_arm_dr.Aws.Tasks.{
  IsInitialized, wait_until_task_running-IsQuiet, get_container_ip-IsQuiet,
}
use gitlab_ci_fargate_arm_dr.Task.Metadata.{persist, get_full_file_path}
use gitlab_ci_fargate_arm_dr.Task.Metadata.Store.{Known, holds, after_persist}
use gitlab_ci_fargate_arm_dr.Task.Metadata.Store.Refines.{IsSo, persist-IsSo}
use gitlab_ci_fargate_arm_dr.Commands.Frame.{SameFile, persist-Spares}
use gitlab_ci_fargate_arm_dr.Commands.Prepare.{PrepareCommand, persist_data_for_later_stages}
use gitlab_ci_fargate_arm_dr.Commands.Prepare.Steps.{persist_data-IsQuiet}
use gitlab_ci_fargate_arm_dr.Commands.Prepare.Stored.{task_data}
use gitlab_ci_fargate_arm_dr.Commands.Overlap.Programs.{
  wait_fargate_task_ready, persist_or_stop, wait_or_stop,
}
use gitlab_ci_fargate_arm_dr.Commands.Overlap.Duty.{
  Settled, Effect, Duty, IsIdle, idle-Duty, quiet-Moves,
}
use gitlab_ci_fargate_arm_dr.Commands.Overlap.Duty.Guards.{own, Guards, Tries, guarded-Duty}

module _ {P : Platform} where
  wait_until_task_running-IsIdle :
      (c : PrepareCommand) (arn : Bytes)
      → IsIdle {P = P} (wait_until_task_running c.aws_fargate arn c.cfg.fargate.cluster)
  unfolding wait_until_task_running
  wait_until_task_running-IsIdle c arn = record {
    spares = λ other s. ground arith;
    quiet = wait_until_task_running-IsQuiet c.aws_fargate arn c.cfg.fargate.cluster;
  }

  get_container_ip-IsIdle :
      (c : PrepareCommand) (arn : Bytes)
      → IsIdle {P = P}
          (get_container_ip c.aws_fargate arn c.cfg.fargate.cluster c.cfg.fargate.enable_public_ip)
  unfolding get_container_ip
  get_container_ip-IsIdle c arn = record {
    spares = λ other s. ground arith;
    quiet =
        get_container_ip-IsQuiet c.aws_fargate arn c.cfg.fargate.cluster
          c.cfg.fargate.enable_public_ip;
  }

module _ (P : Platform) (c : PrepareCommand) (arn : Bytes) (ready : IsInitialized c.aws_fargate)
    (named : arn ≢ []) where
  -- The steps with the task `arn` owed.
  wait_fargate_task_ready-Duty :
      (k : Known)
      → Settled (arn ∷ []) k
      → Duty (own P c) (Tries arn k) (wait_fargate_task_ready {P = P} c arn) (arn ∷ []) k
  unfolding wait_fargate_task_ready
  wait_fargate_task_ready-Duty k settled =
      let address : Program P Bytes = wrap "fetching the container IP: %w" [] (
        act (
          get_container_ip c.aws_fargate arn c.cfg.fargate.cluster
            c.cfg.fargate.enable_public_ip)) in
      let f : String = "waiting for Fargate task to be in running state: %w" in
      idle-Duty (own P c) {A = Unit {0}} {B = Bytes} (Tries arn k)
        (wait_until_task_running c.aws_fargate arn c.cfg.fargate.cluster)
        (λ r. on_ok {B = Bytes} (λ _. address) (wrapped_result f [] r)) (arn ∷ []) k
        (wait_until_task_running-IsIdle c arn)
        (λ _ s e.
          idle-Duty (own P c) {A = Bytes} {B = Bytes} (Tries arn k)
            (get_container_ip c.aws_fargate arn c.cfg.fargate.cluster
              c.cfg.fargate.enable_public_ip)
            (λ r. ret (wrapped_result "fetching the container IP: %w" [] r)) (arn ∷ []) k
            (get_container_ip-IsIdle c arn) (λ ip _ _. (refl, refl)) (λ _. refl) λ _. settled)
        (λ _. refl) λ _. settled

  pub wait_or_stop-Duty :
      (k : Known)
      → Settled (arn ∷ []) k
      → Duty (own P c) (Guards arn k) (wait_or_stop {P = P} c arn) (arn ∷ []) k
  unfolding wait_or_stop
  wait_or_stop-Duty k settled =
      guarded-Duty P c arn ready named {A = Bytes} "waiting Fargate task to be ready: %w"
        (wait_fargate_task_ready c arn) k k (arn ∷ []) (wait_fargate_task_ready-Duty k settled)

  persist-Effect :
      (x : Data) (s : State P) (o : List Bytes)
      → IsFaithful P
      → Effect
          (own P c)
          s
          (persist_data_for_later_stages c x s).1
          o
          o
          (after_persist x (persist_data_for_later_stages c x s).0)
  unfolding persist_data_for_later_stages
  persist-Effect x s o F =
      let m = c.metadata_manager in
      let t = (persist_data_for_later_stages c x s).1 in
      let same : (persist m x s).1 ≡ t = ground arith in
      let known : after_persist x (persist m x s).0
          ≡ after_persist x (persist_data_for_later_stages c x s).0 =
        ground arith in
      record {
        so =
            subst (λ k. IsSo (own P c) k t) known
              (subst (IsSo (own P c) (after_persist x (persist m x s).0)) same
                (persist-IsSo F m s x));
        others = λ other apart. subst (SameFile other s) same (persist-Spares other F m apart x s);
        moves = quiet-Moves s t o (persist_data-IsQuiet c x s);
      }

  persist-returns :
      WritesReturn P
      → (x : Data) (s : State P) (t : String) → (persist_data_for_later_stages c x s).0 ≢ panic t
  unfolding persist_data_for_later_stages persist
  persist-returns W x s t e = elim (Result-cases (P.encode_data x)) [
    | inl (content, found) ↦
        W.write-returns s.disk (get_full_file_path P.join c.metadata_manager) content 0o600 t
          (ground arith)
    | inr (inl (failure, found)) ↦ ground arith
    | inr (inr (text, found)) ↦ W.encode-returns x text found
  ]

  -- The write of the data, without the handling of its error.
  persist-Duty :
      (x : Data) (k : Known)
      → IsFaithful P
      → WritesReturn P
      → Duty {P = P}
          (own P c)
          {A = Unit {0}}
          (Tries arn (holds x))
          (act (persist_data_for_later_stages c x))
          (arn ∷ [])
          k
  persist-Duty x k F W s so =
      let r = (persist_data_for_later_stages c x s).0 in
      (
        arn ∷ [],
        after_persist x r,
        persist-Effect x s (arn ∷ []) F,
        tried r (persist-returns W x s),
      )
    where
      tried :
          (r : Result (Unit {0}))
          → ((t : String) → r ≢ panic t)
          → Tries arn (holds x) r (arn ∷ []) (after_persist x r)
      tried (ok _) returns = (refl, refl)
      tried (err _) returns = refl
      tried (panic t) returns = absurd (returns t refl)

  pub persist_or_stop-Duty :
      (f : String) (ip key : Bytes) (k : Known)
      → IsFaithful P
      → WritesReturn P
      → Duty {P = P}
          (own P c)
          (Guards arn (holds (task_data arn ip key)))
          (persist_or_stop c f (task_data arn ip key))
          (arn ∷ [])
          k
  unfolding persist_or_stop
  persist_or_stop-Duty f ip key k F W =
      let x = task_data arn ip key in
      guarded-Duty P c arn ready named {A = Unit {0}} f (act (persist_data_for_later_stages c x))
        (holds x) k (arn ∷ []) (persist-Duty x k F W)
