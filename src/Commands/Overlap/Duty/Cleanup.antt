-- ===== src/Commands/Overlap/Duty/Cleanup.antt =====
-- What the cleanup stage owes (cmd/fargate/commands/custom/cleanup.go), step by step.
use mathlib.Core.Path.{subst}
use gitlab_ci_fargate_arm_dr.Prelude.{
  ◌≡◌, refl, sym, ap, ◌∙◌, ◌⊎◌, inl, inr, Bytes, List, [], ◌∷◌, arith,
}
use gitlab_ci_fargate_arm_dr.Platform.{
  Platform, State, Result, ok, err, panic, Data, IsFaithful, RoundTrips,
}
use gitlab_ci_fargate_arm_dr.Platform.Program.{◌>>◌, Program, act, on_ok, wrapped_result, wrap}
use gitlab_ci_fargate_arm_dr.Aws.{stop_task}
use gitlab_ci_fargate_arm_dr.Aws.Tasks.{tasks, IsQuiet, IsInitialized, stop_task-stopped}
use gitlab_ci_fargate_arm_dr.Context.{Context}
use gitlab_ci_fargate_arm_dr.Task.Metadata.{MetadataManager, get_full_file_path, get, clear}
use gitlab_ci_fargate_arm_dr.Task.Metadata.Laws.{get-state}
use gitlab_ci_fargate_arm_dr.Task.Metadata.Store.{Known, after_clear, GetAllows}
use gitlab_ci_fargate_arm_dr.Task.Metadata.Store.Refines.{IsSo, IsSo-Same, clear-IsSo, get-Allows}
use gitlab_ci_fargate_arm_dr.Commands.Frame.{SameFile, cleanup_init-Spares, clear-Spares}
use gitlab_ci_fargate_arm_dr.Commands.Jobs.{Job, file, Serves}
use gitlab_ci_fargate_arm_dr.Commands.Jobs.Effects.{own, cleanup_init-IsQuiet}
use gitlab_ci_fargate_arm_dr.Commands.Cleanup.{CleanupCommand, init_command}
use gitlab_ci_fargate_arm_dr.Commands.Cleanup.Laws.{stop_task-disk, init_command_lem}
use gitlab_ci_fargate_arm_dr.Commands.Overlap.Programs.{cleans_up, stop_and_clear, cleanup}
use gitlab_ci_fargate_arm_dr.Commands.Overlap.Duty.{
  Ends, Settled, Moves, Effect, Duty, Duty-cases, IsIdle, IsIdle-of_disk, idle-Duty, idle-Effect,
  quiet-Moves, stopped-Moves, asked-Moves,
}

-- The metadata file that the command deletes.
abbrev own_file : Platform → CleanupCommand → Bytes
own_file P c = get_full_file_path P.join c.metadata_manager

-- The task that is stopped is the one that is owed, if one is.
abbrev Pays : Bytes → List Bytes → Type 0
Pays arn o = (o ≡ []) ⊎ (o ≡ arn ∷ [])

nothing_owed : (ctx : Context) (r : Result (Unit {0})) (k : Known) → Ends (cleans_up ctx) r [] k
nothing_owed ctx (ok _) k = refl
nothing_owed ctx (err _) k = inl refl
nothing_owed ctx (panic _) k = inl refl

clear-IsQuiet : {P : Platform} (m : MetadataManager) → IsQuiet {P = P} (clear m)
unfolding clear
clear-IsQuiet m s = ground arith

module _ (P : Platform) (F : IsFaithful P) (ctx : Context) (c : CleanupCommand) where
  -- The delete with nothing owed.
  clear-Duty :
      (x : Data) (k : Known)
      → Duty {P = P}
          (own_file P c)
          (Ends (cleans_up ctx))
          (wrap "deleting metadata related to the stopped Fargate Task %q: %w"
            (x.task_arn ∷ [])
            (act (clear c.metadata_manager)))
          []
          k
  clear-Duty x k s so =
      let m = c.metadata_manager in
      let t = (clear m s).1 in
      (
        [],
        after_clear k (clear m s).0,
        record {
          so = (clear-IsSo F m s k so).1;
          others = λ other apart. clear-Spares other F m apart s;
          moves = quiet-Moves s t [] (clear-IsQuiet c.metadata_manager s);
        },
        nothing_owed ctx (wrapped_result _ (x.task_arn ∷ []) (clear m s).0)
            (after_clear k (clear m s).0),
      )

  stop_task-Effect :
      (arn : Bytes) (s : State P) (o : List Bytes) (k : Known)
      → IsInitialized c.aws_fargate
      → Pays arn o
      → IsSo (own_file P c) k s
      → Effect (own_file P c) s (stop_task c.aws_fargate arn c.cfg.fargate.cluster s).1 o [] k
  stop_task-Effect arn s o k ready pays so =
      let cluster = c.cfg.fargate.cluster in
      let t = (stop_task c.aws_fargate arn cluster s).1 in
      let disk : t.disk ≡ s.disk = stop_task-disk c.aws_fargate arn cluster s in
      let asked = stop_task-stopped c.aws_fargate arn cluster s ready in
      let same : (other : Bytes) → SameFile other s t =
        λ other. (ap (λ d. P.exists d other) disk, ap (λ d. P.read_file d other) disk) in
      record {
        so = IsSo-Same (own_file P c) k s t (same (own_file P c)) so;
        others = λ other apart. same other;
        moves = elim pays [
          | inl none ↦ subst (λ q. Moves s t q []) (sym none) (asked-Moves s t arn [] asked)
          | inr one ↦ subst (λ q. Moves s t q []) (sym one) (stopped-Moves s t arn [] asked)
        ];
      }

  -- What comes after the read of the data.
  stop-Duty :
      (x : Data) (o : List Bytes) (k : Known)
      → IsInitialized c.aws_fargate
      → Pays x.task_arn o
      → Duty {P = P}
          (own_file P c)
          (Ends (cleans_up ctx))
          (wrap "stopping Fargate Task %q: %w"
              (x.task_arn ∷ [])
              (act (stop_task c.aws_fargate x.task_arn c.cfg.fargate.cluster))
            >> wrap "deleting metadata related to the stopped Fargate Task %q: %w"
                (x.task_arn ∷ [])
                (act (clear c.metadata_manager)))
          o
          k
  stop-Duty x o k ready pays s so =
      let delete : Program P (Unit {0}) =
        wrap "deleting metadata related to the stopped Fargate Task %q: %w" (x.task_arn ∷ [])
          (act (clear c.metadata_manager)) in
      (
        [],
        k,
        stop_task-Effect x.task_arn s o k ready pays so,
        Duty-cases (own_file P c) {A = Unit {0}} {B = Unit {0}} (Ends (cleans_up ctx))
            (λ r.
              on_ok {B = Unit {0}} (λ _. delete)
                (wrapped_result "stopping Fargate Task %q: %w" (x.task_arn ∷ []) r))
            [] k (stop_task c.aws_fargate x.task_arn c.cfg.fargate.cluster s).0
            (λ _ _. clear-Duty x k) (λ _. inl refl) (λ _. inl refl),
      )

  got-Pays :
      (o : List Bytes) (k : Known) (r : Result Data) (x : Data)
      → Settled o k
      → GetAllows (own_file P c) k r
      → r ≡ ok x
      → Pays x.task_arn o
  got-Pays o k r x (inl none) allowed e = inl none
  got-Pays o k r x (inr (y, known, owed)) allowed e =
      let read : r ≡ ok y = subst (λ q. GetAllows (own_file P c) q r) known allowed in
      inr (ground arith)

  stop_and_clear-Duty :
      (o : List Bytes) (k : Known)
      → ((x : Data) → RoundTrips P x)
      → IsInitialized c.aws_fargate
      → Settled o k
      → Duty {P = P} (own_file P c) (Ends (cleans_up ctx)) (stop_and_clear c) o k
  unfolding stop_and_clear
  stop_and_clear-Duty o k json ready settled s so =
      let m = c.metadata_manager in
      let further : Data → Program P (Unit {0}) = λ x.
        wrap "stopping Fargate Task %q: %w" (x.task_arn ∷ [])
          (act (stop_task c.aws_fargate x.task_arn c.cfg.fargate.cluster))
        >> wrap "deleting metadata related to the stopped Fargate Task %q: %w" (x.task_arn ∷ [])
            (act (clear m)) in
      (
        o,
        k,
        idle-Effect (own_file P c) {A = Data} (get m) s o k get-IsIdle so,
        Duty-cases (own_file P c) {A = Data} {B = Unit {0}} (Ends (cleans_up ctx))
            (λ r.
              on_ok further
                (wrapped_result "obtaining information about the running task: %w" [] r))
            o k (get m s).0
            (λ x e.
              stop-Duty x o k ready
                (got-Pays o k (get m s).0 x settled (get-Allows F m s json k so) e))
            (λ _. settled) (λ _. settled),
      )
    where
      get-IsIdle : IsIdle {P = P} (get c.metadata_manager)
      get-IsIdle =
          IsIdle-of_disk (get c.metadata_manager)
            (λ u. ap (λ v. v.disk) (get-state c.metadata_manager u))
            λ u. ap (λ v. tasks v.calls) (get-state c.metadata_manager u)

module _ {P : Platform} where
  pub cleanup-Duty :
      IsFaithful P
      → ((x : Data) → RoundTrips P x)
      → (ctx : Context) (j : Job) (o : List Bytes) (k : Known) → Serves ctx j
      → Settled o k
      → Duty {P = P} (file P j) (Ends (cleans_up ctx)) (cleanup ctx) o k
  unfolding cleanup
  cleanup-Duty F json ctx j o k (is, at) settled =
      idle-Duty (file P j) {A = CleanupCommand} {B = Unit {0}} (Ends (cleans_up ctx))
        (init_command ctx)
        (λ r. on_ok stop_and_clear (wrapped_result "initializing CleanupCommand: %w" [] r)) o k
        (record {
          spares = λ other. cleanup_init-Spares other ctx;
          quiet = cleanup_init-IsQuiet ctx;
        })
        (λ c s e.
          let (ready, named, _, _) = init_command_lem ctx j.adapter c s is e in
          subst (λ path. Duty {P = P} path (Ends (cleans_up ctx)) (stop_and_clear c) o k)
            (ap (get_full_file_path P.join) named
              ∙ ap (get_full_file_path P.join) (own P ctx j (is, at)))
            (stop_and_clear-Duty P F ctx c o k json ready settled))
        (λ _. settled) λ _. settled
