-- ===== src/Commands/Jobs/Invariant.antt =====
-- The accounts of many jobs, step by step.
use mathlib.Core.Path.{subst}
use gitlab_ci_fargate_arm_dr.Prelude.{
  ◌≡◌, ◌≢◌, refl, sym, ap, ◌⊎◌, inl, inr, ◌≤◌, Bytes, List, [], ◌∷◌, ◌++◌, arith, All,
}
use gitlab_ci_fargate_arm_dr.Go.Errors.{Error}
use gitlab_ci_fargate_arm_dr.Platform.{Platform, State, ok, err, Data, IsFaithful, RoundTrips}
use gitlab_ci_fargate_arm_dr.Aws.Tasks.{started, stopped, tasks, NamesTasks}
use gitlab_ci_fargate_arm_dr.Context.{Context}
use gitlab_ci_fargate_arm_dr.Task.Metadata.Laws.{Stores}
use gitlab_ci_fargate_arm_dr.Commands.Frame.{SameFile}
use gitlab_ci_fargate_arm_dr.Commands.Prepare.Stored.{job_manager}
use gitlab_ci_fargate_arm_dr.Commands.Prepare.Traced.{custom_execute-Keeps as prepare-Keeps}
use gitlab_ci_fargate_arm_dr.Commands.Prepare.Tasks.{custom_execute-Settles as prepare-Settles}
use gitlab_ci_fargate_arm_dr.Commands.Run.Laws.{
  custom_execute-disk as run-disk, custom_execute-tasks as run-tasks,
}
use gitlab_ci_fargate_arm_dr.Commands.Cleanup.Laws.{custom_execute-stops as cleanup-stops}
use gitlab_ci_fargate_arm_dr.Commands.Prepare
use gitlab_ci_fargate_arm_dr.Commands.Jobs.{
  Job, manager, file, Serves, System, Step, prepares, fails_to_prepare, runs, configures, cleans_up,
  tries_again, gives_up, boot, Reach, here, next, count,
}
use gitlab_ci_fargate_arm_dr.Commands.Jobs.Accounts.{
  Holding, Distinct, Inv, Holding-frame, Holding-split, Distinct-split,
}
use gitlab_ci_fargate_arm_dr.Commands.Jobs.Effects.{
  own, config-quiet, cleanup-tasks, frame_of_disk, prepare_frame, cleanup_frame,
}

module _ {P : Platform} where
  -- Nothing but the calls changed, and the tasks did not.
  Inv-quiet :
      (s : System P) (t : State P)
      → t.disk ≡ s.state.disk
      → tasks t.calls ≡ tasks s.state.calls
      → Inv s
      → Inv (record s { state = t })
  Inv-quiet s t disk quiet i = record {
    kept = i.kept;
    holding = Holding-frame s.live i.kept s.state t (frame_of_disk s.live s.state t disk) i.holding;
    distinct = i.distinct;
    accounted = λ a. ground (arith, i.accounted a);
  }

  module _ (ctx : Context) (j : Job) (serves : Serves ctx j) where
    module _ (F : IsFaithful P) where
      module _ (s : System P) (i : Inv s) where
        prepared-Inv :
            NamesTasks P
            → All (λ k. file P k ≢ file P j) s.live
            → (Prepare.custom_execute ctx s.state).0 ≡ ok tt
            → Inv (record { state = (Prepare.custom_execute ctx s.state).1; live = j ∷ s.live })
        unfolding count
        prepared-Inv N fresh done =
            let (x, stored, opened) = prepare-Keeps F N ctx j.adapter s.state serves.0 done in
            record {
              kept = x ∷ i.kept;
              holding = (
                subst (λ m. Stores m x (Prepare.custom_execute ctx s.state).1) (own P ctx j serves)
                    stored,
                Holding-frame s.live i.kept s.state _
                    (prepare_frame ctx j serves F s.live s.state fresh) i.holding,
              );
              distinct = (fresh, i.distinct);
              accounted = λ a. ground (arith, i.accounted a);
            }

        unprepared-Inv :
            NamesTasks P
            → (e : Error) → All (λ k. file P k ≢ file P j) s.live
            → (Prepare.custom_execute ctx s.state).0 ≡ err e
            → Inv (record s { state = (Prepare.custom_execute ctx s.state).1 })
        unfolding count
        unprepared-Inv N e fresh failed =
            let settles = prepare-Settles N ctx s.state in
            record {
              kept = i.kept;
              holding =
                  Holding-frame s.live i.kept s.state _
                    (prepare_frame ctx j serves F s.live s.state fresh) i.holding;
              distinct = i.distinct;
              accounted = λ a. ground (arith, i.accounted a);
            }

        -- The stored task of the job that is cleaned up, and the accounts without it.
        removed-Inv :
            (before after : List Job) (t : State P)
            → s.live ≡ before ++ (j ∷ after)
            → ((js : List Job)
                → All (λ k. file P k ≢ file P j) js
                → All (λ k. SameFile (file P k) s.state t) js)
            → ((x : Data)
                → Stores (manager P j) x s.state
                → tasks t.calls ≡ (started s.state.calls, x.task_arn ∷ stopped s.state.calls))
            → Inv (record { state = t; live = before ++ after })
        unfolding count
        removed-Inv before after t at frame asked =
            let (x, ys, stored, rest, counted) =
              Holding-split before j after i.kept s.state
                (subst (λ l. Holding l i.kept s.state) at i.holding) in
            let (others, distinct) =
              Distinct-split P before j after (subst (Distinct P) at i.distinct) in
            let closed = asked x stored in
            record {
              kept = ys;
              holding =
                  Holding-frame (before ++ after) ys s.state t (frame (before ++ after) others)
                    rest;
              distinct = distinct;
              accounted = λ a. ground (arith, i.accounted a, counted a);
            }

  module _ (F : IsFaithful P) (N : NamesTasks P) (json : (x : Data) → RoundTrips P x) where
    -- The job's own data, as the process finds it.
    stored_for :
        (ctx : Context) (j : Job) (x : Data) (s : State P)
        → Serves ctx j
        → Stores (manager P j) x s
        → Stores (job_manager P j.adapter ctx.config.task_metadata.directory) x s
    stored_for ctx j x s serves = subst (λ m. Stores m x s) (sym (own P ctx j serves))

    -- More requests to stop tasks keep the accounts.
    asked-Inv :
        (s : System P) (t : State P) (arn : Bytes)
        → t.disk ≡ s.state.disk
        → (tasks t.calls ≡ tasks s.state.calls)
          ⊎ (tasks t.calls ≡ (started s.state.calls, arn ∷ stopped s.state.calls))
        → Inv s
        → Inv (record s { state = t })
    unfolding count
    asked-Inv s t arn disk grown i = record {
      kept = i.kept;
      holding =
          Holding-frame s.live i.kept s.state t (frame_of_disk s.live s.state t disk) i.holding;
      distinct = i.distinct;
      accounted = λ a. ground (arith, i.accounted a);
    }

    Step-Inv : {s t : System P} → Step s t → Inv s → Inv t
    Step-Inv {s} (prepares ctx j serves fresh done e) i =
        subst Inv (sym e) (prepared-Inv ctx j serves F s i N fresh done)
    Step-Inv {s} (fails_to_prepare ctx j f serves fresh failed e) i =
        subst Inv (sym e) (unprepared-Inv ctx j serves F s i N f fresh failed)
    Step-Inv {s} (runs ctx e) i =
        subst Inv (sym e) (Inv-quiet s _ (run-disk ctx s.state) (run-tasks ctx s.state) i)
    Step-Inv {s} (configures v ctx e) i =
        let (disk, quiet) = config-quiet v ctx s.state in
        subst Inv (sym e) (Inv-quiet s _ disk quiet i)
    Step-Inv {s} (cleans_up ctx before j after serves at done e) i = subst Inv (sym e) (
        removed-Inv ctx j serves F s i before after _ at
          (λ js apart. cleanup_frame ctx j serves F js s.state apart)
          λ x st.
            (cleanup-stops F ctx j.adapter x s.state serves.0 (json x)
              (stored_for ctx j x s.state serves st) done).0)
    Step-Inv {s} (tries_again ctx before j after f serves at failed disk e) i =
        let (x, _, st, _, _) =
          Holding-split before j after i.kept s.state
            (subst (λ l. Holding l i.kept s.state) at i.holding) in
        subst Inv (sym e) (
          asked-Inv s _ x.task_arn disk
            (cleanup-tasks ctx j.adapter x s.state serves.0 (json x)
              (stored_for ctx j x s.state serves st))
            i)
    Step-Inv {s} (gives_up ctx before j after f serves at failed asked e) i = subst Inv (sym e) (
        removed-Inv ctx j serves F s i before after _ at
          (λ js apart. cleanup_frame ctx j serves F js s.state apart)
          λ x st.
            elim (cleanup-tasks ctx j.adapter x s.state serves.0 (json x)
              (stored_for ctx j x s.state serves st)) [
                | inl same ↦ absurd (asked (ap (λ v. v.1) same))
                | inr grown ↦ grown
              ])

    boot-Inv : (d : P.Disk) → Inv (boot P d)
    unfolding count
    boot-Inv d = record { kept = []; holding = tt; distinct = tt; accounted = λ a. omega arith }

    Reach-keeps : {s t : System P} → Inv s → Reach s t → Inv t
    Reach-keeps i here = i
    Reach-keeps i (next run st) = Step-Inv st (Reach-keeps i run)

    -- Whatever stages of whatever jobs ran, in any order: the live jobs have distinct metadata files,
    -- each holds a task, and every task was started at most as often as AWS was asked to stop it and it
    -- stands in those files. No stage panics, and a job is prepared only while no live job has its file; a
    -- cleanup that fails leaves the disk alone, or its job is given up once AWS was asked to stop a task.
    -- Assumed are a faithful file system, that ECS gives a started task an ARN that is not empty, and that
    -- every value survives JSON.
    pub Reach-Inv : (d : P.Disk) {s : System P} → Reach (boot P d) s → Inv s
    Reach-Inv d run = Reach-keeps (boot-Inv d) run

    -- Once no job is live, AWS was asked to stop every task as often as it was started, at least.
    -- The conditions are those of `Reach-Inv`.
    pub Reach-all_stopped :
        (d : P.Disk) {s : System P}
        → Reach (boot P d) s
        → s.live ≡ []
        → (a : Bytes) → count a (started s.state.calls) ≤ count a (stopped s.state.calls)
    unfolding count
    Reach-all_stopped d {s} run none_live a =
        let i = Reach-Inv d run in
        let nothing = no_data i.kept (subst (λ l. Holding l i.kept s.state) none_live i.holding) in
        ground (arith, i.accounted a)
      where
        no_data : (xs : List Data) → Holding [] xs s.state → xs ≡ []
        no_data [] h = refl
        no_data (x ∷ xs) h = absurd h
