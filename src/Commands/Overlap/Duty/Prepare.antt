-- ===== src/Commands/Overlap/Duty/Prepare.antt =====
-- What the prepare stage owes (cmd/fargate/commands/custom/prepare.go), from its first step on.
use mathlib.Core.Path.{subst}
use gitlab_ci_fargate_arm_dr.Prelude.{
  inl, inr, String, ◌≡◌, ◌≢◌, refl, sym, ap, ◌∙◌, Bytes, Option, none, some, List, [], ◌∷◌, arith,
}
use gitlab_ci_fargate_arm_dr.Go.Errors.{Error, wrapped}
use gitlab_ci_fargate_arm_dr.Platform.{
  Platform, State, Result, ok, err, panic, KeyPair, IsFaithful, WritesReturn,
}
use gitlab_ci_fargate_arm_dr.Platform.Program.{◌>>=◌, Program, ret, on_ok, wrapped_result}
use gitlab_ci_fargate_arm_dr.Aws.Tasks.{IsInitialized, NamesTasks, Starts}
use gitlab_ci_fargate_arm_dr.Keys.{create}
use gitlab_ci_fargate_arm_dr.Context.{Context}
use gitlab_ci_fargate_arm_dr.Task.Metadata.Store.{Known, holds}
use gitlab_ci_fargate_arm_dr.Task.Metadata.Store.Refines.{IsSo, IsSo-Same}
use gitlab_ci_fargate_arm_dr.Task.Metadata.{get_full_file_path}
use gitlab_ci_fargate_arm_dr.Commands.Jobs.Effects.{own as own_manager}
use gitlab_ci_fargate_arm_dr.Commands.Frame.{
  SameFile, create-Spares, init_command-Spares, start_new_fargate_task-Spares,
}
use gitlab_ci_fargate_arm_dr.Commands.Jobs.{Job, file, Serves}
use gitlab_ci_fargate_arm_dr.Commands.Prepare.{
  PrepareCommand, start_new_fargate_task, stop_fargate_task_on_error, default_bit_size,
  init_command,
}
use gitlab_ci_fargate_arm_dr.Commands.Prepare.Steps.{
  create-IsQuiet, init_command-IsQuiet, init_command-IsInitialized,
}
use gitlab_ci_fargate_arm_dr.Commands.Prepare.Stored.{task_data, init_command-manager}
use gitlab_ci_fargate_arm_dr.Commands.Prepare.Tasks.{start_new_fargate_task-Starts}
use gitlab_ci_fargate_arm_dr.Commands.Overlap.Programs.{
  prepares, started_or_stopped, persist_or_stop, wait_or_stop, complete_task, finish_task,
  start_and_finish, create_key_and_start, prepare,
}
use gitlab_ci_fargate_arm_dr.Commands.Overlap.Duty.{
  Settled, Ends, Effect, Duty, after-Duty, Duty-mono, IsIdle, idle-Duty, quiet-Moves, started-Moves,
}
use gitlab_ci_fargate_arm_dr.Commands.Overlap.Duty.Guards.{own, Guards}
use gitlab_ci_fargate_arm_dr.Commands.Overlap.Duty.Writes.{wait_or_stop-Duty, persist_or_stop-Duty}

module _ (P : Platform) (c : PrepareCommand) (ready : IsInitialized c.aws_fargate) where
  -- A guarded step, and what comes after its success.
  then-Duty :
      {A : Type 0} (arn : Bytes) (ctx : Context) (p : Program P A) (f : A → Program P (Unit {0}))
      (k k' : Known)
      → Duty {P = P} (own P c) (Guards arn k') p (arn ∷ []) k
      → ((a : A) → Duty {P = P} (own P c) (Ends (prepares ctx)) (f a) (arn ∷ []) k')
      → Duty {P = P} (own P c) (Ends (prepares ctx)) (p >>= f) (arn ∷ []) k
  then-Duty {A = A} arn ctx p f k k' h g =
      after-Duty (own P c) (Guards arn k') (Ends (prepares ctx)) p (on_ok f) (arn ∷ []) k h go_on
    where
      go_on :
          (r : Result A) (o : List Bytes) (q : Known)
          → Guards arn k' r o q
          → Duty {P = P} (own P c) (Ends (prepares ctx)) (on_ok f r) o q
      go_on (ok a) o q (known, owed) =
          subst (λ v. Duty (own P c) (Ends (prepares ctx)) (f a) v q) (sym owed)
            (subst (λ v. Duty (own P c) (Ends (prepares ctx)) (f a) (arn ∷ []) v) (sym known) (g a))
      go_on (err _) o q h = h
      go_on (panic _) o q h = h

  -- From the task that runs on: it ends up in the file, or nothing is owed.
  complete_task-Duty :
      (arn : Bytes)
      → arn ≢ []
      → (ctx : Context) (key : Bytes) (k : Known) → IsFaithful P
      → WritesReturn P
      → Settled (arn ∷ []) k
      → Duty {P = P} (own P c) (Ends (prepares ctx)) (complete_task c arn key) (arn ∷ []) k
  unfolding complete_task
  complete_task-Duty arn named ctx key k F W settled =
      let f : String = "persisting container IP for later stages: %w" in
      then-Duty arn ctx (wait_or_stop c arn) (λ ip. persist_or_stop c f (task_data arn ip key)) k k
        (wait_or_stop-Duty P c arn ready named k settled)
        λ ip.
          Duty-mono (own P c) (Guards arn (holds (task_data arn ip key))) (Ends (prepares ctx))
            (persist_or_stop c f (task_data arn ip key)) (arn ∷ []) k (ended ip)
            (persist_or_stop-Duty P c arn ready named f ip key k F W)
    where
      ended :
          (ip : Bytes) (r : Result (Unit {0})) (o : List Bytes) (k' : Known)
          → Guards arn (holds (task_data arn ip key)) r o k'
          → Ends (prepares ctx) r o k'
      ended ip (ok _) o k' (known, owed) = (task_data arn ip key, known, owed)
      ended ip (err _) o k' h = h
      ended ip (panic _) o k' h = h

  finish_task-Duty :
      (arn : Bytes)
      → arn ≢ []
      → (ctx : Context) (key : Bytes) (k : Known) → IsFaithful P
      → WritesReturn P
      → Duty {P = P} (own P c) (Ends (prepares ctx)) (finish_task c arn key) (arn ∷ []) k
  unfolding finish_task
  finish_task-Duty arn named ctx key k F W =
      let x = task_data arn [] key in
      let f : String = "persisting task ARN for later stages: %w" in
      then-Duty arn ctx (persist_or_stop c f x) (λ _. complete_task c arn key) k (holds x)
        (persist_or_stop-Duty P c arn ready named f [] key k F W)
        λ _. complete_task-Duty arn named ctx key (holds x) F W (inr (x, refl, refl))

  -- Nothing to stop: no task was started, and its ARN is empty.
  stop_nothing-IsIdle :
      (arn : Bytes) (e : Error) → arn ≡ [] → IsIdle {P = P} (stop_fargate_task_on_error c arn e)
  unfolding stop_fargate_task_on_error
  stop_nothing-IsIdle arn e empty = record {
    spares = λ other s. ground arith;
    quiet = λ s. ground arith;
  }

  -- The two results of the start: a task that is owed, or none and an error.
  started-Duty :
      (ctx : Context) (key : Bytes) (k : Known) (s t : State P) (r : Result (Bytes × Option Error))
      → IsFaithful P
      → WritesReturn P
      → Starts (r, t) s
      → IsSo (own P c) k s
      → ((other : Bytes) → SameFile other s t)
      → (o' : List Bytes) × (k' : Known) × Effect (own P c) s t [] o' k'
        × Duty
            (own P c)
            (Ends (prepares ctx))
            (on_ok {P = P}
              (λ started. started_or_stopped c started >>= λ arn. finish_task c arn key)
              r)
            o'
            k'
  unfolding started_or_stopped
  started-Duty ctx key k s t (ok (arn, none)) F W (began, named) so same = (
    arn ∷ [],
    k,
    record {
      so = IsSo-Same (own P c) k s t (same (own P c)) so;
      others = λ other apart. same other;
      moves = started-Moves s t arn [] began;
    },
    finish_task-Duty arn named ctx key k F W,
  )
  started-Duty ctx key k s t (ok (arn, some e)) F W (began, empty) so same = (
    [],
    k,
    record {
      so = IsSo-Same (own P c) k s t (same (own P c)) so;
      others = λ other apart. same other;
      moves = quiet-Moves s t [] began;
    },
    idle-Duty (own P c) {A = Unit {0}} {B = Unit {0}} (Ends (prepares ctx))
        (stop_fargate_task_on_error c arn e)
        (λ r.
          on_ok {B = Bytes} (λ _. ret (err (wrapped "starting new Fargate task: %w" [] e))) r
          >>= λ arn. finish_task c arn key)
        [] k (stop_nothing-IsIdle arn e empty) (λ _ _ _. refl) (λ _. refl) (λ _. inl refl),
  )
  started-Duty ctx key k s t (err e) F W h so same = absurd h
  started-Duty ctx key k s t (panic x) F W h so same = (
    [],
    k,
    record {
      so = IsSo-Same (own P c) k s t (same (own P c)) so;
      others = λ other apart. same other;
      moves = quiet-Moves s t [] h;
    },
    inl refl,
  )

  start_and_finish-Duty :
      (ctx : Context) (keys : KeyPair) (k : Known)
      → IsFaithful P
      → WritesReturn P
      → NamesTasks P
      → Duty {P = P} (own P c) (Ends (prepares ctx)) (start_and_finish c keys) [] k
  unfolding start_and_finish
  start_and_finish-Duty ctx keys k F W N s so =
      started-Duty ctx keys.private_key k s (start_new_fargate_task c keys.public_key s).1
        (start_new_fargate_task c keys.public_key s).0 F W
        (start_new_fargate_task-Starts N c keys.public_key s) so
        λ other. start_new_fargate_task-Spares other c keys.public_key s

  create_key_and_start-Duty :
      (ctx : Context) (k : Known)
      → IsFaithful P
      → WritesReturn P
      → NamesTasks P
      → Duty {P = P} (own P c) (Ends (prepares ctx)) (create_key_and_start c) [] k
  unfolding create_key_and_start
  create_key_and_start-Duty ctx k F W N =
      idle-Duty (own P c) {A = KeyPair} {B = Unit {0}} (Ends (prepares ctx))
        (create default_bit_size)
        (λ r. on_ok (start_and_finish c) (wrapped_result "generating public/private keys: %w" [] r))
        [] k
        (record {
          spares = λ other. create-Spares other default_bit_size;
          quiet = create-IsQuiet default_bit_size;
        })
        (λ keys _ _. start_and_finish-Duty ctx keys k F W N) (λ _. refl) λ _. inl refl

module _ {P : Platform} (F : IsFaithful P) (W : WritesReturn P) (N : NamesTasks P) where
  -- A prepare of the job `j` that owes nothing and knows whatever it knows of the job's file.
  pub prepare-Duty :
      (ctx : Context) (j : Job) (k : Known)
      → Serves ctx j
      → Duty {P = P} (file P j) (Ends (prepares ctx)) (prepare ctx) [] k
  unfolding prepare
  prepare-Duty ctx j k (is, at) =
      idle-Duty (file P j) {A = PrepareCommand} {B = Unit {0}} (Ends (prepares ctx))
        (init_command ctx)
        (λ r. on_ok create_key_and_start (wrapped_result "initializing PrepareCommand: %w" [] r)) []
        k
        (record {
          spares = λ other. init_command-Spares other ctx;
          quiet = init_command-IsQuiet ctx;
        })
        (λ c s e.
          subst (λ path. Duty {P = P} path (Ends (prepares ctx)) (create_key_and_start c) [] k)
            (ap (get_full_file_path P.join) (init_command-manager ctx j.adapter c s is e)
              ∙ ap (get_full_file_path P.join) (own_manager P ctx j (is, at)))
            (create_key_and_start-Duty P c (init_command-IsInitialized ctx c s e) ctx k F W N))
        (λ _. refl) λ _. inl refl
