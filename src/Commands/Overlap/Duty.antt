-- ===== src/Commands/Overlap/Duty.antt =====
-- What a process owes: the tasks that it started and that nothing else accounts for. The process
-- knows something of the metadata file of its job, and no other process changes that file; of the
-- rest of the state nothing is assumed between two steps.
pub mod Guards
pub mod Writes
pub mod Prepare
pub mod Cleanup
pub mod Run
pub mod Stages
use gitlab_ci_fargate_arm_dr.Prelude.{
  ◌≡◌, ◌≢◌, refl, ap, ◌⊎◌, ◌+◌, ◌≤◌, String, Bytes, List, [], ◌∷◌, arith,
}
use gitlab_ci_fargate_arm_dr.Go.Errors.{Error}
use gitlab_ci_fargate_arm_dr.Platform.{Platform, State, Result, ok, err, panic, Data}
use gitlab_ci_fargate_arm_dr.Platform.Effects.{M}
use gitlab_ci_fargate_arm_dr.Platform.Program.{Program, ret, call, after}
use gitlab_ci_fargate_arm_dr.Aws.Tasks.{started, stopped, tasks, IsQuiet}
use gitlab_ci_fargate_arm_dr.Task.Metadata.Store.{Known, holds}
use gitlab_ci_fargate_arm_dr.Task.Metadata.Store.Refines.{IsSo, IsSo-Same}
use gitlab_ci_fargate_arm_dr.Commands.Frame.{SameFile, Spares}
use gitlab_ci_fargate_arm_dr.Commands.Jobs.{count}
use gitlab_ci_fargate_arm_dr.Commands.Overlap.Programs.{
  Stage, prepares, runs, cleans_up, configures,
}

-- What a process owes and knows where it ends.
abbrev pub Post : Type 0 → Type 1
Post A = Result A → List Bytes → Known → Type 0

-- Nothing is owed, or one task that stands in the metadata file.
abbrev pub Settled : List Bytes → Known → Type 0
Settled o k = (o ≡ []) ⊎ ((x : Data) × (k ≡ holds x) × (o ≡ x.task_arn ∷ []))

-- A prepare that succeeded has put its task into the file, and one that failed owes nothing; nor
-- does a cleanup that succeeded.
abbrev pub Ends : Stage → Post (Unit {0})
Ends (prepares ctx) (ok _) o k = (x : Data) × (k ≡ holds x) × (o ≡ x.task_arn ∷ [])
Ends (prepares ctx) (err _) o k = o ≡ []
Ends (prepares ctx) (panic _) o k = Settled o k
Ends (cleans_up ctx) (ok _) o k = o ≡ []
Ends (cleans_up ctx) (err _) o k = Settled o k
Ends (cleans_up ctx) (panic _) o k = Settled o k
Ends (runs ctx) r o k = Settled o k
Ends (configures v ctx) r o k = Settled o k

module _ {P : Platform} where
  -- From `s` to `t` the debt grows by the tasks that were started, and shrinks at most by those
  -- that AWS was asked to stop.
  abbrev pub Moves : State P → State P → List Bytes → List Bytes → Type 0
  Moves s t o o' =
      (a : Bytes)
      → count a (started t.calls) + (count a (stopped s.calls) + count a o)
        ≤ count a (started s.calls) + (count a (stopped t.calls) + count a o')

  pub quiet-Moves : (s t : State P) (o : List Bytes) → tasks t.calls ≡ tasks s.calls → Moves s t o o
  quiet-Moves s t o h a = ground arith

  pub started-Moves :
      (s t : State P) (arn : Bytes) (o : List Bytes)
      → tasks t.calls ≡ (arn ∷ started s.calls, stopped s.calls)
      → Moves s t o (arn ∷ o)
  unfolding count
  started-Moves s t arn o h a = ground arith

  pub stopped-Moves :
      (s t : State P) (arn : Bytes) (o : List Bytes)
      → tasks t.calls ≡ (started s.calls, arn ∷ stopped s.calls)
      → Moves s t (arn ∷ o) o
  unfolding count
  stopped-Moves s t arn o h a = ground arith

  -- A stop that pays no debt.
  pub asked-Moves :
      (s t : State P) (arn : Bytes) (o : List Bytes)
      → tasks t.calls ≡ (started s.calls, arn ∷ stopped s.calls)
      → Moves s t o o
  unfolding count
  asked-Moves s t arn o h a = ground arith

  -- One step of a process whose file is `path`.
  pub record Effect (path : Bytes) (s t : State P) (o o' : List Bytes) (k' : Known) : Type 0 where
    pub so : IsSo path k' t
    pub others : (other : Bytes) → other ≢ path → SameFile other s t
    pub moves : Moves s t o o'

  -- An action that starts and stops nothing and leaves the files alone.
  pub record IsIdle {A : Type 0} (m : M P A) : Type 0 where
    pub spares : (other : Bytes) → Spares other m
    pub quiet : IsQuiet m

  pub IsIdle-of_disk :
      {A : Type 0} (m : M P A) → ((s : State P) → (m s).1.disk ≡ s.disk) → IsQuiet m → IsIdle m
  IsIdle-of_disk m disk quiet = record {
    spares =
        λ other s. (ap (λ d. P.exists d other) (disk s), ap (λ d. P.read_file d other) (disk s));
    quiet = quiet;
  }

  module _ (path : Bytes) where
    -- Whatever the others do between its steps, the process ends as `Q` says, and each of its steps
    -- has the effect that its debt accounts for.
    abbrev pub Duty : {A : Type 0} → Post A → Program P A → List Bytes → Known → Type 0
    Duty Q (ret r) o k = Q r o k
    Duty Q (call m f) o k =
        (s : State P)
        → IsSo path k s
        → (o' : List Bytes) × (k' : Known) × Effect path s (m s).1 o o' k'
          × Duty Q (f (m s).0) o' k'

    pub after-Duty :
        {A B : Type 0} (Q : Post A) (R : Post B) (p : Program P A) (f : Result A → Program P B)
        (o : List Bytes) (k : Known)
        → Duty Q p o k
        → ((r : Result A) (o' : List Bytes) (k' : Known) → Q r o' k' → Duty R (f r) o' k')
        → Duty R (after p f) o k
    after-Duty Q R (ret r) f o k h g = g r o k h
    after-Duty Q R (call m c) f o k h g = λ s so.
        let (o', k', effect, further) = h s so in
        (o', k', effect, after-Duty Q R (c (m s).0) f o' k' further g)

    pub Duty-mono :
        {A : Type 0} (Q R : Post A) (p : Program P A) (o : List Bytes) (k : Known)
        → ((r : Result A) (o' : List Bytes) (k' : Known) → Q r o' k' → R r o' k')
        → Duty Q p o k
        → Duty R p o k
    Duty-mono Q R (ret r) o k g h = g r o k h
    Duty-mono Q R (call m f) o k g h = λ s so.
        let (o', k', effect, further) = h s so in
        (o', k', effect, Duty-mono Q R (f (m s).0) o' k' g further)

    pub idle-Effect :
        {A : Type 0} (m : M P A) (s : State P) (o : List Bytes) (k : Known)
        → IsIdle m
        → IsSo path k s
        → Effect path s (m s).1 o o k
    idle-Effect m s o k h so = record {
      so = IsSo-Same path k s (m s).1 (h.spares path s) so;
      others = λ other apart. h.spares other s;
      moves = quiet-Moves s (m s).1 o (h.quiet s);
    }

    -- A program that goes on with a result, by the cases of the result.
    pub Duty-cases :
        {A B : Type 0} (R : Post B) (f : Result A → Program P B) (o : List Bytes) (k : Known)
        (r : Result A)
        → ((a : A) → r ≡ ok a → Duty R (f (ok a)) o k)
        → ((e : Error) → Duty R (f (err e)) o k)
        → ((t : String) → Duty R (f (panic t)) o k)
        → Duty R (f r) o k
    Duty-cases R f o k (ok a) good bad worst = good a refl
    Duty-cases R f o k (err e) good bad worst = bad e
    Duty-cases R f o k (panic t) good bad worst = worst t

    pub idle-Duty :
        {A B : Type 0} (R : Post B) (m : M P A) (f : Result A → Program P B) (o : List Bytes)
        (k : Known)
        → IsIdle m
        → ((a : A) (s : State P) → (m s).0 ≡ ok a → Duty R (f (ok a)) o k)
        → ((e : Error) → Duty R (f (err e)) o k)
        → ((t : String) → Duty R (f (panic t)) o k)
        → Duty R (call m f) o k
    idle-Duty R m f o k h good bad worst = λ s so.
        (o, k, idle-Effect m s o k h so, Duty-cases R f o k (m s).0 (λ a. good a s) bad worst)
