-- ===== src/Commands/Overlap/Rest.antt =====
-- Overlapping processes where none is between two steps of a stage, and where none is left.
use mathlib.Core.Path.{subst}
use gitlab_ci_fargate_arm_dr.Prelude.{
  ◌≡◌, refl, inl, inr, ◌+◌, ◌≤◌, Bytes, ℕ, Option, none, some, List, [], ◌∷◌, arith,
}
use gitlab_ci_fargate_arm_dr.Platform.{Platform, State, Data, IsFaithful, WritesReturn, RoundTrips}
use gitlab_ci_fargate_arm_dr.Platform.Program.{Program, ret, call}
use gitlab_ci_fargate_arm_dr.Aws.Tasks.{started, stopped, NamesTasks}
use gitlab_ci_fargate_arm_dr.Task.Metadata.Laws.{Stores}
use gitlab_ci_fargate_arm_dr.Task.Metadata.Store.{Known}
use gitlab_ci_fargate_arm_dr.Task.Metadata.Store.Refines.{IsSo}
use gitlab_ci_fargate_arm_dr.Commands.Jobs.{file, manager, count}
use gitlab_ci_fargate_arm_dr.Commands.Jobs.Accounts.{Distinct}
use gitlab_ci_fargate_arm_dr.Commands.Overlap.Programs.{Stage}
use gitlab_ci_fargate_arm_dr.Commands.Overlap.System.{Process, System, boot, jobs, Reach}
use gitlab_ci_fargate_arm_dr.Commands.Overlap.Duty.{Ends, Settled, Duty}
use gitlab_ci_fargate_arm_dr.Commands.Overlap.Duty.Stages.{Ends-Settled}
use gitlab_ci_fargate_arm_dr.Commands.Overlap.Debts.{Debt, owing, AllKeep}
use gitlab_ci_fargate_arm_dr.Commands.Overlap.Invariant.{Reach-Inv}

module _ {P : Platform} where
  -- The stage ended, with success, an error or a panic.
  abbrev pub Rests : Program P (Unit {0}) → Type 0
  Rests (ret r) = Unit
  Rests (call m f) = ⊥

  abbrev pub AllRest : List (Process P) → Type 0
  AllRest [] = Unit
  AllRest (q ∷ qs) = Rests q.rest × AllRest qs

  -- The metadata file of the job holds the data, where there is any.
  abbrev pub Has : Process P → Option Data → State P → Type 0
  Has q none s = Unit
  Has q (some x) s = Stores (manager P q.job) x s

  abbrev pub AllHave : List (Process P) → List (Option Data) → State P → Type 0
  AllHave [] [] s = Unit
  AllHave [] (_ ∷ _) s = ⊥
  AllHave (_ ∷ _) [] s = ⊥
  AllHave (q ∷ qs) (x ∷ xs) s = Has q x s × AllHave qs xs s

abbrev pub arn_of : Option Data → List Bytes
arn_of none = []
arn_of (some x) = x.task_arn ∷ []

-- How often a task stands in the data.
abbrev pub stored : Bytes → List (Option Data) → ℕ
stored a [] = 0
stored a (x ∷ xs) = count a (arn_of x) + stored a xs

module _ {P : Platform} where
  Rests-Settled :
      (path : Bytes) (stage : Stage) (p : Program P (Unit {0})) (o : List Bytes) (k : Known)
      → Rests p
      → Duty {P = P} path (Ends stage) p o k
      → Settled o k
  Rests-Settled path stage (ret r) o k rests ends = Ends-Settled stage r o k ends
  Rests-Settled path stage (call m f) o k rests ends = absurd rests

  -- A debt where a process rests is for the task in its file.
  Settled-Has :
      (q : Process P) (o : List Bytes) (k : Known) (s : State P)
      → Settled o k
      → IsSo (file P q.job) k s
      → (x : Option Data) × Has q x s × ((a : Bytes) → count a o ≡ count a (arn_of x))
  unfolding count
  Settled-Has q o k s (inl nothing) so = (none, tt, λ a. ground arith)
  Settled-Has q o k s (inr (x, known, owed)) so =
      let (content, encodes, found, read) = subst (λ v. IsSo (file P q.job) v s) known so in
      (
        some x,
        record { content = content; encodes = encodes; found = found; holds = read },
        λ a. ground arith,
      )

  AllRest-AllHave :
      (qs : List (Process P)) (debts : List Debt) (s : State P)
      → AllRest qs
      → AllKeep qs debts s
      → (xs : List (Option Data)) × AllHave qs xs s × ((a : Bytes) → owing a debts ≡ stored a xs)
  AllRest-AllHave [] [] s rest keep = ([], tt, λ a. refl)
  AllRest-AllHave [] (d ∷ debts) s rest keep = absurd keep
  AllRest-AllHave (q ∷ qs) [] s rest keep = absurd keep
  AllRest-AllHave (q ∷ qs) ((o, k) ∷ debts) s (rests, rest) ((so, duty), keep) =
      let (xs, have, sum) = AllRest-AllHave qs debts s rest keep in
      let settled = Rests-Settled (file P q.job) q.stage q.rest o k rests duty in
      let (x, has, own) = Settled-Has q o k s settled so in
      (x ∷ xs, (has, have), λ a. ground (arith, own a, sum a))

  module _ (F : IsFaithful P) (W : WritesReturn P) (N : NamesTasks P)
      (json : (x : Data) → RoundTrips P x) where
    -- However the steps of the processes of whatever jobs take turns, once no process is between two
    -- steps of a stage, every task was started at most as often as AWS was asked to stop it and it
    -- stands in the metadata files of the jobs that have not departed; and no two of them share a
    -- file. This holds however the stages ended, with panics too. A step is one call of a component.
    -- A job arrives while no other has its file, its stages follow each other, prepare comes again only
    -- after a prepare that failed or a cleanup that succeeded, and it departs after one of these.
    -- Assumed are a faithful file system, that the JSON encoder and the write of a file do not panic,
    -- that ECS gives a started task an ARN that is not empty, and that every value survives JSON.
    pub AllRest-stored :
        (d : P.Disk) {s : System P}
        → Reach (boot P d) s
        → AllRest s.processes
        → (xs : List (Option Data)) × AllHave s.processes xs s.state
          × Distinct P (jobs s.processes)
          × ((a : Bytes)
              → count a (started s.state.calls) ≤ count a (stopped s.state.calls) + stored a xs)
    AllRest-stored d {s} run rest =
        let i = Reach-Inv F W N json d run in
        let (xs, have, sum) = AllRest-AllHave s.processes i.debts s.state rest i.keep in
        (xs, have, i.distinct, λ a. ground (arith, i.accounted a, sum a))

    -- However the steps of the processes of whatever jobs took turns, once all jobs have departed,
    -- AWS was asked to stop every task at least as often as it was started. The conditions are
    -- those of `AllRest-stored`.
    pub departed-stopped :
        (d : P.Disk) {s : System P}
        → Reach (boot P d) s
        → s.processes ≡ []
        → (a : Bytes) → count a (started s.state.calls) ≤ count a (stopped s.state.calls)
    departed-stopped d {s} run none_left a =
        let i = Reach-Inv F W N json d run in
        let nothing = no_debts i.debts (subst (λ l. AllKeep l i.debts s.state) none_left i.keep) in
        ground (arith, i.accounted a)
      where
        no_debts : (debts : List Debt) → AllKeep {P = P} [] debts s.state → debts ≡ []
        no_debts [] h = refl
        no_debts (x ∷ debts) h = absurd h
