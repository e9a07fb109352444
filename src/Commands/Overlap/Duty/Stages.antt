-- ===== src/Commands/Overlap/Duty/Stages.antt =====
-- What any stage of a job owes.
use gitlab_ci_fargate_arm_dr.Prelude.{◌≡◌, sym, inl, inr, Bytes, List, []}
use mathlib.Core.Path.{subst}
use gitlab_ci_fargate_arm_dr.Platform.{
  Platform, Result, ok, err, panic, Data, IsFaithful, WritesReturn, RoundTrips,
}
use gitlab_ci_fargate_arm_dr.Aws.Tasks.{NamesTasks}
use gitlab_ci_fargate_arm_dr.Task.Metadata.Store.{Known}
use gitlab_ci_fargate_arm_dr.Commands.Jobs.{Job, file, Serves}
use gitlab_ci_fargate_arm_dr.Commands.Overlap.Programs.{
  Stage, prepares, runs, cleans_up, configures, program, prepare,
}
use gitlab_ci_fargate_arm_dr.Commands.Overlap.System.{context, Done, Follows}
use gitlab_ci_fargate_arm_dr.Commands.Overlap.Duty.{Ends, Settled, Duty}
use gitlab_ci_fargate_arm_dr.Commands.Overlap.Duty.Prepare.{prepare-Duty}
use gitlab_ci_fargate_arm_dr.Commands.Overlap.Duty.Run.{run_args-Duty, config-Duty}
use gitlab_ci_fargate_arm_dr.Commands.Overlap.Duty.Cleanup.{cleanup-Duty}

-- What a stage may owe where it begins: a prepare nothing, any other one task that is stored.
abbrev pub Begins : Stage → List Bytes → Known → Type 0
Begins (prepares ctx) o k = o ≡ []
Begins (runs ctx) o k = Settled o k
Begins (cleans_up ctx) o k = Settled o k
Begins (configures v ctx) o k = Settled o k

pub program-Duty :
    {P : Platform} (F : IsFaithful P) (W : WritesReturn P) (N : NamesTasks P)
    (json : (x : Data) → RoundTrips P x) (stage : Stage) (j : Job) (o : List Bytes) (k : Known)
    → Serves (context stage) j
    → Begins stage o k
    → Duty {P = P} (file P j) (Ends stage) (program stage) o k
unfolding program
program-Duty {P} F W N json (prepares ctx) j o k serves none =
    subst (λ q. Duty {P = P} (file P j) (Ends (prepares ctx)) (prepare ctx) q k) (sym none)
      (prepare-Duty F W N ctx j k serves)
program-Duty {P} F W N json (runs ctx) j o k serves settled =
    run_args-Duty P (file P j) ctx o k settled ctx.args
program-Duty F W N json (cleans_up ctx) j o k serves settled =
    cleanup-Duty F json ctx j o k serves settled
program-Duty {P} F W N json (configures v ctx) j o k serves settled =
    config-Duty P (file P j) ctx o k settled v

pub Done-nothing :
    (stage : Stage) (r : Result (Unit {0})) (o : List Bytes) (k : Known)
    → Done stage r
    → Ends stage r o k
    → o ≡ []
Done-nothing (prepares ctx) (ok _) o k d h = absurd d
Done-nothing (prepares ctx) (err _) o k d h = h
Done-nothing (prepares ctx) (panic _) o k d h = absurd d
Done-nothing (cleans_up ctx) (ok _) o k d h = h
Done-nothing (cleans_up ctx) (err _) o k d h = absurd d
Done-nothing (cleans_up ctx) (panic _) o k d h = absurd d
Done-nothing (runs ctx) r o k d h = absurd d
Done-nothing (configures v ctx) r o k d h = absurd d

pub Ends-Settled :
    (stage : Stage) (r : Result (Unit {0})) (o : List Bytes) (k : Known)
    → Ends stage r o k
    → Settled o k
Ends-Settled (prepares ctx) (ok _) o k h = inr h
Ends-Settled (prepares ctx) (err _) o k h = inl h
Ends-Settled (prepares ctx) (panic _) o k h = h
Ends-Settled (cleans_up ctx) (ok _) o k h = inl h
Ends-Settled (cleans_up ctx) (err _) o k h = h
Ends-Settled (cleans_up ctx) (panic _) o k h = h
Ends-Settled (runs ctx) r o k h = h
Ends-Settled (configures v ctx) r o k h = h

pub Follows-Begins :
    (stage : Stage) (r : Result (Unit {0})) (later : Stage) (o : List Bytes) (k : Known)
    → Follows stage r later
    → Ends stage r o k
    → Begins later o k
Follows-Begins stage r (prepares ctx) o k f h = Done-nothing stage r o k f h
Follows-Begins stage r (runs ctx) o k f h = Ends-Settled stage r o k h
Follows-Begins stage r (cleans_up ctx) o k f h = Ends-Settled stage r o k h
Follows-Begins stage r (configures v ctx) o k f h = Ends-Settled stage r o k h
