-- ===== src/Tests/Exit.antt =====
-- A run stage whose script fails, the config stage, a cancelled script, and a wrapped error.
use gitlab_ci_fargate_arm_dr.Prelude.{codes, ◌≡◌, refl, Bytes, [], Option, none, some}
use gitlab_ci_fargate_arm_dr.Go.Errors.{external, is_kind}
use gitlab_ci_fargate_arm_dr.Platform.{Platform, State, ok, err, Wait}
use gitlab_ci_fargate_arm_dr.Runner.{init_adapter}
use gitlab_ci_fargate_arm_dr.Go.Decimal.{parse_int, parse_uint, parse_loop, with_sign}
use gitlab_ci_fargate_arm_dr.Commands.Custom.{execute_stage}
use gitlab_ci_fargate_arm_dr.Commands.Run.Errors.{ReturnsForeign, Foreign, ExitsBy, run_exit_code}
use gitlab_ci_fargate_arm_dr.Executor.{
  Executor, new_executor, connect, disconnect, execute_script, execute,
}
use gitlab_ci_fargate_arm_dr.Executor.Session.{run_script, close}
use gitlab_ci_fargate_arm_dr.Executor.Laws.{execute_cancelled_ok}
use gitlab_ci_fargate_arm_dr.Tests.Parts.{server}
use gitlab_ci_fargate_arm_dr.Commands.Run
use gitlab_ci_fargate_arm_dr.Commands.Config
use gitlab_ci_fargate_arm_dr.Version.{VersionInfo}
use gitlab_ci_fargate_arm_dr.Commands.Config.Laws.{Reports, custom_execute-Reports}
use gitlab_ci_fargate_arm_dr.Commands.Prepare.Stored.{job_manager}
use gitlab_ci_fargate_arm_dr.Tests.Machine.{machine, lookup, content_of}
use gitlab_ci_fargate_arm_dr.Tests.Stages.{run_stage, stage, adapter}
use gitlab_ci_fargate_arm_dr.Tests.Stored.{stored, task}
use gitlab_ci_fargate_arm_dr.Tests.Start.{sevens, seven}

-- The script ends with an error.
abbrev breaking : Platform
breaking = record machine {
  decode_data = λ content. ok task;
  ssh_run = λ h script. Wait.ended (err (external 9));
}

abbrev there : State breaking
there = record { calls = []; disk = stored.disk }

content_of-Foreign : (o : Option Bytes) → Foreign (content_of o)
unfolding is_kind
content_of-Foreign none = refl
content_of-Foreign (some content) = tt

breaking-ReturnsForeign : ReturnsForeign breaking
unfolding is_kind
breaking-ReturnsForeign = record {
  read_file = λ d path. content_of-Foreign (lookup d path);
  exists = λ d path. tt;
  decode_data = λ content. tt;
  parse_private_key = λ key. tt;
  ssh_dial = λ h address user key. tt;
  ssh_new_session = λ h. tt;
  ssh_run = λ h script. refl;
  ssh_close = λ h. tt;
}

variables_read : init_adapter sevens ≡ (seven, none)
unfolding init_adapter parse_int parse_uint parse_loop with_sign
variables_read = refl

run_exit_code_example :
    ExitsBy seven (execute_stage sevens (Run.custom_execute {P = breaking}) run_stage there).0
run_exit_code_example =
    run_exit_code breaking-ReturnsForeign sevens seven run_stage there variables_read

abbrev pub built : VersionInfo
built = record {
  name = codes "fargate";
  version = codes "dev";
  revision = codes "HEAD";
  branch = codes "HEAD";
  go_version = codes "go1.13";
  built_at = codes "now";
  os = codes "linux";
  architecture = codes "arm64";
}

custom_execute-Reports_example :
    Reports built
      (job_manager machine adapter (codes "/m")).filename
      (Config.custom_execute built stage stored)
      stored
custom_execute-Reports_example = custom_execute-Reports built stage adapter stored refl

-- The context is cancelled while the script runs.
abbrev cancelling : Platform
cancelling = record machine { ssh_run = λ h script. Wait.cancelled (ok tt) }

abbrev idle : Executor × State cancelling
idle = (new_executor, record { calls = []; disk = [] })

connected : (connect server idle).0 ≡ ok tt
unfolding connect
connected = refl

cancelled_then_closed :
    (disconnect (execute_script (codes "true") (connect server idle).1).1).0 ≡ ok tt
unfolding connect execute_script run_script close disconnect
cancelled_then_closed = refl

execute_cancelled_ok_example : (execute server (codes "true") idle).0 ≡ ok tt
execute_cancelled_ok_example =
    execute_cancelled_ok server (codes "true") idle.0 idle.1 connected refl refl
      cancelled_then_closed

-- A build failure in a wrapping.
