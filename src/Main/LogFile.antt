-- ===== src/Main/LogFile.antt =====
-- The log file from `setLoggingToFile` to the hooks after the command (cmd/fargate/main.go).
use gitlab_ci_fargate_arm_dr.Prelude.{◌≡◌, ◌≢◌, sym, ◌∙◌, [], arith}
use gitlab_ci_fargate_arm_dr.Platform.{ok}
use gitlab_ci_fargate_arm_dr.Logging.File.{opened, open_storage}
use gitlab_ci_fargate_arm_dr.Cli.{execute_hooks}
use gitlab_ci_fargate_arm_dr.Main.{
  GlobalFlags, Process, Host, nop, close_storage_hook, or_flag, load_configuration_file,
  load_cli_args_env_vars, update_log_level, update_log_format, set_logging_to_file,
  before_functions, after_functions, close_hook,
}
use gitlab_ci_fargate_arm_dr.Main.Settings.{before_functions-steps}

module _ (h : Host) (global : GlobalFlags) where
  set_logging_to_file-opened :
      (p : Process)
      → (set_logging_to_file h global p).0 ≡ ok tt
      → or_flag p.config.log_file global.log_file ≢ []
      → let q = (set_logging_to_file h global p).1 in
        (q.log_file ≡ record { path = or_flag p.config.log_file global.log_file; storage = opened })
        × (q.close_log_file ≡ close_storage_hook)
  unfolding set_logging_to_file open_storage
  set_logging_to_file-opened p e named = ground arith

  -- The application registers the close hook of the moment in which it is set up, which does
  -- nothing. So if --log-file names a file and the hooks before the command succeed, the
  -- variable `closeLogFile` closes the file, but the hooks that run after the command, in any
  -- state with that file, leave it open.
  pub after_functions-opened :
      (start p q t : Process)
      → start.close_log_file ≡ nop
      → global.log_file ≢ []
      → execute_hooks (before_functions h global) p ≡ (ok tt, q)
      → t.log_file ≡ q.log_file
      → (q.close_log_file ≡ close_storage_hook)
        × ((execute_hooks (after_functions h global start) t).1.log_file
            ≡ record { path = global.log_file; storage = opened })
  unfolding after_functions execute_hooks close_hook
  after_functions-opened start p q t fresh named e same =
      let (_, _, _, filed, final) = before_functions-steps h global p q e in
      let p1 = (load_configuration_file h global p).1 in
      let p2 = (load_cli_args_env_vars h global p1).1 in
      let p3 = (update_log_level h global p2).1 in
      let p4 = (update_log_format h global p3).1 in
      let path : or_flag p4.config.log_file global.log_file ≡ global.log_file = ground arith in
      let (file, hook) = set_logging_to_file-opened p4 filed (λ n. named (sym path ∙ n)) in
      (ground arith, ground arith)
