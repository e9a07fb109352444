-- ===== src/Context.antt =====
-- What a command reads (internal/cli/context.go): the configuration, the arguments, and the
-- package variable `adapter` of internal/runner.
use gitlab_ci_fargate_arm_dr.Prelude.{Bytes, Option, List}
use gitlab_ci_fargate_arm_dr.Config.{Global}
use gitlab_ci_fargate_arm_dr.Runner.{Adapter}

pub record Context : Type 0 where
  pub config : Global
  pub args : List Bytes
  pub adapter : Option Adapter
