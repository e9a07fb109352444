-- ===== src/Config.antt =====
-- The configuration (config/global.go). Texts are bytes; `Port` is a Go `int`.
use gitlab_ci_fargate_arm_dr.Prelude.{Bytes, Bool}
use gitlab_ci_fargate_arm_dr.Go.Int.{ℤ}

pub record Fargate : Type 0 where
  pub cluster : Bytes
  pub enable_public_ip : Bool
  pub platform_version : Bytes
  pub region : Bytes
  pub subnet : Bytes
  pub security_group : Bytes
  pub task_definition : Bytes

pub record TaskMetadata : Type 0 where
  pub directory : Bytes

pub record Ssh : Type 0 where
  pub username : Bytes
  pub port : ℤ

pub record Global : Type 0 where
  pub log_level : Bytes
  pub log_file : Bytes
  pub log_format : Bytes
  pub fargate : Fargate
  pub task_metadata : TaskMetadata
  pub ssh : Ssh
