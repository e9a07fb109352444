-- ===== src/Runner/Global.antt =====
-- The package variable `adapter` of internal/runner/adapter.go, and `GetAdapter`.
use gitlab_ci_fargate_arm_dr.Prelude.{Option, none, some}
use gitlab_ci_fargate_arm_dr.Platform.{Result, ok, panic}
use gitlab_ci_fargate_arm_dr.Runner.{Adapter}

-- `GetAdapter`: a panic if `InitAdapter` was never called.
unfoldable pub get_adapter : Option Adapter → Result Adapter
get_adapter none = panic "Runner Adapter not initialized. Must call runner.InitAdapter() first!"
get_adapter (some a) = ok a
