-- ===== src/Task/Filename.antt =====
-- The name of the metadata file, which is also the host name that the driver reports
-- (task/filename.go). SHA-256 is a parameter, from bytes to bytes.
pub mod Laws
use gitlab_ci_fargate_arm_dr.Prelude.{Bytes, ◌∷◌, ◌++◌}
use gitlab_ci_fargate_arm_dr.Go.Int.{ℤ}
use gitlab_ci_fargate_arm_dr.Go.Decimal.{fmt_int}
use gitlab_ci_fargate_arm_dr.Go.Hex.{hex}

pub record RunnerData : Type 0 where
  pub short_token : Bytes
  pub project_url : Bytes
  pub pipeline_id : ℤ
  pub job_id : ℤ

-- `fmt.Sprintf("%s-%d-%d", …)`
unfoldable pub long_id : RunnerData → Bytes
long_id d = d.project_url ++ (b'-' ∷ (fmt_int d.pipeline_id ++ (b'-' ∷ fmt_int d.job_id)))

-- `GenerateFilename`: `fmt.Sprintf("%s-%x", …)`
unfoldable pub generate_filename : (Bytes → Bytes) → RunnerData → Bytes
unfolding long_id
generate_filename sha256 d = d.short_token ++ (b'-' ∷ hex (sha256 (long_id d)))
