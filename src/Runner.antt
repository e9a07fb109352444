-- ===== src/Runner.antt =====
-- The adapter to GitLab Runner (internal/runner/adapter.go, build_error.go): it reads the job's
-- variables from the environment and turns an error into the process's exit code.
-- The environment is a function from names to values, empty where unset (internal/env/env.go), and
-- the width of the platform's `int`, which `Atoi` reads the exit codes at.
pub mod Init
pub mod Global
pub mod ExitCode
use gitlab_ci_fargate_arm_dr.Prelude.{
  String, ◌≡◌, refl, Bytes, codes, [], ◌∷◌, Bool, true, false, is_empty, Option, none, some,
  if◌then◌else◌,
}
use gitlab_ci_fargate_arm_dr.Go.Int.{ℤ, pos, negsuc, IntSize, bits}
use gitlab_ci_fargate_arm_dr.Go.Decimal.{Parsed, value, bad_syntax, out_of_range, parse_int}
use gitlab_ci_fargate_arm_dr.Go.Errors.{Error, num_error, wrapped, typed, Kind, is_kind}

pub record Environment : Type 0 where
  pub get : String → Bytes
  pub int_size : IntSize

pub record Adapter : Type 0 where
  pub build_failure_exit_code : ℤ
  pub system_failure_exit_code : ℤ
  pub short_token : Bytes
  pub project_url : Bytes
  pub pipeline_id : ℤ
  pub job_id : ℤ

-- The names that GitLab Runner's `api` package gives the two exit code variables.
abbrev pub build_failure_exit_code_variable : String
build_failure_exit_code_variable = "BUILD_FAILURE_EXIT_CODE"

abbrev pub system_failure_exit_code_variable : String
system_failure_exit_code_variable = "SYSTEM_FAILURE_EXIT_CODE"

abbrev pub runner_short_token_variable : String
runner_short_token_variable = "CUSTOM_ENV_CI_RUNNER_SHORT_TOKEN"

abbrev pub runner_project_url_variable : String
runner_project_url_variable = "CUSTOM_ENV_CI_PROJECT_URL"

abbrev pub runner_pipeline_id_variable : String
runner_pipeline_id_variable = "CUSTOM_ENV_CI_PIPELINE_ID"

abbrev pub runner_job_id_variable : String
runner_job_id_variable = "CUSTOM_ENV_CI_JOB_ID"

abbrev pub unknown_value : Bytes
unknown_value = codes "unknown"

-- A number with the error that came with it, as `strconv` returns them; `-1` on failure.
abbrev parsed_or : String → String → String → Bytes → Parsed ℤ → ℤ × Option Error
parsed_or function format variable text (value z) = (z, none)
parsed_or function format variable text bad_syntax =
    (negsuc 0, some (wrapped format (text ∷ codes variable ∷ []) (num_error function text false)))
parsed_or function format variable text out_of_range =
    (negsuc 0, some (wrapped format (text ∷ codes variable ∷ []) (num_error function text true)))

get_exit_code_from_variable : Environment → String → ℤ × Option Error
get_exit_code_from_variable env variable =
    parsed_or "Atoi" "couldn't parse exit code %q from variable %q: %w" variable (env.get variable)
      (parse_int (env.get variable) (bits env.int_size))

get_variable_value_or_unknown : Environment → String → Bytes
get_variable_value_or_unknown env variable =
    if is_empty (env.get variable) then unknown_value else env.get variable

get_variable_int64_value : Environment → String → ℤ × Option Error
get_variable_int64_value env variable =
    if is_empty (env.get variable)
    then (pos 0, none)
    else parsed_or "ParseInt" "couldn't parse int64 value %q from variable %q: %w" variable
        (env.get variable) (parse_int (env.get variable) 64)

-- `new(Adapter)`
abbrev pub new_adapter : Adapter
new_adapter = record {
  build_failure_exit_code = pos 0;
  system_failure_exit_code = pos 0;
  short_token = [];
  project_url = [];
  pipeline_id = pos 0;
  job_id = pos 0;
}

-- The four stages of `InitAdapter`; each returns the adapter so far, and the error if it stops.
init_job_id : Environment → Adapter → Adapter × Option Error
init_job_id env a =
    let (n, e) = get_variable_int64_value env runner_job_id_variable in (record a { job_id = n }, e)

init_pipeline_id : Environment → Adapter → Adapter × Option Error
init_pipeline_id env a =
    let (n, e) = get_variable_int64_value env runner_pipeline_id_variable in
    let a' : Adapter = record a { pipeline_id = n } in
    elim e [ some err ↦ (a', some err) | none ↦ init_job_id env a' ]

init_system_exit_code : Environment → Adapter → Adapter × Option Error
init_system_exit_code env a =
    let (n, e) = get_exit_code_from_variable env system_failure_exit_code_variable in
    let a' : Adapter = record a { system_failure_exit_code = n } in
    elim e [
      | some err ↦ (a', some err)
      | none ↦ init_pipeline_id env (record a' {
        short_token = get_variable_value_or_unknown env runner_short_token_variable;
        project_url = get_variable_value_or_unknown env runner_project_url_variable;
      })
    ]

-- `InitAdapter`: what the package variable `adapter` holds when it returns, and the error.
unfoldable pub init_adapter : Environment → Adapter × Option Error
unfolding get_exit_code_from_variable get_variable_value_or_unknown get_variable_int64_value
    init_job_id init_pipeline_id init_system_exit_code
init_adapter env =
    let (n, e) = get_exit_code_from_variable env build_failure_exit_code_variable in
    let a : Adapter = record new_adapter { build_failure_exit_code = n } in
    elim e [ some err ↦ (a, some err) | none ↦ init_system_exit_code env a ]

-- The code that `GenerateExitFromError` passes to `os.Exit`.
unfoldable pub generate_exit_from_error : Adapter → Error → ℤ
generate_exit_from_error a err =
    if is_kind Kind.build_failure err then a.build_failure_exit_code else a.system_failure_exit_code

-- `NewBuildFailureError`
unfoldable pub new_build_failure_error : Error → Error
new_build_failure_error err = typed Kind.build_failure err
