-- ===== src/Runner/Init.antt =====
-- What `InitAdapter` reads from the environment.
use gitlab_ci_fargate_arm_dr.Prelude.{
  inl, inr, refl, ◌≢◌, codes, [], ◌∷◌, String, ℕ, ◌≡◌, arith, ◌↔◌, none, Bytes, is_empty, ◌⊎◌,
  if◌then◌else◌,
}
use gitlab_ci_fargate_arm_dr.Go.Int.{ℤ, pos, bits, bits_64}
use gitlab_ci_fargate_arm_dr.Go.Decimal.{parse_int, value}
use gitlab_ci_fargate_arm_dr.Go.Decimal.Numeral.{Numeral, Fits, bits-IsWidth, parse_int-iff-Numeral}
use gitlab_ci_fargate_arm_dr.Runner.{
  Environment, Adapter, init_adapter, build_failure_exit_code_variable,
  system_failure_exit_code_variable, runner_short_token_variable, runner_project_url_variable,
  runner_pipeline_id_variable, runner_job_id_variable, unknown_value,
}

-- A text variable, or `unknown` where it is unset.
abbrev text_or_unknown : Bytes → Bytes
text_or_unknown s = if is_empty s then unknown_value else s

-- An int64 that the text `s` stands for, where an empty text stands for 0.
abbrev ParsesId : Bytes → ℤ → Type 0
ParsesId s n = (s ≡ []) × (n ≡ pos 0) ⊎ (parse_int s 64 ≡ value n)

-- The adapter holds what the parser answers for the six variables.
record Parses (env : Environment) (a : Adapter) : Type 0 where
  build_code :
      parse_int (env.get build_failure_exit_code_variable) (bits env.int_size)
      ≡ value a.build_failure_exit_code
  system_code :
      parse_int (env.get system_failure_exit_code_variable) (bits env.int_size)
      ≡ value a.system_failure_exit_code
  token : a.short_token ≡ text_or_unknown (env.get runner_short_token_variable)
  url : a.project_url ≡ text_or_unknown (env.get runner_project_url_variable)
  pipeline : ParsesId (env.get runner_pipeline_id_variable) a.pipeline_id
  job : ParsesId (env.get runner_job_id_variable) a.job_id

init_adapter-Parses :
    (env : Environment) (a : Adapter) → init_adapter env ≡ (a, none) → Parses env a
unfolding init_adapter
init_adapter-Parses env a h = ground arith

Parses-init_adapter :
    (env : Environment) (a : Adapter) → Parses env a → init_adapter env ≡ (a, none)
unfolding init_adapter parse_int
Parses-init_adapter env a h = ground arith

-- A text variable, or "unknown" where it is unset or empty.
abbrev pub ReadsText : Bytes → Bytes → Type 0
ReadsText s text = ((s ≡ []) × (text ≡ codes "unknown")) ⊎ ((s ≢ []) × (text ≡ s))

-- A decimal number that fits a width.
abbrev pub ReadsNumber : ℕ → Bytes → ℤ → Type 0
ReadsNumber w s z = Numeral s z × Fits w z

-- An int64, which is 0 where the variable is unset or empty.
abbrev pub ReadsId : Bytes → ℤ → Type 0
ReadsId s z = ((s ≡ []) × (z ≡ pos 0)) ⊎ ReadsNumber 64 s z

-- The adapter holds what the six variables say.
pub record Reads (env : Environment) (a : Adapter) : Type 0 where
  pub build_code :
      ReadsNumber
        (bits env.int_size)
        (env.get build_failure_exit_code_variable)
        a.build_failure_exit_code
  pub system_code :
      ReadsNumber
        (bits env.int_size)
        (env.get system_failure_exit_code_variable)
        a.system_failure_exit_code
  pub token : ReadsText (env.get runner_short_token_variable) a.short_token
  pub url : ReadsText (env.get runner_project_url_variable) a.project_url
  pub pipeline : ReadsId (env.get runner_pipeline_id_variable) a.pipeline_id
  pub job : ReadsId (env.get runner_job_id_variable) a.job_id

ReadsText-iff : (s text : Bytes) → (text ≡ text_or_unknown s) ↔ ReadsText s text
ReadsText-iff [] text = (λ e. inl (refl, e), λ h. ground arith)
ReadsText-iff (c ∷ s) text = (λ e. inr (λ blank. ground arith, e), λ h. ground arith)

ReadsId-iff : (s : Bytes) (z : ℤ) → ParsesId s z ↔ ReadsId s z
ReadsId-iff s z =
    let (there, back) = parse_int-iff-Numeral 64 s z (bits-IsWidth bits_64) in
    (
      λ h. elim h [ inl blank ↦ inl blank | inr e ↦ inr (there e) ],
      λ h. elim h [ inl blank ↦ inl blank | inr e ↦ inr (back e) ],
    )

Parses-iff-Reads : (env : Environment) (a : Adapter) → Parses env a ↔ Reads env a
Parses-iff-Reads env a =
    let code = λ (v : String) (z : ℤ).
      parse_int-iff-Numeral (bits env.int_size) (env.get v) z (bits-IsWidth env.int_size) in
    let build = code build_failure_exit_code_variable a.build_failure_exit_code in
    let system = code system_failure_exit_code_variable a.system_failure_exit_code in
    let token = ReadsText-iff (env.get runner_short_token_variable) a.short_token in
    let url = ReadsText-iff (env.get runner_project_url_variable) a.project_url in
    let pipeline = ReadsId-iff (env.get runner_pipeline_id_variable) a.pipeline_id in
    let job = ReadsId-iff (env.get runner_job_id_variable) a.job_id in
    (
      λ p. record {
        build_code = build.0 p.build_code;
        system_code = system.0 p.system_code;
        token = token.0 p.token;
        url = url.0 p.url;
        pipeline = pipeline.0 p.pipeline;
        job = job.0 p.job;
      },
      λ r. record {
        build_code = build.1 r.build_code;
        system_code = system.1 r.system_code;
        token = token.1 r.token;
        url = url.1 r.url;
        pipeline = pipeline.1 r.pipeline;
        job = job.1 r.job;
      },
    )

-- `InitAdapter` succeeds with the adapter `a` exactly when `a` holds what the variables say: both exit
-- codes are decimal texts, with or without a sign, of numbers that fit the platform's `int` of 32 or
-- 64 bits, both ids are such texts of an int64, or 0 where the text is empty, and the token and the
-- URL are the texts, or "unknown" where they are empty.
pub init_adapter-iff-Reads :
    (env : Environment) (a : Adapter) → (init_adapter env ≡ (a, none)) ↔ Reads env a
init_adapter-iff-Reads env a =
    let (there, back) = Parses-iff-Reads env a in
    (λ h. there (init_adapter-Parses env a h), λ r. Parses-init_adapter env a (back r))
