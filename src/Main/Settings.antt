-- ===== src/Main/Settings.antt =====
-- The settings that the hooks of cmd/fargate/main.go make of flags and configuration.
use mathlib.Core.Path.{subst, subst₂}
use gitlab_ci_fargate_arm_dr.Prelude.{
  ap, sym, ◌∙◌, ◌⊎◌, inl, inr, ◌≡◌, ◌≢◌, Bytes, codes, true, false, some, [], arith,
}
use gitlab_ci_fargate_arm_dr.Config.{Global}
use gitlab_ci_fargate_arm_dr.Platform.{ok}
use gitlab_ci_fargate_arm_dr.Platform.Effects.{Result-cases}
use gitlab_ci_fargate_arm_dr.Logging.{formatters, set_level, set_format}
use gitlab_ci_fargate_arm_dr.Logging.File.{open_storage}
use gitlab_ci_fargate_arm_dr.Cli.{execute_hooks, execute_hooks-cons_ok, nop_hook}
use gitlab_ci_fargate_arm_dr.Main.{
  GlobalFlags, Process, Host, or_flag, effective_log_level, with_flags, load_configuration_file,
  load_cli_args_env_vars, update_log_level, update_log_format, set_logging_to_file,
  before_functions,
}

-- A setting chosen by a text: as before where the text is empty, else what the text names.
abbrev pub Choice : {A : Type 0} → (Bytes → A → Type 0) → Bytes → A → A → Type 0
Choice names text before after = ((text ≡ []) × (after ≡ before)) ⊎ ((text ≢ []) × names text after)

move-Choice :
    {A : Type 0} (names : Bytes → A → Type 0) {text text' : Bytes} {before before' after after' : A}
    → text ≡ text'
    → before ≡ before'
    → after ≡ after'
    → Choice names text before after
    → Choice names text' before' after'
move-Choice names t b a (inl (blank, same)) = inl (sym t ∙ blank, sym a ∙ same ∙ b)
move-Choice names t b a (inr (named, found)) = inr (λ n. named (t ∙ n), subst₂ names t a found)

-- A flag that is not empty comes before the value of the configuration.
abbrev pub Overrides : Bytes → Bytes → Bytes → Type 0
Overrides flag value result = ((flag ≡ []) × (result ≡ value)) ⊎ ((flag ≢ []) × (result ≡ flag))

-- The name of the log level: --debug comes before --log-level, which comes before the configuration.
abbrev pub PicksLevel : GlobalFlags → Global → Bytes → Type 0
PicksLevel global cfg text =
    ((global.debug ≡ true) × (text ≡ codes "debug"))
    ⊎ ((global.debug ≡ false) × Overrides global.log_level cfg.log_level text)

or_flag-Overrides : (value flag : Bytes) → Overrides flag value (or_flag value flag)
or_flag-Overrides value flag = ground arith

effective_log_level-PicksLevel :
    (h : Host) (global : GlobalFlags) (cfg : Global)
    → PicksLevel global cfg (effective_log_level h global cfg)
effective_log_level-PicksLevel h global cfg = ground arith

module _ (h : Host) (global : GlobalFlags) where
  load_configuration_file_lem :
      (p : Process)
      → (load_configuration_file h global p).0 ≡ ok tt
      → (content : Bytes) × (cfg : Global) × (h.read_file global.config_file ≡ ok content)
        × (h.unmarshal content ≡ ok cfg)
        × ((load_configuration_file h global p).1 ≡ record p { config = cfg })
  unfolding load_configuration_file
  load_configuration_file_lem p e = elim (Result-cases (h.read_file global.config_file)) [
    | inl (content, read) ↦ elim (Result-cases (h.unmarshal content)) [
      | inl (cfg, parsed) ↦ (content, cfg, read, parsed, ground arith)
      | inr (inl (failure, bad)) ↦ absurd (ground arith)
      | inr (inr (text, bad)) ↦ absurd (ground arith)
    ]
    | inr (inl (failure, bad)) ↦ absurd (ground arith)
    | inr (inr (text, bad)) ↦ absurd (ground arith)
  ]

  update_log_level_lem :
      (p : Process)
      → (update_log_level h global p).0 ≡ ok tt
      → let level = effective_log_level h global p.config in
        let q = (update_log_level h global p).1 in
        Choice (λ text n. h.parse_level text ≡ ok n) level p.logger.level q.logger.level
        × (q.config ≡ p.config)
        × (q.logger.formatter ≡ p.logger.formatter)
  unfolding update_log_level set_level
  update_log_level_lem p e = ground arith

  update_log_format_lem :
      (p : Process)
      → (update_log_format h global p).0 ≡ ok tt
      → let format = or_flag p.config.log_format global.log_format in
        let q = (update_log_format h global p).1 in
        Choice (λ text f. formatters text ≡ some f) format p.logger.formatter q.logger.formatter
        × (q.config ≡ p.config)
        × (q.logger.level ≡ p.logger.level)
  unfolding update_log_format set_format
  update_log_format_lem p e = ground arith

  set_logging_to_file_lem :
      (p : Process)
      → let q = (set_logging_to_file h global p).1 in
        (q.config ≡ p.config)
        × (q.logger.level ≡ p.logger.level)
        × (q.logger.formatter ≡ p.logger.formatter)
  unfolding set_logging_to_file open_storage
  set_logging_to_file_lem p = ground arith

  -- How the hooks before a command succeed: the state before each of them that does something.
  pub before_functions-steps :
      (p q : Process)
      → execute_hooks (before_functions h global) p ≡ (ok tt, q)
      → let p1 = (load_configuration_file h global p).1 in
        let p2 = (load_cli_args_env_vars h global p1).1 in
        let p3 = (update_log_level h global p2).1 in
        let p4 = (update_log_format h global p3).1 in
        ((load_configuration_file h global p).0 ≡ ok tt)
        × ((update_log_level h global p2).0 ≡ ok tt)
        × ((update_log_format h global p3).0 ≡ ok tt)
        × ((set_logging_to_file h global p4).0 ≡ ok tt)
        × ((set_logging_to_file h global p4).1 ≡ q)
  unfolding before_functions
  before_functions-steps p q e =
      let (_, e1) = execute_hooks-cons_ok nop_hook _ p q e in
      let (loaded, e2) = execute_hooks-cons_ok (load_configuration_file h global) _ p q e1 in
      let p1 = (load_configuration_file h global p).1 in
      let (_, e3) = execute_hooks-cons_ok (load_cli_args_env_vars h global) _ p1 q e2 in
      let p2 = (load_cli_args_env_vars h global p1).1 in
      let (levelled, e4) = execute_hooks-cons_ok (update_log_level h global) _ p2 q e3 in
      let p3 = (update_log_level h global p2).1 in
      let (formatted, e5) = execute_hooks-cons_ok (update_log_format h global) _ p3 q e4 in
      let p4 = (update_log_format h global p3).1 in
      let (filed, e6) = execute_hooks-cons_ok (set_logging_to_file h global) _ p4 q e5 in
      let p5 = (set_logging_to_file h global p4).1 in
      let (_, e7) = execute_hooks-cons_ok nop_hook [] p5 q e6 in
      (loaded, levelled, formatted, filed, unfold execute_hooks in ap (λ v. v.1) e7)

  -- What the hooks before a command make of the configuration and the logger, if they succeed.
  pub before_functions_choices :
      (p q : Process)
      → execute_hooks (before_functions h global) p ≡ (ok tt, q)
      → (content : Bytes) × (cfg : Global) × (h.read_file global.config_file ≡ ok content)
        × (h.unmarshal content ≡ ok cfg)
        × (q.config ≡ with_flags h global cfg)
        × Choice
            (λ text n. h.parse_level text ≡ ok n)
            (effective_log_level h global cfg)
            p.logger.level
            q.logger.level
        × Choice
            (λ text f. formatters text ≡ some f)
            (or_flag cfg.log_format global.log_format)
            p.logger.formatter
            q.logger.formatter
  unfolding load_cli_args_env_vars
  before_functions_choices p q e =
      let (loaded, levelled, formatted, filed, final) = before_functions-steps p q e in
      let (content, cfg, read, parsed, first) = load_configuration_file_lem p loaded in
      let p1 = (load_configuration_file h global p).1 in
      let p2 = (load_cli_args_env_vars h global p1).1 in
      let p3 = (update_log_level h global p2).1 in
      let p4 = (update_log_format h global p3).1 in
      let (level, config3, formatter3) = update_log_level_lem p2 levelled in
      let (format, config4, level4) = update_log_format_lem p3 formatted in
      let (config5, level5, formatter5) = set_logging_to_file_lem p4 in
      let config : p2.config ≡ with_flags h global cfg =
        ap (λ (r : Process). with_flags h global r.config) first in
      (
        content,
        cfg,
        read,
        parsed,
        ap (λ (r : Process). r.config) (sym final) ∙ config5 ∙ config4 ∙ config3 ∙ config,
        move-Choice (λ text n. h.parse_level text ≡ ok n) (ap (effective_log_level h global) config)
            (ap (λ (r : Process). r.logger.level) first)
            (sym level4 ∙ sym level5 ∙ ap (λ (r : Process). r.logger.level) final) level,
        move-Choice (λ text f. formatters text ≡ some f)
            (ap (λ (c : Global). or_flag c.log_format global.log_format) (config3 ∙ config))
            (formatter3 ∙ ap (λ (r : Process). r.logger.formatter) first)
            (sym formatter5 ∙ ap (λ (r : Process). r.logger.formatter) final) format,
      )

  -- If the hooks before a command succeed, the configuration file was read and parsed to some `cfg`.
  -- The command sees `cfg`, but for the task definition and the platform version, where a flag that is
  -- not empty comes before the value of `cfg`. The log level is the one that "debug" names under
  -- --debug, else the one that --log-level names, else the one that `cfg` names, and it is as before
  -- where all are empty. The log format is the one that --log-format, else `cfg` names, and as before
  -- where both are empty.
  pub before_functions_settings :
      (p q : Process)
      → execute_hooks (before_functions h global) p ≡ (ok tt, q)
      → (content level format : Bytes) × (cfg : Global) × (h.read_file global.config_file
          ≡ ok content)
        × (h.unmarshal content ≡ ok cfg)
        × (q.config ≡ record cfg {
          fargate = record cfg.fargate {
            task_definition = q.config.fargate.task_definition;
            platform_version = q.config.fargate.platform_version;
          };
        })
        × Overrides global.task_definition cfg.fargate.task_definition
            q.config.fargate.task_definition
        × Overrides global.platform_version cfg.fargate.platform_version
            q.config.fargate.platform_version
        × PicksLevel global cfg level
        × Choice (λ text n. h.parse_level text ≡ ok n) level p.logger.level q.logger.level
        × Overrides global.log_format cfg.log_format format
        × Choice (λ text f. formatters text ≡ some f) format p.logger.formatter q.logger.formatter
  before_functions_settings p q e =
      let (content, cfg, read, parsed, config, level, format) = before_functions_choices p q e in
      let task : q.config.fargate.task_definition
          ≡ or_flag cfg.fargate.task_definition global.task_definition =
        ap (λ (c : Global). c.fargate.task_definition) config in
      let version : q.config.fargate.platform_version
          ≡ or_flag cfg.fargate.platform_version global.platform_version =
        ap (λ (c : Global). c.fargate.platform_version) config in
      (
        content,
        effective_log_level h global cfg,
        or_flag cfg.log_format global.log_format,
        cfg,
        read,
        parsed,
        config
            ∙ ap
                (λ (v : Bytes × Bytes). record cfg {
                  fargate = record cfg.fargate { task_definition = v.0; platform_version = v.1 };
                })
                (sym (
                  ap (λ (c : Global). (c.fargate.task_definition, c.fargate.platform_version))
                    config)),
        subst (Overrides global.task_definition cfg.fargate.task_definition) (sym task)
            (or_flag-Overrides _ _),
        subst (Overrides global.platform_version cfg.fargate.platform_version) (sym version)
            (or_flag-Overrides _ _),
        effective_log_level-PicksLevel h global cfg,
        level,
        or_flag-Overrides _ _,
        format,
      )
