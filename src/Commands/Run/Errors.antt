-- ===== src/Commands/Run/Errors.antt =====
-- Which errors the run stage returns, and the exit code that `main` makes of them.
use mathlib.Core.Path.{subst}
use gitlab_ci_fargate_arm_dr.Prelude.{
  sym, ◌≡◌, refl, inl, inr, String, Bytes, false, none, some, List, [], ◌∷◌, arith, Option-cases,
}
use gitlab_ci_fargate_arm_dr.Go.Errors.{Error, Kind, is_kind}
use gitlab_ci_fargate_arm_dr.Go.Int.{pos}
use gitlab_ci_fargate_arm_dr.Config.{Ssh}
use gitlab_ci_fargate_arm_dr.Runner.{Environment, Adapter, init_adapter, generate_exit_from_error}
use gitlab_ci_fargate_arm_dr.Runner.Global.{get_adapter}
use gitlab_ci_fargate_arm_dr.Platform.{
  Platform, State, Result, ok, err, panic, Data, Wait, ended, cancelled, ConnectionSettings,
  History, Call,
}
use gitlab_ci_fargate_arm_dr.Platform.Effects.{M, ◌>>=◌, wrap, Result-cases}
use gitlab_ci_fargate_arm_dr.Task.Metadata.{
  MetadataManager, get_full_file_path, get, new_metadata_manager,
}
use gitlab_ci_fargate_arm_dr.Executor.{
  Executor, new_executor, connect, disconnect, execute_script, execute, address,
}
use gitlab_ci_fargate_arm_dr.Executor.Session.{run_script, close}
use gitlab_ci_fargate_arm_dr.Context.{Context}
use gitlab_ci_fargate_arm_dr.Commands.Custom.{execute_stage, exit_code}
use gitlab_ci_fargate_arm_dr.Commands.Run.{
  RunCommand, settings, init_command, read_file_content, obtain_task_data,
  execute_script_on_task_container, execute_script_file, run_args, custom_execute,
}

-- An error whose chain holds no `BuildFailureError`.
abbrev pub IsForeign : Error → Type 0
IsForeign e = is_kind Kind.build_failure e ≡ false

abbrev pub Foreign : {A : Type 0} → Result A → Type 0
Foreign (err e) = IsForeign e
Foreign _ = Unit

abbrev pub ForeignWait : Wait → Type 0
ForeignWait (ended r) = Foreign r
ForeignWait (cancelled r) = Foreign r

-- The platform knows nothing of the driver's error types.
pub record ReturnsForeign (P : Platform) : Type 0 where
  pub read_file : (d : P.Disk) (path : Bytes) → Foreign (P.read_file d path)
  pub exists : (d : P.Disk) (path : Bytes) → Foreign (P.exists d path)
  pub decode_data : (content : Bytes) → Foreign (P.decode_data content)
  pub parse_private_key : (key : Bytes) → Foreign (P.parse_private_key key)
  pub ssh_dial : (h : History) (address user key : Bytes) → Foreign (P.ssh_dial h address user key)
  pub ssh_new_session : (h : History) → Foreign (P.ssh_new_session h)
  pub ssh_run : (h : History) (script : Bytes) → ForeignWait (P.ssh_run h script)
  pub ssh_close : (h : History) → Foreign (P.ssh_close h)

-- How the process of a run stage ends, by the result of the stage.
abbrev pub ExitsBy : Adapter → Result (Unit {0}) → Type 0
ExitsBy a (ok u) = exit_code (some a) (ok u) ≡ ok (pos 0)
ExitsBy a (err e) = exit_code (some a) (err e) ≡ ok a.system_failure_exit_code
ExitsBy a (panic t) = exit_code (some a) (panic t) ≡ panic t

ExitsBy-of_Foreign : (a : Adapter) (r : Result (Unit {0})) → Foreign r → ExitsBy a r
unfolding exit_code get_adapter generate_exit_from_error
ExitsBy-of_Foreign a (ok _) h = refl
ExitsBy-of_Foreign a (err e) h = ground arith
ExitsBy-of_Foreign a (panic t) h = refl

module _ {P : Platform} (F : ReturnsForeign P) where
  get-Foreign : (m : MetadataManager) (s : State P) → Foreign (get m s).0
  unfolding get is_kind
  get-Foreign m s =
      let path = get_full_file_path P.join m in
      let looked = F.exists s.disk path in
      let answer = F.read_file s.disk path in
      elim (Result-cases (P.read_file s.disk path)) [
        | inl (content, e) ↦ let decoded = F.decode_data content in ground (arith, looked, decoded)
        | inr (inl (failure, e)) ↦ ground (arith, looked, answer)
        | inr (inr (text, e)) ↦ ground (arith, looked)
      ]

  connect-Foreign :
      (c : ConnectionSettings) (x : Executor) (s : State P) → Foreign (connect c (x, s)).0
  unfolding connect is_kind
  connect-Foreign c x s = ground (
    arith,
    F.parse_private_key c.private_key,
    F.ssh_dial s.calls (address c) c.username c.private_key,
  )

  disconnect-Foreign : (x : Executor) (s : State P) → Foreign (disconnect (x, s)).0
  unfolding disconnect is_kind
  disconnect-Foreign x s = ground (arith, F.ssh_close s.calls)

  execute_script-Foreign :
      (script : Bytes) (x : Executor) (s : State P) → Foreign (execute_script script (x, s)).0
  unfolding execute_script run_script close is_kind
  execute_script-Foreign script x s =
      ground (arith, F.ssh_new_session s.calls, F.ssh_run (Call.open_session ∷ s.calls) script)

  execute-Foreign :
      (c : ConnectionSettings) (script : Bytes) (x : Executor) (s : State P)
      → Foreign (execute c script (x, s)).0
  unfolding execute is_kind
  execute-Foreign c script x s =
      let (x1, s1) = (connect c (x, s)).1 in
      let (x2, s2) = (execute_script script (x1, s1)).1 in
      ground (
        arith,
        connect-Foreign c x s,
        execute_script-Foreign script x1 s1,
        disconnect-Foreign x2 s2,
      )

  execute_script_on_task_container-Foreign :
      (x : Data) (ssh : Ssh) (script : Bytes) (s : State P)
      → Foreign (execute_script_on_task_container x ssh script s).0
  unfolding execute_script_on_task_container is_kind
  execute_script_on_task_container-Foreign x ssh script s =
      ground (arith, execute-Foreign (settings x ssh) script new_executor s)

  obtain_task_data-Foreign : (c : RunCommand) (s : State P) → Foreign (obtain_task_data c s).0
  unfolding obtain_task_data is_kind
  obtain_task_data-Foreign c s = ground (arith, get-Foreign c.metadata_manager s)

  >>=-Foreign :
      {A B : Type 0} (m : M P A) (f : A → M P B) (s : State P)
      → Foreign (m s).0
      → ((a : A) (t : State P) → Foreign (f a t).0)
      → Foreign ((m >>= f) s).0
  >>=-Foreign m f s h k = elim (Result-cases (m s).0) [
    | inl (a, e) ↦ ground (arith, k a (m s).1)
    | inr (inl (failure, e)) ↦ ground arith
    | inr (inr (text, e)) ↦ ground arith
  ]

  wrap-Foreign :
      {A : Type 0} (format : String) (args : List Bytes) (m : M P A) (s : State P)
      → Foreign (m s).0
      → Foreign (wrap format args m s).0
  unfolding is_kind
  wrap-Foreign format args m s h = ground arith

  init_command-Foreign : (ctx : Context) (s : State P) → Foreign (init_command ctx s).0
  unfolding init_command new_metadata_manager get_adapter
  init_command-Foreign ctx s = elim (Option-cases ctx.adapter) [
    | inl e ↦ ground arith
    | inr (a, e) ↦ ground arith
  ]

  read_file_content-Foreign : (path : Bytes) (s : State P) → Foreign (read_file_content path s).0
  unfolding read_file_content is_kind
  read_file_content-Foreign path s = ground (arith, F.read_file s.disk path)

  execute_script_file-Foreign :
      (ctx : Context) (path : Bytes) (s : State P) → Foreign (execute_script_file ctx path s).0
  unfolding execute_script_file
  execute_script_file-Foreign ctx path s =
      let run : RunCommand → Bytes → Data → M P (Unit {0}) = λ c script x.
        wrap "executing the script on the remote host: %w" []
          (execute_script_on_task_container x c.cfg.ssh script) in
      let obtained : RunCommand → M P Data =
        λ c. wrap "obtaining information about the running task: %w" [] (obtain_task_data c) in
      let read : M P Bytes = wrap "reading the script content: %w" [] (read_file_content path) in
      >>=-Foreign {A = RunCommand} (init_command ctx)
        (λ c. read >>= λ script. obtained c >>= run c script) s (init_command-Foreign ctx s)
        λ c t.
          >>=-Foreign {A = Bytes} read (λ script. obtained c >>= run c script) t
            (wrap-Foreign "reading the script content: %w" [] (read_file_content path) t
              (read_file_content-Foreign path t))
            λ script u.
              >>=-Foreign {A = Data} (obtained c) (run c script) u
                (wrap-Foreign "obtaining information about the running task: %w" []
                  (obtain_task_data c) u (obtain_task_data-Foreign c u))
                λ x v.
                  wrap-Foreign "executing the script on the remote host: %w" []
                    (execute_script_on_task_container x c.cfg.ssh script) v
                    (execute_script_on_task_container-Foreign x c.cfg.ssh script v)

  run_args-Foreign :
      (ctx : Context) (args : List Bytes) (s : State P) → Foreign (run_args ctx args s).0
  unfolding run_args is_kind
  run_args-Foreign ctx [] s = refl
  run_args-Foreign ctx (path ∷ []) s = refl
  run_args-Foreign ctx (path ∷ stage ∷ more) s = execute_script_file-Foreign ctx path s

  custom_execute-Foreign : (ctx : Context) (s : State P) → Foreign (custom_execute ctx s).0
  unfolding custom_execute
  custom_execute-Foreign ctx s = run_args-Foreign ctx ctx.args s

  -- A process whose variables are readable and whose run stage fails exits with the system
  -- failure code, also where it is the script that failed. If the stage succeeds the code is 0,
  -- and a panic stays one. The platform's errors are assumed to be none of the driver's own.
  pub run_exit_code :
      (env : Environment) (a : Adapter) (ctx : Context) (s : State P)
      → init_adapter env ≡ (a, none)
      → ExitsBy a (execute_stage env custom_execute ctx s).0
  unfolding execute_stage
  run_exit_code env a ctx s h =
      let ctx' : Context = record ctx { adapter = some a } in
      let same : execute_stage env custom_execute ctx s ≡ custom_execute ctx' s = ground arith in
      subst (λ v. ExitsBy a v.0) (sym same)
        (ExitsBy-of_Foreign a (custom_execute ctx' s).0 (custom_execute-Foreign ctx' s))
