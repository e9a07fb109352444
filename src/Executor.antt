-- ===== src/Executor.antt =====
-- The SSH executor (executors/ssh/executor.go) with its client and session
-- (executors/ssh/internal/). The struct `executor` is the record `Executor`: its client is the
-- address that it is connected to. The methods act on the executor and the driver's state.
pub mod Session
pub mod Client
pub mod Threads
pub mod Laws
use gitlab_ci_fargate_arm_dr.Prelude.{Bytes, codes, ◌++◌, Option, none, some, [], ◌∷◌}
use gitlab_ci_fargate_arm_dr.Go.Int.{ℤ}
use gitlab_ci_fargate_arm_dr.Go.Decimal.{fmt_int}
use gitlab_ci_fargate_arm_dr.Go.Errors.{Error, sentinel, Sentinel, typed, Kind}
use gitlab_ci_fargate_arm_dr.Platform.{
  Platform, State, Result, ok, err, panic, ConnectionSettings, Call,
}
use gitlab_ci_fargate_arm_dr.Platform.Effects.{
  Action, M, ◌>>=◌, ◌>>◌, pure, raise, lift, wrap, perform, defer_ignored, defer_reported,
}
use Session.{run_script, close}
use Client.{new_connect_client, new_session}
use Client

pub record Executor : Type 0 where
  pub client : Option Bytes

-- `NewExecutor`
abbrev pub new_executor : Executor
new_executor = record { client = none }

-- `ssh.ParsePrivateKey` with the driver's own error type around its error.
abbrev parsed_key : Result (Unit {0}) → Result (Unit {0})
parsed_key (ok _) = ok tt
parsed_key (err e) = err (typed Kind.invalid_ssh_key e)
parsed_key (panic t) = panic t

-- `fmt.Sprintf("%s:%d", …)`
unfoldable pub address : ConnectionSettings → Bytes
address c = c.hostname ++ (b':' ∷ fmt_int c.port)

abbrev pub Method : Platform → Type 0 → Type 0
Method P A = Action (Executor × State P) A

module _ {P : Platform} where
  abbrev on_platform : {A : Type 0} → M P A → Method P A
  on_platform m (x, s) = let (r, s') = m s in (r, (x, s'))

  abbrev set_client : Option Bytes → Method P (Unit {0})
  set_client c (x, s) = (ok tt, (record x { client = c }, s))

  abbrev get_client : Method P (Option Bytes)
  get_client (x, s) = (ok x.client, (x, s))

  unfoldable pub connect : ConnectionSettings → Method P (Unit {0})
  connect c = do
    lift (parsed_key (P.parse_private_key c.private_key))
    client ←
        wrap "connecting to server %q as user %q: %w" (address c ∷ c.username ∷ [])
          (on_platform (new_connect_client (address c) c.username c.private_key))
    set_client (some client)

  close_client : Option Bytes → Method P (Unit {0})
  close_client none = pure tt
  close_client (some _) = do
    wrap "disconnecting from server: %w" [] (on_platform Client.disconnect)
    set_client none

  unfoldable pub disconnect : Method P (Unit {0})
  unfolding close_client
  disconnect = do client ← get_client; close_client client

  run_on_client : Option Bytes → Bytes → Method P (Unit {0})
  unfolding run_script close
  run_on_client none script = raise (sentinel Sentinel.not_connected)
  run_on_client (some _) script = on_platform (do
    wrap "creating session for ssh client: %w" [] new_session
    defer_ignored (wrap "executing remote script: %w" [] (run_script script)) close)

  unfoldable pub execute_script : Bytes → Method P (Unit {0})
  unfolding run_on_client
  execute_script script = do client ← get_client; run_on_client client script

  unfoldable pub execute : ConnectionSettings → Bytes → Method P (Unit {0})
  execute c script = do
    wrap "connecting to server: %w" [] (connect c)
    defer_reported (wrap "executing script: %w" [] (execute_script script))
        (wrap "disconnecting from server: %w" [] disconnect)
