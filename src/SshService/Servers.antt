-- ===== src/SshService/Servers.antt =====
-- `run` of the SSH service (dockerfiles/ssh_service/main.go) as concurrent threads: `main` in its
-- `select`, the goroutine of `getSignalContext`, sshd, and the two goroutines of the HTTP server.
-- `wait` of each server has no buffer. What sshd, `ListenAndServe` and `Close` answer, and when, is
-- the environment's choice. The process ends with `main`, so a step is taken while it selects.
pub mod Outcomes
use gitlab_ci_fargate_arm_dr.Prelude.{◌≡◌, ◌≢◌, String, [], Bool, true, false, Option, none, some}
use gitlab_ci_fargate_arm_dr.Go.Errors.{Error, wrapped}

-- Where the goroutine of `getSignalContext` stands: before `Notify`, in its `select`, before
-- `cancel`, at its end. Its other case, a context that is done, needs the end of `main`.
pub data Pc : Type 0 where
  starting watching received finished : Pc

-- The channel has a buffer of one signal.
pub record Watcher : Type 0 where
  pub pc : Pc
  pub buffered : Bool
  pub cancelled : Bool

pub data WatcherStep (w v : Watcher) : Type 0 where
  register : w.pc ≡ starting → v ≡ record w { pc = watching } → WatcherStep w v
  arrive : w.pc ≢ starting → v ≡ record w { buffered = true } → WatcherStep w v
  take :
      w.pc ≡ watching
      → w.buffered ≡ true
      → v ≡ record w { pc = received; buffered = false }
      → WatcherStep w v
  cancel : w.pc ≡ received → v ≡ record w { pc = finished; cancelled = true } → WatcherStep w v

-- A goroutine of a server: it works, it waits to send an answer, it has nothing to send.
pub data Server : Type 0 where
  working : Server
  sending : Option Error → Server
  done : Server

-- `main`: at the `select`, returned, panicked with a format and an error that may be nil.
pub data Main : Type 0 where
  selecting returned : Main
  panicked : String → Option Error → Main

pub record Service : Type 0 where
  pub watcher : Watcher
  pub sshd : Server
  pub listener : Server
  pub closer : Server
  pub main : Main

-- `if err != nil { wait <- fmt.Errorf(format, err) }`
abbrev pub answer : String → Option Error → Server
answer format none = done
answer format (some e) = sending (some (wrapped format [] e))

abbrev pub ssh_failure : String
ssh_failure = "ssh server exited with error: %v"

abbrev pub http_failure : String
http_failure = "http server exited with error: %v"

abbrev pub start : Service
start = record {
  watcher = record { pc = starting; buffered = false; cancelled = false };
  sshd = working;
  listener = working;
  closer = working;
  main = selecting;
}

pub data Step (s t : Service) : Type 0 where
  watch :
      (w : Watcher)
      → s.main ≡ selecting
      → WatcherStep s.watcher w
      → t ≡ record s { watcher = w }
      → Step s t
  -- sshd ends by itself, or it does not start; `Run` may then also report the end of the context.
  sshd_exits :
      (r : Option Error)
      → s.main ≡ selecting
      → s.sshd ≡ working
      → t ≡ record s { sshd = sending r }
      → Step s t
  -- `CommandContext` kills sshd once the context is cancelled; `Run` then answers an error.
  sshd_killed :
      (e : Error)
      → s.main ≡ selecting
      → s.sshd ≡ working
      → s.watcher.cancelled ≡ true
      → t ≡ record s { sshd = sending (some e) }
      → Step s t
  listener_ends :
      (r : Option Error)
      → s.main ≡ selecting
      → s.listener ≡ working
      → t ≡ record s { listener = answer "HTTP server listener: %w" r }
      → Step s t
  closer_ends :
      (r : Option Error)
      → s.main ≡ selecting
      → s.closer ≡ working
      → s.watcher.cancelled ≡ true
      → t ≡ record s { closer = answer "HTTP server graceful shutdown: %w" r }
      → Step s t
  receive_sshd :
      (r : Option Error)
      → s.main ≡ selecting
      → s.sshd ≡ sending r
      → t ≡ record s { sshd = done; main = panicked ssh_failure r }
      → Step s t
  receive_listener :
      (r : Option Error)
      → s.main ≡ selecting
      → s.listener ≡ sending r
      → t ≡ record s { listener = done; main = panicked http_failure r }
      → Step s t
  receive_closer :
      (r : Option Error)
      → s.main ≡ selecting
      → s.closer ≡ sending r
      → t ≡ record s { closer = done; main = panicked http_failure r }
      → Step s t
  see_done :
      s.main ≡ selecting → s.watcher.cancelled ≡ true → t ≡ record s { main = returned } → Step s t

pub data Reach (s : Service) : Service → Type 0 where
  here : Reach s s
  next : {t u : Service} → Reach s t → Step t u → Reach s u
