-- ===== src/Lib.antt =====
-- The Fargate driver for GitLab Runner's Custom Executor.
--
-- GitLab Runner calls the driver once for each stage of a job: config, prepare, run (several times)
-- and cleanup. Each call is a process of its own. Prepare starts a task on AWS Fargate and stores its
-- ARN, its address and an SSH key in a metadata file; run reads the file and executes a script in the
-- task's container over SSH; cleanup reads the file, stops the task and deletes the file.
--
-- The files and the code that they model:
--   Prelude               Boolean tests, texts as lists of bytes, lemmas on them
--   Go                    what the code uses of Go: errors and `errors.Is`, int and int64, the decimal
--                         print and `strconv.ParseInt`, the hexadecimal print. `Go.Errors` also holds the
--                         error types of internal/runner/build_error.go and other files;
--                         Go.Errors.Is: the loop of `errors.Is` over their methods
--   Config                config/global.go (records)
--   Context               internal/cli/context.go
--   Runner                internal/runner/adapter.go, internal/env/env.go
--   Task.Filename         task/filename.go
--   Task.Metadata         task/metadata.go, internal/fs/fs.go
--   Task.Metadata.Store   the store of values by path that the metadata managers are held against
--   Platform              what the driver calls and does not implement, as the record `Platform`
--   Platform.Effects      the monad of the driver's functions
--   Aws                   aws/fargate.go
--   Executor              executors/ssh/executor.go; Executor.Client: executors/ssh/internal/client;
--                         Executor.Session: executors/ssh/internal/session
--   Executor.Threads      the same session as concurrent threads, with Signal:
--                         internal/signal/termination_handler.go
--   Keys                  internal/ssh/key_factory.go
--   Commands.*            cmd/fargate/commands/custom/*.go, a module for each stage
--   Commands.Custom       what each stage does first (custom.go there), and the end of `main` with the
--                         exit code (cmd/fargate/main.go); `execute_stage` and `exit_code`
--   Commands.Lifecycle    the stages of one job in sequence
--   Commands.Jobs         the stages of many jobs in any order, each run to its end before the next
--                         one; Commands.Frame: the files they touch
--   Commands.Overlap      the stages as programs of single steps (Overlap.Programs), the processes of
--                         many jobs that take turns step by step (Overlap.System, Overlap.Schedule),
--                         and what each process owes between its steps (Overlap.Duty)
--   Platform.Program      processes as trees of actions
--   Version               fargate.go
--   Logging               the settings of internal/logging/logrus.go; Logging.Shared: the loggers there
--                         that share them; Logging.File: internal/logging/storage/file.go
--   Cli                   internal/cli/hook.go
--   Cli.App               internal/cli/app.go, internal/cli/commands.go
--   Main                  cmd/fargate/main.go, `LoadFromFile` of config/global.go
--   Main.Application      `main` and `setUpApplication` there, with the category and the commands of
--                         the stages
--   SshService            dockerfiles/ssh_service/main.go: the set-up; SshService.Servers: its threads
--   Tests                 the theorems at concrete inputs, on a platform of concrete functions
-- A Go name `fooBar` is `foo_bar` here; the methods `init` of the commands are `init_command`.
-- Modules below these hold proofs.
--
-- State. A function of the driver takes the state to a result and a new state. The state is the
-- history of the calls that left the driver and the disk. A result is a value, an error (`error` not
-- nil) or a panic. The answers of AWS and SSH are functions of the history, so that they may change
-- from call to call. A hypothesis on the platform is named: `IsFaithful` (the file system), `NamesTasks`
-- (ECS gives a started task an ARN that is not empty), `RoundTrips` (a value survives JSON),
-- `WritesReturn` (the encoder and the write of a file do not panic), `KeepsLogger` (an entry of logrus
-- keeps its logger), `Selects` (urfave/cli runs the hooks and the action of the command line),
-- `IsOrdinary` (files and paths of the SSH service).
--
-- Interleaving. In Commands.Overlap a step of a process is one call of a component: of the AWS adapter,
-- the metadata manager, the key factory or the executor. Processes of different jobs take such steps in
-- any order; a call itself is not cut in two, also where it makes more than one request. The stages of
-- one job follow each other, as GitLab Runner calls them.
--
-- Bounds and fuel. Numbers are natural numbers; an int64 keeps its range (`InRange`). An `int` has the
-- 32 or 64 bits of the platform (`IntSize`), which `Atoi` reads at. The decimal print runs for at
-- most 20 rounds, enough for 64 bits as 10 ^ 20 > 2 ^ 64. The loop of `errors.Is` gets fuel for each
-- error of the chain. All other loops are structural.
--
-- Not modelled: what a log line says, and logging to it, which changes no state; the library
-- github.com/urfave/cli, which calls the hooks and the actions; the truncation of an exit code to 8 bits
-- by the operating system; a process that is killed between two steps; mocks and test helpers. SHA-256,
-- JSON, TOML, RSA, `filepath.Join` and logrus's level names and entries are parameters. The environment
-- map of a task is a list, in the order in which `range` visits it.
pub mod Prelude
pub mod Go
pub mod Config
pub mod Runner
pub mod Task
pub mod Platform
pub mod Aws
pub mod Executor
pub mod Keys
pub mod Context
pub mod Version
pub mod Commands
pub mod Logging
pub mod Cli
pub mod Signal
pub mod SshService
pub mod Main
pub mod Tests
