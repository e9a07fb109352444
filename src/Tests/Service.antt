-- ===== src/Tests/Service.antt =====
-- The SSH service on a host of concrete functions.
use gitlab_ci_fargate_arm_dr.Prelude.{
  ◌≡◌, ◌≢◌, refl, ℕ, suc, ◌+◌, ◌<◌, Bytes, codes, Bool, true, false, ◌||◌, ◌==◌, if◌then◌else◌,
  Option, none, some, List, [], ◌∷◌, ◌++◌, ◌⊎◌, arith,
}
use gitlab_ci_fargate_arm_dr.Go.Errors.{Error, wrapped, sentinel, Sentinel}
use gitlab_ci_fargate_arm_dr.Platform.{Result, ok, err}
use gitlab_ci_fargate_arm_dr.SshService.{Host, Key}
use gitlab_ci_fargate_arm_dr.SshService.Servers.{
  Service, ssh_failure, http_failure, start, watch, see_done, Reach, here, next,
}
use gitlab_ci_fargate_arm_dr.SshService.Servers as Servers
use gitlab_ci_fargate_arm_dr.SshService.Servers.Outcomes.{ends-Explained}
use gitlab_ci_fargate_arm_dr.Tests.Machine.{Files, lookup}

-- How many temporary directories there are, and the files.
record Disk : Type 0 where
  count : ℕ
  files : Files

abbrev temp_name : ℕ → Bytes
temp_name i = b'/' ∷ (1000 + i) ∷ []

abbrev has_slash : Bytes → Bool
has_slash [] = false
has_slash (c ∷ path) = (c == b'/') || has_slash path

abbrev dir : Bytes → Bytes
dir [] = []
dir (c ∷ path) = if has_slash path then c ∷ dir path else []

abbrev last : List Bytes → Bytes
last [] = []
last (x ∷ []) = x
last (_ ∷ y ∷ more) = last (y ∷ more)

abbrev found : Option Bytes → Result Bytes
found none = err (sentinel Sentinel.not_exist)
found (some content) = ok content

abbrev host : Host
host = record {
  World = Disk;
  temp_dir = λ prefix w. (ok (temp_name w.count), record w { count = suc w.count });
  run_command = λ words w. (
    ok tt,
    record w {
      files =
          (last words, last words)
          ∷ (last words ++ codes ".pub", last words ++ codes " public")
          ∷ w.files;
    },
  );
  command_string = last;
  read_file = λ w path. found (lookup w.files path);
  write_file = λ path content mode w. (ok tt, record w { files = (path, content) ∷ w.files });
  mkdir_all = λ name mode w. (ok tt, w);
  join = λ a b. a ++ (b'/' ∷ b);
  dir = dir;
  Response = Bytes;
  encode = λ x body. (ok tt, body ++ x.user_public_key);
  write_header = λ status body. body;
  print_error = λ format e body. body;
}

abbrev Present : Disk → Bytes → Type 0
Present w d = (i : ℕ) × (i < w.count) × (d ≡ temp_name i)

abbrev empty : Disk
empty = record { count = 0; files = [] }

abbrev key_in : ℕ → Key
key_in i = record {
  private_key_path = temp_name i ++ codes "/id_rsa";
  public_key_path = temp_name i ++ codes "/id_rsa.pub";
  private_key = temp_name i ++ codes "/id_rsa";
  public_key = temp_name i ++ codes "/id_rsa public";
}

-- A signal comes after `Notify`, and the context is cancelled.
abbrev cancelled : Service
cancelled = record start {
  watcher = record { pc = Servers.finished; buffered = false; cancelled = true };
}

has_registered : Servers.watching ≢ Servers.starting
has_registered e = ground arith

abbrev to_cancelled : Reach start cancelled
to_cancelled =
    next
      (next
        (next (next here (watch _ refl (Servers.register refl refl) refl))
          (watch _ refl (Servers.arrive has_registered refl) refl))
        (watch _ refl (Servers.take refl refl refl) refl))
      (watch _ refl (Servers.cancel refl refl) refl)

abbrev at_end : Service
at_end = record cancelled { main = Servers.returned }

ends-Explained_example :
    (at_end.main ≡ Servers.selecting)
    ⊎ ((at_end.main ≡ Servers.returned)
        × (at_end.watcher.cancelled ≡ true)
        × (at_end.watcher.pc ≡ Servers.finished))
    ⊎ ((r : Option Error) × (at_end.main ≡ Servers.panicked ssh_failure r)
        × (at_end.sshd ≡ Servers.done))
    ⊎ ((e : Error) × (at_end.main
          ≡ Servers.panicked http_failure (some (wrapped "HTTP server listener: %w" [] e))))
    ⊎ ((e : Error) × (at_end.main
          ≡ Servers.panicked http_failure (some (wrapped "HTTP server graceful shutdown: %w" [] e)))
        × (at_end.watcher.cancelled ≡ true))
ends-Explained_example = ends-Explained (next to_cancelled (see_done refl refl refl))
