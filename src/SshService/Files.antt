-- ===== src/SshService/Files.antt =====
-- What the set-up of the SSH service relies on of the file system, of `ssh-keygen` and of paths.
use gitlab_ci_fargate_arm_dr.Prelude.{◌≡◌, ◌≢◌, sym, ap, ◌∙◌, Bytes, codes, ◌++◌, ℕ}
use mathlib.Core.Path.{subst}
use gitlab_ci_fargate_arm_dr.Platform.{ok}
use gitlab_ci_fargate_arm_dr.SshService.{Host, keygen, authorized_keys_file_path}

-- A directory that `TempDir` has made.
pub record IsMade (H : Host) (d : Bytes) : Type 0 where
  pub prefix : Bytes
  pub before : H.World
  pub made : (H.temp_dir prefix before).0 ≡ ok d

pub record IsOrdinary (H : Host) : Type 1 where
  -- A directory is there. Nothing that the service calls removes one, and `TempDir` makes a new one.
  pub Exists : H.World → Bytes → Type 0
  pub temp_dir_fresh :
      (prefix d : Bytes) (w : H.World) → (H.temp_dir prefix w).0 ≡ ok d → Exists w d → ⊥
  pub temp_dir_makes :
      (prefix d : Bytes) (w : H.World)
      → (H.temp_dir prefix w).0 ≡ ok d
      → Exists (H.temp_dir prefix w).1 d
  pub temp_dir_keeps :
      (prefix d : Bytes) (w : H.World) → Exists w d → Exists (H.temp_dir prefix w).1 d
  pub keygen_keeps :
      (path d : Bytes) (w : H.World) → Exists w d → Exists (H.run_command (keygen path) w).1 d
  pub write_keeps :
      (path content d : Bytes) (mode : ℕ) (w : H.World)
      → Exists w d
      → Exists (H.write_file path content mode w).1 d
  -- Making directories changes no file; `ssh-keygen` writes its two files alone.
  pub read-temp_dir :
      (prefix path : Bytes) (w : H.World)
      → H.read_file (H.temp_dir prefix w).1 path ≡ H.read_file w path
  pub read-mkdir_all :
      (name path : Bytes) (mode : ℕ) (w : H.World)
      → H.read_file (H.mkdir_all name mode w).1 path ≡ H.read_file w path
  pub read-keygen_other :
      (path other : Bytes) (w : H.World)
      → other ≢ path
      → other ≢ path ++ codes ".pub"
      → H.read_file (H.run_command (keygen path) w).1 other ≡ H.read_file w other
  pub read-write :
      (path content : Bytes) (mode : ℕ) (w : H.World)
      → (H.write_file path content mode w).0 ≡ ok tt
      → H.read_file (H.write_file path content mode w).1 path ≡ ok content
  pub read-write_other :
      (path other content : Bytes) (mode : ℕ) (w : H.World)
      → other ≢ path
      → H.read_file (H.write_file path content mode w).1 other ≡ H.read_file w other
  -- `Dir` gives back the directory of a joined name; temporary directories are not in `/root`.
  pub dir-private : (d : Bytes) → IsMade H d → H.dir (H.join d (codes "id_rsa")) ≡ d
  pub dir-public : (d : Bytes) → IsMade H d → H.dir (H.join d (codes "id_rsa") ++ codes ".pub") ≡ d
  pub dir-config : (d : Bytes) → IsMade H d → H.dir (H.join d (codes "sshd_config")) ≡ d
  pub elsewhere : (d : Bytes) → IsMade H d → d ≢ H.dir authorized_keys_file_path

module _ {H : Host} (F : IsOrdinary H) where
  -- The files in a directory are as they were.
  abbrev pub Same : Bytes → H.World → H.World → Type 0
  Same d w v = (path : Bytes) → H.dir path ≡ d → H.read_file v path ≡ H.read_file w path

  -- Every directory that was there still is, with its files.
  pub record Spares (w v : H.World) : Type 0 where
    pub keeps : (d : Bytes) → F.Exists w d → F.Exists v d
    pub same : (d : Bytes) → F.Exists w d → Same d w v

  pub Spares-trans : {u v w : H.World} → Spares u v → Spares v w → Spares u w
  Spares-trans a b = record {
    keeps = λ d there. b.keeps d (a.keeps d there);
    same = λ d there path e. b.same d (a.keeps d there) path e ∙ a.same d there path e;
  }

  -- A path that stands in another directory is another path.
  pub apart : (path other d e : Bytes) → H.dir path ≡ d → H.dir other ≡ e → e ≢ d → other ≢ path
  apart path other d e p q ne same = ne (sym q ∙ ap H.dir same ∙ p)

  module _ (prefix d : Bytes) (w : H.World) (done : (H.temp_dir prefix w).0 ≡ ok d) where
    pub temp_dir-IsMade : IsMade H d
    temp_dir-IsMade = record { prefix = prefix; before = w; made = done }

    other : (e : Bytes) → F.Exists w e → e ≢ d
    other e there same = F.temp_dir_fresh prefix d w done (subst (F.Exists w) same there)

    -- What is written in the new directory spares the old ones.
    pub new_write-Spares :
        (name content : Bytes) (mode : ℕ)
        → H.dir name ≡ d
        → Spares w (H.write_file name content mode (H.temp_dir prefix w).1).1
    new_write-Spares name content mode p = record {
      keeps = λ e there.
          F.write_keeps name content e mode (H.temp_dir prefix w).1
            (F.temp_dir_keeps prefix e w there);
      same = λ e there path q.
          F.read-write_other name path content mode (H.temp_dir prefix w).1
            (apart name path d e p q (other e there))
          ∙ F.read-temp_dir prefix path w;
    }

    pub new_keygen-Spares :
        (path : Bytes)
        → H.dir path ≡ d
        → H.dir (path ++ codes ".pub") ≡ d
        → Spares w (H.run_command (keygen path) (H.temp_dir prefix w).1).1
    new_keygen-Spares name p p2 = record {
      keeps = λ e there.
          F.keygen_keeps name e (H.temp_dir prefix w).1 (F.temp_dir_keeps prefix e w there);
      same = λ e there path q.
          F.read-keygen_other name path (H.temp_dir prefix w).1
            (apart name path d e p q (other e there))
            (apart (name ++ codes ".pub") path d e p2 q (other e there))
          ∙ F.read-temp_dir prefix path w;
    }
