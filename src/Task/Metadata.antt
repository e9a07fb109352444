-- ===== src/Task/Metadata.antt =====
-- The metadata manager (task/metadata.go) over the file system (internal/fs/fs.go) and the JSON
-- encoder (internal/encoding/json.go). The record holds the two fields that name the file.
pub mod Laws
pub mod Store
use gitlab_ci_fargate_arm_dr.Prelude.{
  ℕ, if◌then◌else◌, Bytes, codes, ◌++◌, Bool, true, false, Option, none, some, [], ◌∷◌,
}
use gitlab_ci_fargate_arm_dr.Go.Errors.{sentinel, Sentinel}
use gitlab_ci_fargate_arm_dr.Runner.{Adapter}
use gitlab_ci_fargate_arm_dr.Runner.Global.{get_adapter}
use gitlab_ci_fargate_arm_dr.Task.Filename.{RunnerData, generate_filename}
use gitlab_ci_fargate_arm_dr.Platform.{Platform, State, Result, ok, err, panic, Data, Call}
use gitlab_ci_fargate_arm_dr.Platform.Effects.{M, ◌>>=◌, ◌>>◌, pure, raise, lift, wrap, on_disk}

pub record MetadataManager : Type 0 where
  pub directory : Bytes
  pub filename : Bytes

abbrev pub runner_data : Adapter → RunnerData
runner_data a = record {
  short_token = a.short_token;
  project_url = a.project_url;
  pipeline_id = a.pipeline_id;
  job_id = a.job_id;
}

-- `filepath.Join` is the first argument.
unfoldable pub get_full_file_path : (Bytes → Bytes → Bytes) → MetadataManager → Bytes
get_full_file_path join m = join m.directory (m.filename ++ codes ".json")

module _ {P : Platform} where
  -- `NewMetadataManager`; it panics if the adapter is not there.
  unfoldable pub new_metadata_manager : Option Adapter → Bytes → M P MetadataManager
  unfolding get_adapter
  new_metadata_manager adapter files_dir = do
    a ← lift (get_adapter adapter)
    pure (record { directory = files_dir; filename = generate_filename P.sha256 (runner_data a) })

  -- The calls of `fs.FS`.
  abbrev fs_exists : Bytes → M P Bool
  fs_exists path s = (P.exists s.disk path, s)

  abbrev fs_read_file : Bytes → M P Bytes
  fs_read_file path s = (P.read_file s.disk path, s)

  abbrev fs_write_file : Bytes → Bytes → ℕ → M P (Unit {0})
  fs_write_file path content mode =
      on_disk (λ d. P.write_file d path content mode) (Call.write_file path content mode)

  abbrev fs_remove : Bytes → M P (Unit {0})
  fs_remove path = on_disk (λ d. P.remove d path) (Call.remove_file path)

  unfoldable pub persist : MetadataManager → Data → M P (Unit {0})
  persist m x = do
    content ← wrap "encoding data to JSON: %w" [] (lift (P.encode_data x))
    wrap "writing file %q: %w" (get_full_file_path P.join m ∷ [])
        (fs_write_file (get_full_file_path P.join m) content 0o600)

  err_if_file_not_exists : MetadataManager → M P (Unit {0})
  err_if_file_not_exists m = do
    found ← fs_exists (get_full_file_path P.join m)
    if found then pure tt else raise (sentinel Sentinel.not_exist)

  unfoldable pub get : MetadataManager → M P Data
  unfolding err_if_file_not_exists
  get m = do
    wrap "trying to access file %q: %w" (get_full_file_path P.join m ∷ [])
        (err_if_file_not_exists m)
    content ←
        wrap "reading file %q: %w" (get_full_file_path P.join m ∷ [])
          (fs_read_file (get_full_file_path P.join m))
    wrap "decoding JSON: %w" [] (lift (P.decode_data content))

  unfoldable pub clear : MetadataManager → M P (Unit {0})
  unfolding err_if_file_not_exists
  clear m = do
    wrap "trying to access file %q: %w" (get_full_file_path P.join m ∷ [])
        (err_if_file_not_exists m)
    wrap "deleting file %q: %w" (get_full_file_path P.join m ∷ [])
        (fs_remove (get_full_file_path P.join m))
