-- ===== src/Logging/File.antt =====
-- The log file (internal/logging/storage/file.go). Its field `storage` is an interface value: `Open`
-- assigns the `*os.File` that the system call gives, so after a failed open the interface is not
-- nil but holds a nil pointer, on which the methods of `os.File` answer `os.ErrInvalid`.
use gitlab_ci_fargate_arm_dr.Prelude.{◌≡◌, ℕ, Option, some, Bytes, [], ◌∷◌, arith}
use gitlab_ci_fargate_arm_dr.Go.Errors.{Error, sentinel, Sentinel, wrapped}
use gitlab_ci_fargate_arm_dr.Platform.{Result, ok, err, panic}
use gitlab_ci_fargate_arm_dr.Platform.Effects.{Action, wrap}

pub data Storage : Type 0 where
  unset nil_file opened closed : Storage

pub record File : Type 0 where
  pub path : Bytes
  pub storage : Storage

-- `NewFile`
abbrev pub new_file : Bytes → File
new_file path = record { path = path; storage = unset }

-- The file that the system call gives is nil if it fails.
abbrev given : Result (Unit {0}) → Storage
given (ok _) = opened
given (err _) = nil_file
given (panic _) = unset

module _ (open_file : Bytes → Result (Unit {0})) (close_file : Storage → Result (Unit {0})) where
  -- `Open`; `openFile` is the first parameter.
  unfoldable pub open_storage : Action File (Unit {0})
  open_storage f =
      wrap "couldn't open log file %q for appending: %w" (f.path ∷ [])
        (λ (g : File). (open_file g.path, record g { storage = given (open_file g.path) })) f

  -- The `Close` of the interface value, where it is not nil.
  abbrev close_handle : Bytes → Storage → Result (Unit {0})
  close_handle path unset =
      err (
        wrapped "couldn't close log file %q: %w" (path ∷ [])
          (sentinel Sentinel.log_file_not_opened))
  close_handle path s = elim (close_file s) [
    | ok u ↦ ok u
    | err e ↦ err (wrapped "couldn't close log file %q: %w" (path ∷ []) e)
    | panic t ↦ panic t
  ]

  abbrev after_close : Storage → Storage
  after_close opened = closed
  after_close s = s

  -- `Close`
  unfoldable pub close_storage : Action File (Unit {0})
  close_storage f = (close_handle f.path f.storage, record f { storage = after_close f.storage })

  -- `Write`: how many bytes were written, and an error that may be nil.
  abbrev write_handle :
      (Storage → Bytes → ℕ × Option Error) → Bytes → Storage → Bytes → ℕ × Option Error
  write_handle write_file path unset content = (
    0,
    some (
        wrapped "couldn't write to log file %q: %w" (path ∷ [])
          (sentinel Sentinel.log_file_not_opened)),
  )
  write_handle write_file path s content = write_file s content

  unfoldable pub write_storage :
      (Storage → Bytes → ℕ × Option Error) → Bytes → File → (ℕ × Option Error) × File
  write_storage write_file content f = (write_handle write_file f.path f.storage content, f)

  -- Before `Open`, `Write` and `Close` fail with `ErrLogFileNotOpened`. If `Open` fails, they no longer
  -- do: `Write` answers what the system does for a nil file, and `Close` wraps the error of that.
  pub open_storage-failed :
      (write_file : Storage → Bytes → ℕ × Option Error) (path content : Bytes) (e d : Error)
      → open_file path ≡ err e
      → close_file nil_file ≡ err d
      → let new = new_file path in
        let (opening, f) = open_storage new in
        let not_opened = sentinel Sentinel.log_file_not_opened in
        (write_storage write_file content new
          ≡ ((0, some (wrapped "couldn't write to log file %q: %w" (path ∷ []) not_opened)), new))
        × ((close_storage new).0
            ≡ err (wrapped "couldn't close log file %q: %w" (path ∷ []) not_opened))
        × (opening ≡ err (wrapped "couldn't open log file %q for appending: %w" (path ∷ []) e))
        × (write_storage write_file content f ≡ (write_file nil_file content, f))
        × ((close_storage f).0 ≡ err (wrapped "couldn't close log file %q: %w" (path ∷ []) d))
  unfolding open_storage close_storage write_storage
  open_storage-failed write_file path content e d h g = ground arith
