-- ===== src/Go/Errors.antt =====
-- Go error values, and `errors.Is` as `internal/runner/adapter.go` and the tests use it.
-- The error types of the driver are constructors: each one wraps an inner error, as their
-- `Unwrap` methods say (internal/runner/build_error.go, executors/ssh/executor.go,
-- internal/ssh/key_factory.go, cmd/fargate/commands/custom/config.go).
pub mod Is
use gitlab_ci_fargate_arm_dr.Prelude.{String, Bytes, Bool, true, false, ◌||◌, ℕ, List}

-- Errors that `errors.New` makes once, as package variables.
pub data Sentinel : Type 0 where
  not_initialized missing_required_arguments not_connected log_file_not_opened not_exist : Sentinel

-- The struct types with an `Is` method.
pub data Kind : Type 0 where
  build_failure invalid_ssh_key invalid_rsa_key write_config : Kind

pub data Error : Type 0 where
  -- Made outside the driver; the number tells such errors apart.
  external : ℕ → Error
  sentinel : Sentinel → Error
  -- `strconv.NumError`: the function, the text, and whether the value is out of range.
  num_error : String → Bytes → Bool → Error
  -- `fmt.Errorf` with `%w` last: the format, the other arguments, the wrapped error.
  wrapped : String → List Bytes → Error → Error
  -- `fmt.Errorf` with no `%w`.
  formatted : String → List Bytes → Error
  -- A struct with one inner error.
  typed : Kind → Error → Error

abbrev pub same_kind : Kind → Kind → Bool
same_kind build_failure build_failure = true
same_kind invalid_ssh_key invalid_ssh_key = true
same_kind invalid_rsa_key invalid_rsa_key = true
same_kind write_config write_config = true
same_kind _ _ = false

-- `errors.Is(err, &T{})` for a struct type `T` of the driver. The target is a new pointer, so
-- no error equals it; each error of the chain is asked by its `Is` method, which compares types.
unfoldable pub is_kind : Kind → Error → Bool
is_kind k (external n) = false
is_kind k (sentinel s) = false
is_kind k (num_error f t r) = false
is_kind k (wrapped f args e) = is_kind k e
is_kind k (formatted f args) = false
is_kind k (typed j e) = same_kind j k || is_kind k e
