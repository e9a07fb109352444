-- ===== src/Version.antt =====
-- The version of the driver (fargate.go): the package variables that the build sets, the record that
-- is made of them once, and the texts that show it. The clock, as `time.RFC3339` prints it, and what
-- `runtime` tells are parameters.
use gitlab_ci_fargate_arm_dr.Prelude.{
  ◌≡◌, refl, Bytes, codes, text_eq, if◌then◌else◌, Option, none, some, ◌++◌,
}

-- The package variables, and `runtime.Version()`, `GOOS`, `GOARCH`.
pub record Build : Type 0 where
  pub name : Bytes
  pub version : Bytes
  pub revision : Bytes
  pub branch : Bytes
  pub built : Bytes
  pub go_version : Bytes
  pub os : Bytes
  pub architecture : Bytes

pub record VersionInfo : Type 0 where
  pub name : Bytes
  pub version : Bytes
  pub revision : Bytes
  pub branch : Bytes
  pub go_version : Bytes
  pub built_at : Bytes
  pub os : Bytes
  pub architecture : Bytes

-- `fmt.Sprintf("%s %s (%s)", …)`
unfoldable pub user_agent : VersionInfo → Bytes
user_agent v = v.name ++ (codes " " ++ (v.version ++ (codes " (" ++ (v.branch ++ codes ")"))))

-- `fmt.Sprintf("%s (%s)", …)`
unfoldable pub short_line : VersionInfo → Bytes
short_line v = v.version ++ (codes " (" ++ (v.revision ++ codes ")"))

unfoldable pub extended : VersionInfo → Bytes
extended v =
    v.name
    ++ codes "\nVersion:      "
    ++ v.version
    ++ codes "\nGit revision: "
    ++ v.revision
    ++ codes "\nGit branch:   "
    ++ v.branch
    ++ codes "\nGO version:   "
    ++ v.go_version
    ++ codes "\nBuilt:        "
    ++ v.built_at
    ++ codes "\nOS/Arch:      "
    ++ v.os
    ++ codes "/"
    ++ v.architecture
    ++ codes "\n"

-- `Version`, with the package variable `version`, nil at first.
unfoldable pub get_version : Build → Bytes → Option VersionInfo → VersionInfo × Option VersionInfo
get_version b now (some v) = (v, some v)
get_version b now none =
    let built = if text_eq b.built (codes "now") then now else b.built in
    let v : VersionInfo = record {
      name = b.name;
      version = b.version;
      revision = b.revision;
      branch = b.branch;
      go_version = b.go_version;
      built_at = built;
      os = b.os;
      architecture = b.architecture;
    } in
    (v, some v)

-- The version is made once: a later call, at any time, gives the same.
get_version-kept :
    (b : Build) (now later : Bytes) (kept : Option VersionInfo)
    → let first = get_version b now kept in get_version b later first.1 ≡ first
unfolding get_version
get_version-kept b now later none = refl
get_version-kept b now later (some v) = refl
