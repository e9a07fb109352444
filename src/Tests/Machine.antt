-- ===== src/Tests/Machine.antt =====
-- A platform of concrete functions: a disk that is a list of files, an encoding of the task's data,
-- and services that answer every request.
use mathlib.Core.Path.{subst}
use gitlab_ci_fargate_arm_dr.Prelude.{
  ℕ, suc, ◌≡◌, ◌≢◌, refl, sym, Bytes, codes, text_eq, text_eq_iff, Bool, true, false, Option, none,
  some, List, [], ◌∷◌, ◌++◌, inl, inr, Bool-cases, if◌then◌else◌, arith,
}
use gitlab_ci_fargate_arm_dr.Go.Errors.{external}
use gitlab_ci_fargate_arm_dr.Platform.{
  Platform, State, Result, ok, err, Data, Wait, IsFaithful, WritesReturn, RoundTrips,
  TaskDescription,
}
use gitlab_ci_fargate_arm_dr.Aws.Tasks.{NamesTasks}

abbrev pub Files : Type 0
Files = List (Bytes × Bytes)

-- The content of a file.
abbrev pub lookup : Files → Bytes → Option Bytes
lookup [] path = none
lookup ((name, content) ∷ more) path = if text_eq name path then some content else lookup more path

abbrev pub without : Files → Bytes → Files
without [] path = []
without ((name, content) ∷ more) path =
    let rest = without more path in if text_eq name path then rest else (name, content) ∷ rest

abbrev pub content_of : Option Bytes → Result Bytes
content_of none = err (external 2)
content_of (some content) = ok content

abbrev pub is_some : Option Bytes → Bool
is_some none = false
is_some (some _) = true

-- A text as a one before each byte, and a zero at the end.
abbrev pub chunk : Bytes → Bytes → Bytes
chunk [] rest = 0 ∷ rest
chunk (b ∷ bs) rest = 1 ∷ b ∷ chunk bs rest

abbrev pub grown : ℕ → Option (Bytes × Bytes) → Option (Bytes × Bytes)
grown b none = none
grown b (some (bs, rest)) = some (b ∷ bs, rest)

abbrev pub read_chunk : Bytes → Option (Bytes × Bytes)
read_chunk [] = none
read_chunk (ℕ.zero ∷ rest) = some ([], rest)
read_chunk (suc n ∷ []) = none
read_chunk (suc n ∷ b ∷ rest) = grown b (read_chunk rest)

read_chunk-chunk : (xs rest : Bytes) → read_chunk (chunk xs rest) ≡ some (xs, rest)
read_chunk-chunk [] rest = refl
read_chunk-chunk (b ∷ bs) rest = ground (arith, read_chunk-chunk bs rest)

abbrev pub encode : Data → Bytes
encode x = chunk x.task_arn (chunk x.container_ip (chunk x.private_key []))

abbrev pub decode : Bytes → Result Data
decode content = elim (read_chunk content) [
  | none ↦ err (external 3)
  | some (arn, more) ↦ elim (read_chunk more) [
    | none ↦ err (external 3)
    | some (ip, last) ↦ elim (read_chunk last) [
      | none ↦ err (external 3)
      | some (key, _) ↦ ok (record { task_arn = arn; container_ip = ip; private_key = key })
    ]
  ]
]

abbrev pub description : TaskDescription
description = record {
  containers =
      record { network_interfaces = record { private_ipv4_address = some (codes "10.0.0.7") } ∷ [] }
      ∷ [];
  attachments = [];
}

-- Every request succeeds; the task that is started is `arn:1`.
abbrev pub machine : Platform
machine = record {
  session_creator = λ h region. ok tt;
  ecs_run_task = λ h input. ok (some (codes "arn:1") ∷ []);
  ecs_wait_until_tasks_running = λ h cluster arn. ok tt;
  ecs_stop_task = λ h cluster arn. ok tt;
  ecs_describe_tasks = λ h cluster arn. ok (description ∷ []);
  ec2_describe_network_interfaces = λ h id. ok (some (some (codes "198.51.100.9")) ∷ []);
  Disk = Files;
  read_file = λ d path. content_of (lookup d path);
  write_file = λ d path content mode. (ok tt, (path, content) ∷ d);
  exists = λ d path. ok (is_some (lookup d path));
  remove = λ d path. (ok tt, without d path);
  join = λ directory name. directory ++ (b'/' ∷ name);
  encode_data = λ x. ok (encode x);
  decode_data = decode;
  encode_config = λ name version hostname. ok (name ++ (version ++ hostname));
  PrivateKey = Bytes;
  PublicKey = Bytes;
  generate_rsa_key = λ h bits. ok (codes "secret");
  validate_key = λ key. none;
  marshal_pkcs1_private_key = λ key. key;
  encode_pem = λ name key. key;
  new_ssh_public_key = λ key. ok (codes "public");
  marshal_authorized_key = λ key. key;
  parse_private_key = λ key. ok tt;
  sha256 = λ text. 171 ∷ 205 ∷ [];
  ssh_dial = λ h address user key. ok tt;
  ssh_new_session = λ h. ok tt;
  ssh_run = λ h script. Wait.ended (ok tt);
  ssh_close = λ h. ok tt;
  write_stdout = λ h content. ok tt;
}

-- The state before the first stage: one file, the job's script.
abbrev pub start : State machine
start = record { calls = []; disk = (codes "/s", codes "true") ∷ [] }

pub text_eq-same : (xs : Bytes) → text_eq xs xs ≡ true
text_eq-same xs = (text_eq_iff xs xs).1 refl

pub text_eq-other : (xs ys : Bytes) → ys ≢ xs → text_eq xs ys ≡ false
text_eq-other xs ys h = elim (Bool-cases (text_eq xs ys)) [
  | inl e ↦ absurd (h (sym ((text_eq_iff xs ys).0 e)))
  | inr e ↦ e
]

lookup-without : (d : Files) (path : Bytes) → lookup (without d path) path ≡ none
lookup-without [] path = refl
lookup-without ((name, content) ∷ more) path = ground (arith, lookup-without more path)

lookup-without_other :
    (d : Files) (path other : Bytes) → other ≢ path → lookup (without d path) other ≡ lookup d other
lookup-without_other [] path other h = refl
lookup-without_other ((name, content) ∷ more) path other h =
    let rest = lookup-without_other more path other h in
    elim (Bool-cases (text_eq name path)) [
      | inl e ↦
          let e2 = (text_eq_iff name path).0 e in
          ground (arith, rest, text_eq-other name other (λ q. h (ground arith)))
      | inr e ↦ ground (arith, rest)
    ]

pub machine-IsFaithful : IsFaithful machine
machine-IsFaithful = record {
  read-write = λ d path content mode h. ground (arith, text_eq-same path);
  exists-write = λ d path content mode h. ground (arith, text_eq-same path);
  exists-remove = λ d path h. ground (arith, lookup-without d path);
  read-write_other = λ d path other content mode h. ground (arith, text_eq-other path other h);
  exists-write_other = λ d path other content mode h. ground (arith, text_eq-other path other h);
  read-remove_other = λ d path other h. ground (arith, lookup-without_other d path other h);
  exists-remove_other = λ d path other h. ground (arith, lookup-without_other d path other h);
}

pub machine-NamesTasks : NamesTasks machine
machine-NamesTasks = record { arn-ne-nil = λ h input arn more e q. ground arith }

decode-encode : (x : Data) → decode (encode x) ≡ ok x
decode-encode x = ground (
  arith,
  read_chunk-chunk x.task_arn (chunk x.container_ip (chunk x.private_key [])),
  read_chunk-chunk x.container_ip (chunk x.private_key []),
  read_chunk-chunk x.private_key [],
)

pub machine-RoundTrips : (x : Data) → RoundTrips machine x
machine-RoundTrips x content e =
    let same : encode x ≡ content = ground arith in
    subst (λ c. decode c ≡ ok x) same (decode-encode x)

pub machine-WritesReturn : WritesReturn machine
machine-WritesReturn = record {
  encode-returns = λ x t e. ground arith;
  write-returns = λ d path content mode t e. ground arith;
}
