-- ===== src/Platform.antt =====
-- What the driver calls and does not implement: AWS, the file system, SSH, cryptography and JSON.
-- All of it is the record `Platform`. A service's answer may depend on all calls before it, so it
-- is a function of the history of calls; the file system is a state of its own.
-- A program is a function from `State` (the history and the disk) to a result and a new state.
pub mod Effects
pub mod Program
use gitlab_ci_fargate_arm_dr.Prelude.{◌≡◌, ◌≢◌, String, ℕ, Bytes, Bool, true, false, Option, List}
use gitlab_ci_fargate_arm_dr.Go.Int.{ℤ}
use gitlab_ci_fargate_arm_dr.Go.Errors.{Error}

-- How a Go call ends: a value, an error, or a panic, which nothing in the driver recovers.
pub data Result {ℓ} (A : Type ℓ) : Type ℓ where
  ok : A → Result A
  err : Error → Result A
  panic : String → Result A

-- `ecs.KeyValuePair`, with its pointers followed.
pub record KeyValuePair : Type 0 where
  pub name : Bytes
  pub value : Bytes

-- `ecs.TaskOverride` with its one `ecs.ContainerOverride`.
pub record TaskOverride : Type 0 where
  pub container_name : Bytes
  pub environment : List KeyValuePair

-- `ecs.RunTaskInput`; a nil pointer is `none`.
pub record RunTaskInput : Type 0 where
  pub task_definition : Bytes
  pub cluster : Bytes
  pub security_groups : List Bytes
  pub subnets : List Bytes
  pub assign_public_ip : Bytes
  pub overrides : Option TaskOverride
  pub platform_version : Option Bytes

-- `ecs.Attachment.Details`, `ecs.Container.NetworkInterfaces`: what the driver reads of them.
pub record Detail : Type 0 where
  pub name : Option Bytes
  pub value : Option Bytes

pub record Attachment : Type 0 where
  pub details : List Detail

pub record NetworkInterface : Type 0 where
  pub private_ipv4_address : Option Bytes

pub record Container : Type 0 where
  pub network_interfaces : List NetworkInterface

-- A task in `ecs.DescribeTasksOutput`.
pub record TaskDescription : Type 0 where
  pub containers : List Container
  pub attachments : List Attachment

-- The `Association.PublicIp` of each entry of `ec2.DescribeNetworkInterfacesOutput`; the outer
-- `none` is an interface with no association.
abbrev pub PublicAddress : Type 0
PublicAddress = Option (Option Bytes)

-- `task.Data` and `ssh.KeyPair`.
pub record Data : Type 0 where
  pub task_arn : Bytes
  pub container_ip : Bytes
  pub private_key : Bytes

pub record KeyPair : Type 0 where
  pub public_key : Bytes
  pub private_key : Bytes

-- `executors.ConnectionSettings`
pub record ConnectionSettings : Type 0 where
  pub hostname : Bytes
  pub port : ℤ
  pub username : Bytes
  pub private_key : Bytes

-- Which case of the `select` in `ExecuteScript` is taken: the script ended, or the context was
-- cancelled and SIGINT was sent, with what `Signal` answers.
pub data Wait : Type 0 where
  ended : Result (Unit {0}) → Wait
  cancelled : Result (Unit {0}) → Wait

-- The calls that leave the driver, with the answers that later code depends on.
pub data Call : Type 0 where
  new_session : Bytes → Call
  generate_key : ℕ → Call
  run_task : RunTaskInput → Result (List (Option Bytes)) → Call
  wait_until_tasks_running : Bytes → Bytes → Call
  stop_task : Bytes → Bytes → Call
  describe_tasks : Bytes → Bytes → Call
  describe_network_interfaces : Bytes → Call
  write_file : Bytes → Bytes → ℕ → Call
  remove_file : Bytes → Call
  dial : Bytes → Bytes → Bytes → Call
  open_session : Call
  run_script : Bytes → Call
  signal_interrupt : Call
  close_session : Call
  disconnect : Call
  write_output : Bytes → Call

-- The newest call comes first.
abbrev pub History : Type 0
History = List Call

pub record Platform : Type 1 where
  -- The AWS SDK: a session for a region, ECS and EC2. Arguments: cluster, then task.
  pub session_creator : History → Bytes → Result (Unit {0})
  pub ecs_run_task : History → RunTaskInput → Result (List (Option Bytes))
  pub ecs_wait_until_tasks_running : History → Bytes → Bytes → Result (Unit {0})
  pub ecs_stop_task : History → Bytes → Bytes → Result (Unit {0})
  pub ecs_describe_tasks : History → Bytes → Bytes → Result (List TaskDescription)
  pub ec2_describe_network_interfaces : History → Bytes → Result (List PublicAddress)
  -- `afero` over the operating system, and `filepath.Join`.
  pub Disk : Type 0
  pub read_file : Disk → Bytes → Result Bytes
  pub write_file : Disk → Bytes → Bytes → ℕ → Result (Unit {0}) × Disk
  pub exists : Disk → Bytes → Result Bool
  pub remove : Disk → Bytes → Result (Unit {0}) × Disk
  pub join : Bytes → Bytes → Bytes
  -- `encoding/json` at the driver's two types: `task.Data` and the output of the config stage.
  pub encode_data : Data → Result Bytes
  pub decode_data : Bytes → Result Data
  pub encode_config : Bytes → Bytes → Bytes → Result Bytes
  -- `crypto/rsa`, `crypto/x509`, `encoding/pem` and `golang.org/x/crypto/ssh`.
  pub PrivateKey : Type 0
  pub PublicKey : Type 0
  pub generate_rsa_key : History → ℕ → Result PrivateKey
  pub validate_key : PrivateKey → Option Error
  pub marshal_pkcs1_private_key : PrivateKey → Bytes
  pub encode_pem : Bytes → Bytes → Bytes
  pub new_ssh_public_key : PrivateKey → Result PublicKey
  pub marshal_authorized_key : PublicKey → Bytes
  pub parse_private_key : Bytes → Result (Unit {0})
  pub sha256 : Bytes → Bytes
  -- An SSH connection: address, user and key; a session on it; a script in the session.
  pub ssh_dial : History → Bytes → Bytes → Bytes → Result (Unit {0})
  pub ssh_new_session : History → Result (Unit {0})
  pub ssh_run : History → Bytes → Wait
  pub ssh_close : History → Result (Unit {0})
  -- The standard output.
  pub write_stdout : History → Bytes → Result (Unit {0})

pub record State (P : Platform) : Type 0 where
  pub calls : History
  pub disk : P.Disk

-- What the driver relies on of the file system: a file that was written is there with its
-- content, a file that was removed is gone, and other files are left alone by both.
pub record IsFaithful (P : Platform) : Type 0 where
  pub read-write :
      (d : P.Disk) (path content : Bytes) (mode : ℕ)
      → (P.write_file d path content mode).0 ≡ ok tt
      → P.read_file (P.write_file d path content mode).1 path ≡ ok content
  pub exists-write :
      (d : P.Disk) (path content : Bytes) (mode : ℕ)
      → (P.write_file d path content mode).0 ≡ ok tt
      → P.exists (P.write_file d path content mode).1 path ≡ ok true
  pub exists-remove :
      (d : P.Disk) (path : Bytes)
      → (P.remove d path).0 ≡ ok tt
      → P.exists (P.remove d path).1 path ≡ ok false
  pub read-write_other :
      (d : P.Disk) (path other content : Bytes) (mode : ℕ)
      → other ≢ path
      → P.read_file (P.write_file d path content mode).1 other ≡ P.read_file d other
  pub exists-write_other :
      (d : P.Disk) (path other content : Bytes) (mode : ℕ)
      → other ≢ path
      → P.exists (P.write_file d path content mode).1 other ≡ P.exists d other
  pub read-remove_other :
      (d : P.Disk) (path other : Bytes)
      → other ≢ path
      → P.read_file (P.remove d path).1 other ≡ P.read_file d other
  pub exists-remove_other :
      (d : P.Disk) (path other : Bytes)
      → other ≢ path
      → P.exists (P.remove d path).1 other ≡ P.exists d other

-- The JSON encoder and the write of a file end with a value or an error.
pub record WritesReturn (P : Platform) : Type 0 where
  pub encode-returns : (x : Data) (t : String) → P.encode_data x ≢ panic t
  pub write-returns :
      (d : P.Disk) (path content : Bytes) (mode : ℕ) (t : String)
      → (P.write_file d path content mode).0 ≢ panic t

-- The value survives JSON: what its encoding decodes to is the value.
abbrev pub RoundTrips : Platform → Data → Type 0
RoundTrips P x = (content : Bytes) → P.encode_data x ≡ ok content → P.decode_data content ≡ ok x
