-- ===== src/Aws/Addresses.antt =====
-- The address that `GetContainerIP` (aws/fargate.go) gives, and the requests behind it.
use gitlab_ci_fargate_arm_dr.Prelude.{
  ◌≡◌, inl, inr, ap, ◌∙◌, Bytes, Bool, true, false, some, none, List, [], ◌∷◌, arith,
}
use gitlab_ci_fargate_arm_dr.Platform.{
  Platform, State, ok, Call, History, TaskDescription, Container, NetworkInterface, Attachment,
  PublicAddress,
}
use gitlab_ci_fargate_arm_dr.Platform.Effects.{Result-cases}
use gitlab_ci_fargate_arm_dr.Aws.{AwsFargate, get_container_ip}
use gitlab_ci_fargate_arm_dr.Aws.Tasks.{IsInitialized}
use gitlab_ci_fargate_arm_dr.Aws.Details.{
  GivesId, extract_private_ip, extract_network_interface_id, extract_private_ip_lem,
  extract_network_interface_id-GivesId,
}

-- The private address of a task: of the first interface of its first container.
abbrev pub HasPrivate : TaskDescription → Bytes → Type 0
HasPrivate task ip =
    (container : Container) × (containers : List Container) × (interface : NetworkInterface)
    × (interfaces : List NetworkInterface) × (task.containers ≡ container ∷ containers)
    × (container.network_interfaces ≡ interface ∷ interfaces)
    × (interface.private_ipv4_address ≡ some ip)

-- The interface of a task: the one that the details of its first attachment name.
abbrev pub HasInterface : TaskDescription → Bytes → Type 0
HasInterface task id =
    (attachment : Attachment) × (others : List Attachment) × (task.attachments
      ≡ attachment ∷ others)
    × GivesId attachment.details id

-- The address of a task for the calls `h`, and the calls after it was asked for.
abbrev pub Found : Platform → TaskDescription → Bool → Bytes → History → History → Type 0
Found P task false ip h after = HasPrivate task ip × (after ≡ h)
Found P task true ip h after =
    (id : Bytes) × (more : List PublicAddress) × HasInterface task id
    × (P.ec2_describe_network_interfaces h id ≡ ok (some (some ip) ∷ more))
    × (after ≡ Call.describe_network_interfaces id ∷ h)

module _ {P : Platform} where
  private_address :
      (a : AwsFargate) (arn cluster ip : Bytes) (tasks : List TaskDescription) (s : State P)
      → IsInitialized a
      → P.ecs_describe_tasks s.calls cluster arn ≡ ok tasks
      → (get_container_ip a arn cluster false s).0 ≡ ok ip
      → (extract_private_ip tasks ≡ ok ip)
        × ((get_container_ip a arn cluster false s).1.calls
            ≡ Call.describe_tasks cluster arn ∷ s.calls)
  unfolding get_container_ip
  private_address a arn cluster ip tasks s ready e h = ground arith

  public_address :
      (a : AwsFargate) (arn cluster ip id : Bytes) (tasks : List TaskDescription) (s : State P)
      → IsInitialized a
      → P.ecs_describe_tasks s.calls cluster arn ≡ ok tasks
      → extract_network_interface_id tasks ≡ ok id
      → (get_container_ip a arn cluster true s).0 ≡ ok ip
      → let h = Call.describe_tasks cluster arn ∷ s.calls in
        (more : List PublicAddress) × (P.ec2_describe_network_interfaces h id
          ≡ ok (some (some ip) ∷ more))
        × ((get_container_ip a arn cluster true s).1.calls
            ≡ Call.describe_network_interfaces id ∷ h)
  unfolding get_container_ip
  public_address a arn cluster ip id tasks s ready e named h =
      elim (Result-cases
        (P.ec2_describe_network_interfaces (Call.describe_tasks cluster arn ∷ s.calls) id)) [
          | inl ([], f) ↦ absurd (ground arith)
          | inl ((none ∷ more), f) ↦ absurd (ground arith)
          | inl ((some none ∷ more), f) ↦ absurd (ground arith)
          | inl ((some (some b) ∷ more), f) ↦ (more, ground arith, ground arith)
          | inr (inl (failure, f)) ↦ absurd (ground arith)
          | inr (inr (text, f)) ↦ absurd (ground arith)
        ]

  interface_named :
      (a : AwsFargate) (arn cluster ip : Bytes) (tasks : List TaskDescription) (s : State P)
      → IsInitialized a
      → P.ecs_describe_tasks s.calls cluster arn ≡ ok tasks
      → (get_container_ip a arn cluster true s).0 ≡ ok ip
      → (id : Bytes) × (extract_network_interface_id tasks ≡ ok id)
  unfolding get_container_ip
  interface_named a arn cluster ip tasks s ready e h =
      elim (Result-cases (extract_network_interface_id tasks)) [
        | inl (id, f) ↦ (id, f)
        | inr (inl (failure, f)) ↦ absurd (ground arith)
        | inr (inr (text, f)) ↦ absurd (ground arith)
      ]

  tasks_described :
      (a : AwsFargate) (arn cluster ip : Bytes) (public : Bool) (s : State P)
      → IsInitialized a
      → (get_container_ip a arn cluster public s).0 ≡ ok ip
      → (tasks : List TaskDescription) × (P.ecs_describe_tasks s.calls cluster arn ≡ ok tasks)
  unfolding get_container_ip
  tasks_described a arn cluster ip public s ready h =
      elim (Result-cases (P.ecs_describe_tasks s.calls cluster arn)) [
        | inl (tasks, e) ↦ (tasks, e)
        | inr (inl (failure, e)) ↦ absurd (ground arith)
        | inr (inr (text, e)) ↦ absurd (ground arith)
      ]

  -- If `GetContainerIP` of an initialised adapter answers an address, ECS described at least one task.
  -- The private address is the one of the first interface of the first container of the first task,
  -- and nothing else was asked. For the public address, EC2 was asked about the interface that the
  -- first detail with the name "networkInterfaceId" gives, in the first attachment of the first
  -- task, or about an empty id where no detail has that name; the address is the first one that EC2
  -- answered, and nothing else was asked.
  pub get_container_ip-Found :
      (a : AwsFargate) (arn cluster ip : Bytes) (public : Bool) (s : State P)
      → IsInitialized a
      → (get_container_ip a arn cluster public s).0 ≡ ok ip
      → (task : TaskDescription) × (more : List TaskDescription) × (P.ecs_describe_tasks s.calls
            cluster arn
          ≡ ok (task ∷ more))
        × Found P task public ip
            (Call.describe_tasks cluster arn ∷ s.calls)
            (get_container_ip a arn cluster public s).1.calls
  get_container_ip-Found a arn cluster ip false s ready h =
      let (tasks, e) = tasks_described a arn cluster ip false s ready h in
      let (found, calls) = private_address a arn cluster ip tasks s ready e h in
      let (task, more, container, containers, interface, interfaces, is, has, inner, address) =
        extract_private_ip_lem tasks ip found in
      (
        task,
        more,
        e ∙ ap ok is,
        ((container, containers, interface, interfaces, has, inner, address), calls),
      )
  get_container_ip-Found a arn cluster ip true s ready h =
      let (tasks, e) = tasks_described a arn cluster ip true s ready h in
      let (id, named) = interface_named a arn cluster ip tasks s ready e h in
      let (others, answer, calls) = public_address a arn cluster ip id tasks s ready e named h in
      let (task, more, attachment, attachments, is, has, gives) =
        extract_network_interface_id-GivesId tasks id named in
      (task, more, e ∙ ap ok is, (id, others, (attachment, attachments, has, gives), answer, calls))
