-- ===== src/Aws/Details.antt =====
-- Reading the answer of `DescribeTasks` (aws/fargate.go): the private address, and the id of the
-- network interface. Indices and pointers are followed unchecked, so a short answer panics.
use gitlab_ci_fargate_arm_dr.Prelude.{
  ◌⊎◌, inl, inr, ap, ◌∙◌, Bool, true, false, Option, none, Bytes, codes, text_eq, text_eq_iff, All,
  ◌++◌, ◌≡◌, ◌≢◌, refl, arith, some, List, [], ◌∷◌, if◌then◌else◌,
}
use gitlab_ci_fargate_arm_dr.Platform.{
  Result, ok, err, panic, TaskDescription, Detail, Container, Attachment, NetworkInterface,
}
use gitlab_ci_fargate_arm_dr.Platform.Effects.{first, deref}

infixl 5 ◌>>=◌
abbrev ◌>>=◌ : {A B : Type 0} → Result A → (A → Result B) → Result B
ok a >>= f = f a
err e >>= f = err e
panic t >>= f = panic t

unfoldable pub extract_private_ip : List TaskDescription → Result Bytes
extract_private_ip tasks = do
  task ← first tasks
  container ← first task.containers
  interface ← first container.network_interfaces
  deref interface.private_ipv4_address

-- The loop over the details: it stops at the first detail with the name.
find_network_interface_id : List Detail → Result Bytes
find_network_interface_id [] = ok []
find_network_interface_id (detail ∷ details) =
    let rest = find_network_interface_id details in
    deref detail.name >>= λ name.
    if text_eq name (codes "networkInterfaceId") then deref detail.value else rest

unfoldable pub extract_network_interface_id : List TaskDescription → Result Bytes
unfolding find_network_interface_id
extract_network_interface_id tasks = do
  task ← first tasks
  attachment ← first task.attachments
  find_network_interface_id attachment.details

-- A detail whose name is there and is another one.
abbrev pub IsOther : Detail → Type 0
IsOther d = (n : Bytes) × (d.name ≡ some n) × (n ≢ codes "networkInterfaceId")

find_first :
    (before : List Detail) (d : Detail) (after : List Detail)
    → All IsOther before
    → d.name ≡ some (codes "networkInterfaceId")
    → find_network_interface_id (before ++ (d ∷ after)) ≡ deref d.value
unfolding find_network_interface_id
find_first [] d after h e =
    ground (arith, text_eq_iff (codes "networkInterfaceId") (codes "networkInterfaceId"))
find_first (b ∷ before) d after ((n, named, other), h) e =
    ground (arith, text_eq_iff n (codes "networkInterfaceId"), find_first before d after h e)

find_none :
    (details : List Detail) → All IsOther details → find_network_interface_id details ≡ ok []
unfolding find_network_interface_id
find_none [] h = refl
find_none (d ∷ details) ((n, named, other), h) =
    ground (arith, text_eq_iff n (codes "networkInterfaceId"), find_none details h)

-- The id is the value of the first detail with the name "networkInterfaceId", in the first attachment
-- of the first task, and a panic if that value is nil; it is empty if no detail has the name.
-- Details in front are assumed to have a name.
pub extract_network_interface_id_first :
    (before : List Detail) (d : Detail) (after : List Detail) (containers : List Container)
    (attachments : List Attachment) (tasks : List TaskDescription)
    → All IsOther before
    → d.name ≡ some (codes "networkInterfaceId")
    → let described = λ (details : List Detail).
      record { containers = containers; attachments = record { details = details } ∷ attachments }
      ∷ tasks in
      (extract_network_interface_id (described (before ++ (d ∷ after))) ≡ deref d.value)
      × (extract_network_interface_id (described before) ≡ ok [])
unfolding extract_network_interface_id
extract_network_interface_id_first before d after containers attachments tasks h e =
    (find_first before d after h e, find_none before h)

-- Which id a list of details gives: the value of the first detail with the name, empty without one.
abbrev pub GivesId : List Detail → Bytes → Type 0
GivesId [] id = id ≡ []
GivesId (d ∷ details) id =
    ((d.name ≡ some (codes "networkInterfaceId")) × (d.value ≡ some id))
    ⊎ (IsOther d × GivesId details id)

deref-ok : {A : Type 0} (o : Option A) (a : A) → deref o ≡ ok a → o ≡ some a
deref-ok none a h = absurd (ground arith)
deref-ok (some b) a h = ground arith

first-ok : {A : Type 0} (l : List A) (a : A) → first l ≡ ok a → (more : List A) × (l ≡ a ∷ more)
first-ok [] a h = absurd (ground arith)
first-ok (b ∷ l) a h = (l, ground arith)

bind-ok :
    {A B : Type 0} (r : Result A) (f : A → Result B) (b : B)
    → (r >>= f) ≡ ok b
    → (a : A) × (r ≡ ok a) × (f a ≡ ok b)
bind-ok (ok a) f b h = (a, refl, h)
bind-ok (err e) f b h = absurd (ground arith)
bind-ok (panic t) f b h = absurd (ground arith)

text_eq_cases : (a b : Bytes) → (a ≡ b) ⊎ (a ≢ b)
text_eq_cases a b = by_test (text_eq a b) refl
  where
    by_test : (v : Bool) → text_eq a b ≡ v → (a ≡ b) ⊎ (a ≢ b)
    by_test true e = inl ((text_eq_iff a b).0 e)
    by_test false e = inr (λ same. ground (arith, (text_eq_iff a b).1 same))

find-GivesId :
    (details : List Detail) (id : Bytes)
    → find_network_interface_id details ≡ ok id
    → GivesId details id
unfolding find_network_interface_id
find-GivesId [] id h = ground arith
find-GivesId (d ∷ details) id h =
    let (name, named, rest) = bind-ok (deref d.name) _ id h in
    let is = deref-ok d.name name named in
    elim (text_eq_cases name (codes "networkInterfaceId")) [
      | inl same ↦ inl (
        is ∙ ap some same,
        deref-ok d.value id (ground (arith, text_eq_iff name (codes "networkInterfaceId"))),
      )
      | inr other ↦ inr (
        (name, is, other),
        find-GivesId details id (ground (arith, text_eq_iff name (codes "networkInterfaceId"))),
      )
    ]

pub extract_network_interface_id-GivesId :
    (tasks : List TaskDescription) (id : Bytes)
    → extract_network_interface_id tasks ≡ ok id
    → (task : TaskDescription) × (more : List TaskDescription) × (attachment : Attachment)
      × (others : List Attachment) × (tasks ≡ task ∷ more)
      × (task.attachments ≡ attachment ∷ others)
      × GivesId attachment.details id
unfolding extract_network_interface_id
extract_network_interface_id-GivesId tasks id h =
    let (task, e, h1) = bind-ok (first tasks) _ id h in
    let (attachment, f, h2) = bind-ok (first task.attachments) _ id h1 in
    let (more, is) = first-ok tasks task e in
    let (others, has) = first-ok task.attachments attachment f in
    (task, more, attachment, others, is, has, find-GivesId attachment.details id h2)

pub extract_private_ip_lem :
    (tasks : List TaskDescription) (ip : Bytes)
    → extract_private_ip tasks ≡ ok ip
    → (task : TaskDescription) × (more : List TaskDescription) × (container : Container)
      × (containers : List Container) × (interface : NetworkInterface) × (interfaces : List
          NetworkInterface)
      × (tasks ≡ task ∷ more)
      × (task.containers ≡ container ∷ containers)
      × (container.network_interfaces ≡ interface ∷ interfaces)
      × (interface.private_ipv4_address ≡ some ip)
unfolding extract_private_ip
extract_private_ip_lem tasks ip h =
    let (task, e, h1) = bind-ok (first tasks) _ ip h in
    let (container, f, h2) = bind-ok (first task.containers) _ ip h1 in
    let (interface, g, h3) = bind-ok (first container.network_interfaces) _ ip h2 in
    let (more, is) = first-ok tasks task e in
    let (containers, has) = first-ok task.containers container f in
    let (interfaces, has_too) = first-ok container.network_interfaces interface g in
    (
      task,
      more,
      container,
      containers,
      interface,
      interfaces,
      is,
      has,
      has_too,
      deref-ok interface.private_ipv4_address ip h3,
    )
