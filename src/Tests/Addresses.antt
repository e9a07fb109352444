-- ===== src/Tests/Addresses.antt =====
-- The public address of a task that has a network interface.
use gitlab_ci_fargate_arm_dr.Prelude.{◌≡◌, refl, codes, text_eq, true, some, List, [], ◌∷◌}
use gitlab_ci_fargate_arm_dr.Platform.{Platform, State, ok, Call, Detail, TaskDescription}
use gitlab_ci_fargate_arm_dr.Aws.{AwsFargate, get_container_ip}
use gitlab_ci_fargate_arm_dr.Aws.Details.{extract_network_interface_id}
use gitlab_ci_fargate_arm_dr.Aws.Tasks.{IsInitialized}
use gitlab_ci_fargate_arm_dr.Aws.Addresses.{Found, get_container_ip-Found}
use gitlab_ci_fargate_arm_dr.Tests.Machine.{machine}

abbrev subnet_detail : Detail
subnet_detail = record { name = some (codes "subnetId"); value = some (codes "n") }

abbrev interface_detail : Detail
interface_detail = record { name = some (codes "networkInterfaceId"); value = some (codes "eni-1") }

-- A platform whose tasks have a second detail that names their interface.
abbrev published : Platform
published = record machine {
  ecs_describe_tasks = λ h cluster arn. ok (
      record {
        containers = [];
        attachments = record { details = subnet_detail ∷ interface_detail ∷ [] } ∷ [];
      }
      ∷ []);
}

abbrev adapter : AwsFargate
adapter = record { aws_region = codes "r"; ecs_svc = some (codes "r"); ec2_svc = some (codes "r") }

abbrev fresh : State published
fresh = record { calls = []; disk = [] }

adapter-IsInitialized : IsInitialized adapter
adapter-IsInitialized = record { ecs = codes "r"; ec2 = codes "r"; ecs_svc = refl; ec2_svc = refl }

answered :
    (get_container_ip adapter (codes "arn:1") (codes "c") true fresh).0 ≡ ok (codes "198.51.100.9")
unfolding get_container_ip extract_network_interface_id text_eq
answered = refl

get_container_ip-Found_example :
    (task : TaskDescription) × (more : List TaskDescription) × (published.ecs_describe_tasks []
        (codes "c")
        (codes "arn:1")
      ≡ ok (task ∷ more))
    × Found published task true
        (codes "198.51.100.9")
        (Call.describe_tasks (codes "c") (codes "arn:1") ∷ [])
        (get_container_ip adapter (codes "arn:1") (codes "c") true fresh).1.calls
get_container_ip-Found_example =
    get_container_ip-Found adapter (codes "arn:1") (codes "c") (codes "198.51.100.9") true fresh
      adapter-IsInitialized answered
