-- ===== src/Aws/Environment.antt =====
-- The environment variables of a task: `processEnvVariablesToInject` (aws/fargate.go).
-- The module's Go version is 1.13, where `for key, value := range m` has one variable `key` and
-- one variable `value` for all rounds, so `&key` and `&value` are the same pointers each time.
use gitlab_ci_fargate_arm_dr.Prelude.{
  ◌≡◌, refl, Bytes, codes, false, ap, is_empty, Option, none, some, List, [], ◌∷◌, ◌++◌, map,
  append_assoc, if◌then◌else◌,
}
use gitlab_ci_fargate_arm_dr.Platform.{KeyValuePair, TaskOverride}

abbrev pub default_container_name : Bytes
default_container_name = codes "ci-coordinator"

-- The store of the loop: its two variables.
record LoopVariables : Type 0 where
  key : Bytes
  value : Bytes

-- A pointer into the store: `&key` or `&value`.
data Pointer : Type 0 where
  to_key to_value : Pointer

read : LoopVariables → Pointer → Bytes
read vars to_key = vars.key
read vars to_value = vars.value

-- `ecs.KeyValuePair` as the loop builds it.
record PairOfPointers : Type 0 where
  name : Pointer
  value : Pointer

-- The loop: each round assigns the two variables and appends a pair of pointers to them.
collect_pairs :
    LoopVariables → List (Bytes × Bytes) → List PairOfPointers → LoopVariables × List PairOfPointers
collect_pairs vars [] pairs = (vars, pairs)
collect_pairs vars ((key, value) ∷ env_vars) pairs =
    collect_pairs (record { key = key; value = value }) env_vars
      (pairs ++ (record { name = to_key; value = to_value } ∷ []))

-- What a reader of the finished request finds behind the pointers.
follow : LoopVariables → PairOfPointers → KeyValuePair
follow vars p = record { name = read vars p.name; value = read vars p.value }

pub process_env_variables_to_inject : List (Bytes × Bytes) → Option TaskOverride
unfolding collect_pairs follow read
process_env_variables_to_inject env_vars =
    let (vars, pairs) = collect_pairs (record { key = []; value = [] }) env_vars [] in
    if is_empty env_vars
    then none
    else some
        (record { container_name = default_container_name; environment = map (follow vars) pairs })

abbrev pub to_pair : Bytes × Bytes → KeyValuePair
to_pair (k, v) = record { name = k; value = v }

-- One variable is passed to the container as it is.
pub process_env_variables_to_inject_one :
    (key value : Bytes)
    → process_env_variables_to_inject ((key, value) ∷ [])
      ≡ some (record {
        container_name = default_container_name;
        environment = to_pair (key, value) ∷ [];
      })
unfolding process_env_variables_to_inject
process_env_variables_to_inject_one key value = refl

collect_pairs-append :
    (m : List (Bytes × Bytes)) (k v : Bytes) (vars : LoopVariables) (pairs : List PairOfPointers)
    → collect_pairs vars (m ++ ((k, v) ∷ [])) pairs ≡ (
      record { key = k; value = v },
      pairs ++ map (λ _. record { name = to_key; value = to_value }) (m ++ ((k, v) ∷ [])),
    )
unfolding collect_pairs
collect_pairs-append [] k v vars pairs = refl
collect_pairs-append ((j, w) ∷ m) k v vars pairs =
    rw (collect_pairs-append m k v _ _) (simp append_assoc)

not_empty : (m : List (Bytes × Bytes)) (p : Bytes × Bytes) → is_empty (m ++ (p ∷ [])) ≡ false
not_empty [] p = refl
not_empty (q ∷ m) p = refl

map-follow :
    (vars : LoopVariables) (m : List (Bytes × Bytes))
    → map (follow vars) (map (λ _. record { name = to_key; value = to_value }) m)
      ≡ map (λ _. to_pair (vars.key, vars.value)) m
unfolding follow read
map-follow vars [] = refl
map-follow vars (p ∷ m) = rw (map-follow vars m)

-- Of several variables only the last one visited reaches the container: every entry of the
-- request, one for each variable, holds the last variable's name and value.
pub process_env_variables_to_inject_last :
    (m : List (Bytes × Bytes)) (key value : Bytes)
    → process_env_variables_to_inject (m ++ ((key, value) ∷ []))
      ≡ some (record {
        container_name = default_container_name;
        environment = map (λ _. to_pair (key, value)) (m ++ ((key, value) ∷ []));
      })
unfolding process_env_variables_to_inject
process_env_variables_to_inject_last m key value =
    rw (collect_pairs-append m key value, not_empty m (key, value))
      (ap (λ e. some (record { container_name = default_container_name; environment = e }))
        (map-follow (record { key = key; value = value }) (m ++ ((key, value) ∷ []))))
