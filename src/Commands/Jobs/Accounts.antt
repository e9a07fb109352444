-- ===== src/Commands/Jobs/Accounts.antt =====
-- The tasks of many jobs: which are started, stopped, and held by the metadata files.
use gitlab_ci_fargate_arm_dr.Prelude.{
  ◌≡◌, ◌≢◌, refl, sym, ◌+◌, ◌≤◌, Bytes, List, [], ◌∷◌, ◌++◌, map, arith, All,
}
use gitlab_ci_fargate_arm_dr.Platform.{Platform, State, Data}
use gitlab_ci_fargate_arm_dr.Aws.Tasks.{started, stopped}
use gitlab_ci_fargate_arm_dr.Task.Metadata.Laws.{Stores}
use gitlab_ci_fargate_arm_dr.Commands.Frame.{SameFile, Stores-of_file}
use gitlab_ci_fargate_arm_dr.Commands.Jobs.{Job, manager, file, System, count}

-- No two jobs share a metadata file.
abbrev pub Distinct : Platform → List Job → Type 0
Distinct P [] = Unit
Distinct P (j ∷ js) = All (λ k. file P k ≢ file P j) js × Distinct P js

abbrev pub arns : List Data → List Bytes
arns = map (λ x. x.task_arn)

module _ {P : Platform} where
  -- The metadata files of the jobs hold these data.
  abbrev pub Holding : List Job → List Data → State P → Type 0
  Holding [] [] s = Unit
  Holding [] (_ ∷ _) s = ⊥
  Holding (_ ∷ _) [] s = ⊥
  Holding (j ∷ js) (x ∷ xs) s = Stores (manager P j) x s × Holding js xs s

  -- Each task that was started is one that AWS was asked to stop, or one in the file of a live job.
  pub record Inv (s : System P) : Type 0 where
    pub kept : List Data
    pub holding : Holding s.live kept s.state
    pub distinct : Distinct P s.live
    pub accounted :
        (a : Bytes)
        → count a (started s.state.calls) ≤ count a (stopped s.state.calls) + count a (arns kept)

  pub Holding-frame :
      (js : List Job) (xs : List Data) (s t : State P)
      → All (λ j. SameFile (file P j) s t) js
      → Holding js xs s
      → Holding js xs t
  Holding-frame [] [] s t f h = tt
  Holding-frame [] (x ∷ xs) s t f h = h
  Holding-frame (j ∷ js) [] s t f h = h
  Holding-frame (j ∷ js) (x ∷ xs) s t f h =
      (Stores-of_file (manager P j) x s t f.0 h.0, Holding-frame js xs s t f.1 h.1)

  -- One job of a list, and the data without its own.
  pub Holding-split :
      (before : List Job) (j : Job) (after : List Job) (xs : List Data) (s : State P)
      → Holding (before ++ (j ∷ after)) xs s
      → (x : Data) × (ys : List Data) × Stores (manager P j) x s
        × Holding (before ++ after) ys s
        × ((a : Bytes) → count a (arns xs) ≡ count a (x.task_arn ∷ arns ys))
  unfolding count
  Holding-split [] j after [] s h = absurd h
  Holding-split [] j after (x ∷ xs) s h = (x, xs, h.0, h.1, λ a. refl)
  Holding-split (k ∷ before) j after [] s h = absurd h
  Holding-split (k ∷ before) j after (y ∷ xs) s h =
      let (x, ys, stored, rest, counted) = Holding-split before j after xs s h.1 in
      (x, y ∷ ys, stored, (h.0, rest), λ a. ground (arith, counted a))

All-split :
    (P : Platform) (before : List Job) (j : Job) (after : List Job) (k : Job)
    → All (λ i. file P i ≢ file P k) (before ++ (j ∷ after))
    → (file P j ≢ file P k) × All (λ i. file P i ≢ file P k) (before ++ after)
All-split P [] j after k h = h
All-split P (i ∷ before) j after k h =
    let (p, q) = All-split P before j after k h.1 in (p, (h.0, q))

pub Distinct-split :
    (P : Platform) (before : List Job) (j : Job) (after : List Job)
    → Distinct P (before ++ (j ∷ after))
    → All (λ k. file P k ≢ file P j) (before ++ after) × Distinct P (before ++ after)
Distinct-split P [] j after d = d
Distinct-split P (k ∷ before) j after d =
    let (others, rest) = Distinct-split P before j after d.1 in
    let (apart, without) = All-split P before j after k d.0 in
    (((λ e. apart (sym e)), others), (without, rest))
