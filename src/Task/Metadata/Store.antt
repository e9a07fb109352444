-- ===== src/Task/Metadata/Store.antt =====
-- What the metadata managers promise together: a store of values by file path. Operations on any
-- managers run in sequence, and their answers are held against the store.
pub mod Refines
use gitlab_ci_fargate_arm_dr.Prelude.{◌≡◌, Bytes, text_eq, if◌then◌else◌, List, [], ◌∷◌}
use gitlab_ci_fargate_arm_dr.Go.Errors.{Error, wrapped, sentinel, Sentinel}
use gitlab_ci_fargate_arm_dr.Platform.{Platform, State, Result, ok, err, panic, Data}
use gitlab_ci_fargate_arm_dr.Task.Metadata.{
  MetadataManager, get_full_file_path, persist, get, clear,
}

pub data Operation : Type 0 where
  persists : MetadataManager → Data → Operation
  gets clears : MetadataManager → Operation

pub data Answer : Type 0 where
  persisted cleared : Result (Unit {0}) → Answer
  got : Result Data → Answer

-- The operations of the code, one after the other, and what they answer.
module _ {P : Platform} where
  abbrev pub perform : Operation → State P → Answer × State P
  perform (persists m x) s = let (r, t) = persist m x s in (persisted r, t)
  perform (gets m) s = let (r, t) = get m s in (got r, t)
  perform (clears m) s = let (r, t) = clear m s in (cleared r, t)

  abbrev pub answers : List Operation → State P → List Answer
  answers [] s = []
  answers (o ∷ os) s = (perform o s).0 ∷ answers os (perform o s).1

-- What the store knows of a path. A failed write or removal leaves it not known.
pub data Known : Type 0 where
  unknown absent : Known
  holds : Data → Known

abbrev pub Store : Type 0
Store = Bytes → Known

abbrev pub set : Store → Bytes → Known → Store
set v path k other = if text_eq path other then k else v other

abbrev pub not_exist : Bytes → Error
not_exist path = wrapped "trying to access file %q: %w" (path ∷ []) (sentinel Sentinel.not_exist)

-- After a failure, a file that was absent still is.
abbrev pub failed : Known → Known
failed absent = absent
failed _ = unknown

abbrev pub GetAllows : Bytes → Known → Result Data → Type 0
GetAllows path unknown r = Unit
GetAllows path absent r = r ≡ err (not_exist path)
GetAllows path (holds x) r = r ≡ ok x

abbrev pub ClearAllows : Bytes → Known → Result (Unit {0}) → Type 0
ClearAllows path absent r = r ≡ err (not_exist path)
ClearAllows path _ r = Unit

abbrev pub after_clear : Known → Result (Unit {0}) → Known
after_clear k (ok _) = absent
after_clear k (err _) = failed k
after_clear k (panic _) = failed k

abbrev pub after_persist : Data → Result (Unit {0}) → Known
after_persist x (ok _) = holds x
after_persist x (err _) = unknown
after_persist x (panic _) = unknown

-- The store allows the answers, and goes on with what they tell.
module _ (join : Bytes → Bytes → Bytes) where
  abbrev pub Allows : Store → Operation → Answer → Type 0
  Allows v (persists m x) (persisted r) = Unit
  Allows v (gets m) (got r) =
      GetAllows (get_full_file_path join m) (v (get_full_file_path join m)) r
  Allows v (clears m) (cleared r) =
      ClearAllows (get_full_file_path join m) (v (get_full_file_path join m)) r
  Allows v _ _ = ⊥

  abbrev pub next : Store → Operation → Answer → Store
  next v (persists m x) (persisted r) = set v (get_full_file_path join m) (after_persist x r)
  next v (clears m) (cleared r) =
      set v (get_full_file_path join m) (after_clear (v (get_full_file_path join m)) r)
  next v _ _ = v

  abbrev pub Conforms : Store → List Operation → List Answer → Type 0
  Conforms v [] [] = Unit
  Conforms v (o ∷ os) (a ∷ more) = Allows v o a × Conforms (next v o a) os more
  Conforms v _ _ = ⊥
