-- ===== src/Task/Metadata/Laws.antt =====
-- What the metadata manager promises to the commands.
use gitlab_ci_fargate_arm_dr.Prelude.{true, [], ◌≡◌, Bytes, ◌∷◌, arith}
use gitlab_ci_fargate_arm_dr.Platform.{Platform, State, ok, err, Data, IsFaithful, RoundTrips, Call}
use gitlab_ci_fargate_arm_dr.Task.Metadata.{
  MetadataManager, get_full_file_path, persist, get, clear,
}
use gitlab_ci_fargate_arm_dr.Go.Errors.{wrapped, sentinel, Sentinel}

module _ {P : Platform} where
  -- A read changes nothing.
  pub get-state : (m : MetadataManager) (s : State P) → (get m s).1 ≡ s
  unfolding get
  get-state m s = ground arith

  -- The state after the file of `m` was written with `content`.
  abbrev pub written : MetadataManager → Bytes → State P → State P
  written m content s =
      let path = get_full_file_path P.join m in
      record s {
        calls = Call.write_file path content 0o600 ∷ s.calls;
        disk = (P.write_file s.disk path content 0o600).1;
      }

  -- A successful `persist` has written the encoded value.
  pub persist-written :
      (m : MetadataManager) (x : Data) (s : State P)
      → (persist m x s).0 ≡ ok tt
      → (content : Bytes) × (P.encode_data x ≡ ok content)
        × ((P.write_file s.disk (get_full_file_path P.join m) content 0o600).0 ≡ ok tt)
        × ((persist m x s).1 ≡ written m content s)
  unfolding persist
  persist-written m x s h = ground arith

  -- The file of `m` holds an encoding of `x`.
  pub record Stores (m : MetadataManager) (x : Data) (s : State P) : Type 0 where
    pub content : Bytes
    pub encodes : P.encode_data x ≡ ok content
    pub found : P.exists s.disk (get_full_file_path P.join m) ≡ ok true
    pub holds : P.read_file s.disk (get_full_file_path P.join m) ≡ ok content

  pub Stores-of_disk :
      (m : MetadataManager) (x : Data) (s t : State P)
      → t.disk ≡ s.disk
      → Stores m x s
      → Stores m x t
  Stores-of_disk m x s t e h = record {
    content = h.content;
    encodes = h.encodes;
    found = rw e h.found;
    holds = rw e h.holds;
  }

  pub persist-Stores :
      IsFaithful P
      → (m : MetadataManager) (x : Data) (s : State P) → (persist m x s).0 ≡ ok tt
      → Stores m x (persist m x s).1
  persist-Stores F m x s h =
      let (content, e, wrote, final) = persist-written m x s h in
      let path = get_full_file_path P.join m in
      rw final record {
        content = content;
        encodes = e;
        found = F.exists-write s.disk path content 0o600 wrote;
        holds = F.read-write s.disk path content 0o600 wrote;
      }

  -- A stored value that survives JSON is read back, and the read changes nothing.
  pub get-of_Stores :
      (m : MetadataManager) (x : Data) (s : State P)
      → RoundTrips P x
      → Stores m x s
      → get m s ≡ (ok x, s)
  unfolding get
  get-of_Stores m x s j h = ground (arith, j h.content h.encodes, h.found, h.holds)

  -- After a successful `persist` of a value that survives JSON, `get` answers with the value and
  -- changes nothing. A faithful file system is assumed.
  pub persist-get :
      IsFaithful P
      → (m : MetadataManager) (x : Data) (s : State P) → RoundTrips P x
      → (persist m x s).0 ≡ ok tt
      → let t = (persist m x s).1 in get m t ≡ (ok x, t)
  persist-get F m x s j h = get-of_Stores m x _ j (persist-Stores F m x s h)

  -- After a successful `clear` the file is gone: `get` fails with `os.ErrNotExist` and changes
  -- nothing. A faithful file system is assumed.
  pub clear-get :
      IsFaithful P
      → (m : MetadataManager) (s : State P) → (clear m s).0 ≡ ok tt
      → let t = (clear m s).1 in
        get m t ≡ (
          err (
              wrapped "trying to access file %q: %w"
                (get_full_file_path P.join m ∷ [])
                (sentinel Sentinel.not_exist)),
          t,
        )
  unfolding clear get
  clear-get F m s h = ground (arith, F.exists-remove s.disk (get_full_file_path P.join m))
