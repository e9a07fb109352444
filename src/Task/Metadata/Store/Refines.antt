-- ===== src/Task/Metadata/Store/Refines.antt =====
-- The metadata managers against the store.
use gitlab_ci_fargate_arm_dr.Prelude.{
  ◌≡◌, ◌≢◌, refl, sym, ap, ◌∙◌, inl, inr, Bytes, true, false, Bool-cases, text_eq, text_eq_iff,
  List, [], ◌∷◌, arith,
}
use mathlib.Core.Path.{subst}
use gitlab_ci_fargate_arm_dr.Platform.{
  Platform, State, Result, ok, err, Data, IsFaithful, RoundTrips,
}
use gitlab_ci_fargate_arm_dr.Platform.Effects.{Result-cases}
use gitlab_ci_fargate_arm_dr.Task.Metadata.{
  MetadataManager, get_full_file_path, persist, get, clear,
}
use gitlab_ci_fargate_arm_dr.Task.Metadata.Laws.{get-state, persist-Stores}
use gitlab_ci_fargate_arm_dr.Task.Metadata.Store.{
  Operation, persists, gets, clears, perform, answers, Known, unknown, absent, holds, Store, set,
  not_exist, failed, GetAllows, ClearAllows, after_clear, after_persist, Allows, next, Conforms,
}

module _ {P : Platform} where
  -- What is known of a path is so.
  abbrev pub IsSo : Bytes → Known → State P → Type 0
  IsSo path unknown s = Unit
  IsSo path absent s = P.exists s.disk path ≡ ok false
  IsSo path (holds x) s =
      (content : Bytes) × (P.encode_data x ≡ ok content)
      × (P.exists s.disk path ≡ ok true)
      × (P.read_file s.disk path ≡ ok content)

  abbrev pub Matches : Store → State P → Type 0
  Matches v s = (path : Bytes) → IsSo path (v path) s

  abbrev Same : Bytes → State P → State P → Type 0
  Same path s t =
      (P.exists t.disk path ≡ P.exists s.disk path)
      × (P.read_file t.disk path ≡ P.read_file s.disk path)

  pub IsSo-Same :
      (path : Bytes) (k : Known) (s t : State P) → Same path s t → IsSo path k s → IsSo path k t
  IsSo-Same path unknown s t (e, r) h = tt
  IsSo-Same path absent s t (e, r) h = e ∙ h
  IsSo-Same path (holds x) s t (e, r) (content, encodes, found, read) =
      (content, encodes, e ∙ found, r ∙ read)

  module _ (F : IsFaithful P) (m : MetadataManager) (s : State P) where
    persist-Same :
        (x : Data) (other : Bytes)
        → other ≢ get_full_file_path P.join m
        → Same other s (persist m x s).1
    unfolding persist
    persist-Same x other apart = elim (Result-cases (P.encode_data x)) [
      | inl (content, e) ↦ ground (
        arith,
        F.exists-write_other s.disk (get_full_file_path P.join m) other content 0o600 apart,
        F.read-write_other s.disk (get_full_file_path P.join m) other content 0o600 apart,
      )
      | inr (inl (failure, e)) ↦ ground arith
      | inr (inr (t, e)) ↦ ground arith
    ]

    clear-Same : (other : Bytes) → other ≢ get_full_file_path P.join m → Same other s (clear m s).1
    unfolding clear
    clear-Same other apart = ground (
      arith,
      F.exists-remove_other s.disk (get_full_file_path P.join m) other apart,
      F.read-remove_other s.disk (get_full_file_path P.join m) other apart,
    )

    -- The own path after `persist` and `clear`.
    pub persist-IsSo :
        (x : Data)
        → IsSo (get_full_file_path P.join m) (after_persist x (persist m x s).0) (persist m x s).1
    persist-IsSo x =
        let so : Result (Unit {0}) → Type 0 =
          λ r. IsSo (get_full_file_path P.join m) (after_persist x r) (persist m x s).1 in
        elim (Result-cases (persist m x s).0) [
          | inl (u, e) ↦
              let h = persist-Stores F m x s e in
              subst so (sym e) (h.content, h.encodes, h.found, h.holds)
          | inr (inl (failure, e)) ↦ subst so (sym e) tt
          | inr (inr (t, e)) ↦ subst so (sym e) tt
        ]

    -- After a removal that succeeded the file is gone.
    clear-gone :
        (clear m s).0 ≡ ok tt → P.exists (clear m s).1.disk (get_full_file_path P.join m) ≡ ok false
    unfolding clear
    clear-gone h = ground (arith, F.exists-remove s.disk (get_full_file_path P.join m))

    -- The own path after `clear`, where a failure leaves nothing known.
    clear-IsSo_there :
        (k : Known)
        → failed k ≡ unknown
        → IsSo (get_full_file_path P.join m) (after_clear k (clear m s).0) (clear m s).1
    clear-IsSo_there k lost =
        let so : Result (Unit {0}) → Type 0 =
          λ r. IsSo (get_full_file_path P.join m) (after_clear k r) (clear m s).1 in
        elim (Result-cases (clear m s).0) [
          | inl (u, e) ↦ subst so (sym e) (clear-gone e)
          | inr (inl (failure, e)) ↦
              subst so (sym e)
                (subst (λ q. IsSo (get_full_file_path P.join m) q (clear m s).1) (sym lost) tt)
          | inr (inr (t, e)) ↦
              subst so (sym e)
                (subst (λ q. IsSo (get_full_file_path P.join m) q (clear m s).1) (sym lost) tt)
        ]

    clear-absent :
        P.exists s.disk (get_full_file_path P.join m) ≡ ok false
        → clear m s ≡ (err (not_exist (get_full_file_path P.join m)), s)
    unfolding clear
    clear-absent h = ground arith

    pub clear-IsSo :
        (k : Known)
        → IsSo (get_full_file_path P.join m) k s
        → ClearAllows (get_full_file_path P.join m) k (clear m s).0
          × IsSo (get_full_file_path P.join m) (after_clear k (clear m s).0) (clear m s).1
    clear-IsSo unknown h = (tt, clear-IsSo_there unknown refl)
    clear-IsSo (holds x) h = (tt, clear-IsSo_there (holds x) refl)
    clear-IsSo absent h =
        let path = get_full_file_path P.join m in
        let e = clear-absent h in
        (ap (λ r. r.0) e, subst (λ r. IsSo path (after_clear absent r.0) r.1) (sym e) h)

    pub get-Allows :
        ((x : Data) → RoundTrips P x)
        → (k : Known) → IsSo (get_full_file_path P.join m) k s
        → GetAllows (get_full_file_path P.join m) k (get m s).0
    unfolding get
    get-Allows json unknown h = tt
    get-Allows json absent h = ground arith
    get-Allows json (holds x) (content, encodes, found, read) =
        ground (arith, json x content encodes)

  -- A store that is changed at one path.
  set-Matches :
      (v : Store) (path : Bytes) (k : Known) (s t : State P)
      → IsSo path k t
      → ((other : Bytes) → other ≢ path → Same other s t)
      → Matches v s
      → Matches (set v path k) t
  set-Matches v path k s t own others h other = elim (Bool-cases (text_eq path other)) [
    | inl e ↦
        let same = (text_eq_iff path other).0 e in
        let chosen : set v path k other ≡ k = ground arith in
        subst (λ q. IsSo other q t) (sym chosen) (subst (λ q. IsSo q k t) same own)
    | inr e ↦
        let chosen : set v path k other ≡ v other = ground arith in
        subst (λ q. IsSo other q t) (sym chosen)
          (IsSo-Same other (v other) s t (others other (λ q. differ other e (sym q))) (h other))
  ]
    where
      differ : (other : Bytes) → text_eq path other ≡ false → path ≡ other → ⊥
      differ other e q = let same = (text_eq_iff path other).1 q in absurd (ground arith)

  module _ (F : IsFaithful P) (json : (x : Data) → RoundTrips P x) where
    perform-next :
        (o : Operation) (v : Store) (s : State P)
        → Matches v s
        → Allows P.join v o (perform o s).0
          × Matches (next P.join v o (perform o s).0) (perform o s).1
    perform-next (persists m x) v s h = (
      tt,
      set-Matches v (get_full_file_path P.join m) (after_persist x (persist m x s).0) s
          (persist m x s).1 (persist-IsSo F m s x) (persist-Same F m s x) h,
    )
    perform-next (gets m) v s h = (
      get-Allows F m s json (v (get_full_file_path P.join m)) (h (get_full_file_path P.join m)),
      subst (Matches v) (sym (get-state m s)) h,
    )
    perform-next (clears m) v s h =
        let path = get_full_file_path P.join m in
        let (allowed, so) = clear-IsSo F m s (v path) (h path) in
        (
          allowed,
          set-Matches v path (after_clear (v path) (clear m s).0) s (clear m s).1 so
              (clear-Same F m s) h,
        )

    answers-of_Matches :
        (os : List Operation) (v : Store) (s : State P)
        → Matches v s
        → Conforms P.join v os (answers os s)
    answers-of_Matches [] v s h = tt
    answers-of_Matches (o ∷ os) v s h =
        let (allowed, further) = perform-next o v s h in
        (allowed, answers-of_Matches os (next P.join v o (perform o s).0) (perform o s).1 further)

    -- Refinement: whatever operations of whatever metadata managers run in sequence, in any state, their
    -- answers are ones of a store of values by path of which nothing is known at first: a value is got as
    -- the last `persist` that succeeded put it, a file that was cleared with success is got and cleared
    -- with the error that it does not exist, and operations on other paths change neither. After an
    -- operation that failed the path is not known, but a `clear` of an absent file leaves it absent. A
    -- faithful file system is assumed, and that every value survives JSON.
    pub answers-Conforms :
        (os : List Operation) (s : State P) → Conforms P.join (λ _. unknown) os (answers os s)
    answers-Conforms os s = answers-of_Matches os (λ _. unknown) s (λ path. tt)
