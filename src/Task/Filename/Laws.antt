-- ===== src/Task/Filename/Laws.antt =====
-- Which jobs share a file name (task/filename.go).
use gitlab_ci_fargate_arm_dr.Prelude.{
  ℕ, ◌^◌, ◌<◌, ◌≡◌, ap, sym, ◌∙◌, Bytes, ◌∷◌, ◌++◌, append_assoc, arith, All, Lacks, split_last,
}
use gitlab_ci_fargate_arm_dr.Go.Int.{ℤ, pos}
use gitlab_ci_fargate_arm_dr.Go.Decimal.{fmt_int}
use gitlab_ci_fargate_arm_dr.Go.Decimal.RoundTrip.{fmt_uint-Lacks, fmt_uint-injective}
use gitlab_ci_fargate_arm_dr.Go.Hex.{hex, IsByte, hex-injective, hex-Lacks}
use gitlab_ci_fargate_arm_dr.Task.Filename.{RunnerData, long_id, generate_filename}

-- An identifier as GitLab gives it: not negative, and an int64.
pub data IsId : ℤ → Type 0 where
  id : (n : ℕ) → n < 2 ^ 63 → IsId (pos n)

abbrev pub HasIds : RunnerData → Type 0
HasIds d = IsId d.pipeline_id × IsId d.job_id

IsId-Lacks : {z : ℤ} → IsId z → Lacks b'-' (fmt_int z)
unfolding fmt_int
IsId-Lacks (id n h) = fmt_uint-Lacks n

IsId-injective : {y z : ℤ} → IsId y → IsId z → fmt_int y ≡ fmt_int z → y ≡ z
unfolding fmt_int
IsId-injective (id m hm) (id n hn) e = ap pos (fmt_uint-injective m n hm hn e)

long_id_split :
    (c d : RunnerData)
    → HasIds c
    → HasIds d
    → long_id c ≡ long_id d
    → (c.project_url ≡ d.project_url) × (c.pipeline_id ≡ d.pipeline_id) × (c.job_id ≡ d.job_id)
unfolding long_id
long_id_split c d hc hd e =
    let regroup = λ (r : RunnerData).
      append_assoc r.project_url (b'-' ∷ fmt_int r.pipeline_id) (b'-' ∷ fmt_int r.job_id) in
    let (front, job) =
      split_last b'-' (c.project_url ++ (b'-' ∷ fmt_int c.pipeline_id))
        (d.project_url ++ (b'-' ∷ fmt_int d.pipeline_id)) _ _ (IsId-Lacks hc.1) (IsId-Lacks hd.1)
        (regroup c ∙ e ∙ sym (regroup d)) in
    let (url, pipeline) =
      split_last b'-' c.project_url d.project_url _ _ (IsId-Lacks hc.0) (IsId-Lacks hd.0) front in
    (url, IsId-injective hc.0 hd.0 pipeline, IsId-injective hc.1 hd.1 job)

filename_split :
    (sha256 : Bytes → Bytes) (c d : RunnerData)
    → generate_filename sha256 c ≡ generate_filename sha256 d
    → (c.short_token ≡ d.short_token) × (hex (sha256 (long_id c)) ≡ hex (sha256 (long_id d)))
unfolding generate_filename
filename_split sha256 c d =
    split_last b'-' c.short_token d.short_token _ _ (hex-Lacks (sha256 (long_id c)))
      (hex-Lacks (sha256 (long_id d)))

-- Two jobs with ids that are not negative, whose file names are equal, are the same job: the
-- token, the project's URL, the pipeline and the job agree, provided that SHA-256 gives bytes and
-- does not map the two jobs' texts to one hash.
pub generate_filename-injective :
    (sha256 : Bytes → Bytes) (c d : RunnerData)
    → ((s : Bytes) → All IsByte (sha256 s))
    → (sha256 (long_id c) ≡ sha256 (long_id d) → long_id c ≡ long_id d)
    → HasIds c
    → HasIds d
    → generate_filename sha256 c ≡ generate_filename sha256 d
    → c ≡ d
generate_filename-injective sha256 c d bytes no_collision hc hd e =
    let (token, hash) = filename_split sha256 c d e in
    let same = no_collision (hex-injective _ _ (bytes (long_id c)) (bytes (long_id d)) hash) in
    let (url, pipeline, job) = long_id_split c d hc hd same in ground arith
