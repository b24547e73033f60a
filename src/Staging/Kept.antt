-- ===== src/Staging/Kept.antt =====
-- internal/application/application.go: what Unstage does not delete.
use epinio.Base.{
  true, false, List, [], ◌∷◌, ◌++◌, Option, none, some, ◌≡◌, refl, ap, Result, ok, err, All,
  Bool-cases, inl, inr,
}
use epinio.Text.{Text, ◌==◌}
use epinio.Staging.{
  Job, Services, is_current, same_blob, blob_uid, attempt, attempt_blob, failed_at, chain,
  delete_jobs, cleanup_s3_blobs, unstage, is_quota_exceeded_error,
}

module _ {W : Type 0} (P : W → Type 0) where
  pub attempt_keeps :
      {A : Type 0} (r : W × Option Text) (next : W → W × Result Text A)
      → P r.0
      → ((w : W) → P w → P (next w).0)
      → P (attempt r next).0
  attempt_keeps (w, none) next p h = h w p
  attempt_keeps (w, some e) next p h = p

  failed_at_keeps : (uid : Text) (r : W × Result Text (List Text)) → P r.0 → P (failed_at uid r).0
  failed_at_keeps uid (w, ok uids) p = p
  failed_at_keeps uid (w, err e) p = p

  pub attempt_blob_keeps :
      (uid : Text) (r : W × Option Text) (next : W → W × Result Text (List Text))
      → P r.0
      → ((w : W) → P w → P (next w).0)
      → P (attempt_blob uid r next).0
  attempt_blob_keeps uid (w, none) next p h = h w p
  attempt_blob_keeps uid (w, some e) next p h = elim (Bool-cases (is_quota_exceeded_error e)) [
    | inl q ↦ rw q (failed_at_keeps uid (next w) (h w p))
    | inr q ↦ rw q p
  ]

-- What every deletion of a job, of a secret, and of a blob other than one keeps.
abbrev pub Harmless : {W : Type 0} → Services W → Text → (W → Type 0) → Type 0
Harmless {W} services uid P =
    ((w : W) (namespace name : Text) → P w → P (services.delete_job w namespace name).0)
    × ((w : W) (namespace name : Text) → P w → P (services.delete_secret w namespace name).0)
    × ((w : W) (other : Text) → (other == uid) ≡ false → P w → P (services.delete_object w other).0)

module _ {W : Type 0} (services : Services W) (uid : Text) (P : W → Type 0)
    (h : Harmless services uid P) where
  delete_jobs_keeps :
      (id : Text) (jobs : List Job) (current : Option Job) (w : W)
      → P w
      → P (delete_jobs services id jobs current w).0
  unfolding delete_jobs
  delete_jobs_keeps id [] current w p = p
  delete_jobs_keeps id (job ∷ jobs) current w p = elim (Bool-cases (is_current id job)) [
    | inl c ↦ rw c (delete_jobs_keeps id jobs (some job) w p)
    | inr c ↦ rw c (
        attempt_keeps P (services.delete_job w job.namespace job.name) _
          (h.0 w job.namespace job.name p)
          λ w1 p1.
            attempt_keeps P (services.delete_secret w1 job.namespace job.name) _
              (h.1 w1 job.namespace job.name p1) λ w2 p2. delete_jobs_keeps id jobs current w2 p2)
  ]

  cleanup_keeps :
      (current : Job) (jobs : List Job) (w : W)
      → blob_uid current ≡ uid
      → P w
      → P (cleanup_s3_blobs services (some current) jobs w).0
  unfolding cleanup_s3_blobs
  cleanup_keeps current [] w e p = p
  cleanup_keeps current (job ∷ jobs) w e p = elim (Bool-cases (same_blob (some current) job)) [
    | inl c ↦ rw c (cleanup_keeps current jobs w e p)
    | inr c ↦ rw c (
        attempt_blob_keeps P (blob_uid job) (services.delete_object w (blob_uid job)) _
          (h.2 w (blob_uid job) (rw e at c) p) λ w1 p1. cleanup_keeps current jobs w1 e p1)
  ]

attempt-ok :
    {W A : Type 0} (r : W × Option Text) (next : W → W × Result Text A) (a : A)
    → (attempt r next).1 ≡ ok a
    → (w : W) × ((next w).1 ≡ ok a)
attempt-ok (w, none) next a e = (w, e)
attempt-ok (w, some x) next a e = absurd (cc)

module _ {W : Type 0} (services : Services W) (id : Text) where
  abbrev pub NotCurrent : List Job → Type 0
  NotCurrent = All (λ job. is_current id job ≡ false)

  -- Where no job is to be kept, the current one stays what it was.
  pub delete_jobs_unchanged :
      (jobs : List Job) (current result : Option Job) (w : W)
      → NotCurrent jobs
      → (delete_jobs services id jobs current w).1 ≡ ok result
      → result ≡ current
  unfolding delete_jobs
  delete_jobs_unchanged [] current result w n e = cc
  delete_jobs_unchanged (job ∷ jobs) current result w n e =
      let (w1, e1) =
        attempt-ok (services.delete_job w job.namespace job.name) _ result
          (rw (n.0, delete_jobs) at e) in
      let (w2, e2) = attempt-ok (services.delete_secret w1 job.namespace job.name) _ result e1 in
      delete_jobs_unchanged jobs current result w2 n.1 e2

  delete_jobs-current :
      (before after : List Job) (current : Job) (known result : Option Job) (w : W)
      → is_current id current ≡ true
      → NotCurrent after
      → (delete_jobs services id (before ++ current ∷ after) known w).1 ≡ ok result
      → result ≡ some current
  unfolding delete_jobs
  delete_jobs-current [] after current known result w c n e =
      delete_jobs_unchanged after (some current) result w n (rw (c, delete_jobs) at e)
  delete_jobs-current (job ∷ before) after current known result w c n e =
      elim (Bool-cases (is_current id job)) [
        | inl k ↦
            delete_jobs-current before after current (some job) result w c n
              (rw (k, delete_jobs) at e)
        | inr k ↦
            let (w1, e1) =
              attempt-ok (services.delete_job w job.namespace job.name) _ result
                (rw (k, delete_jobs) at e) in
            let (w2, e2) =
              attempt-ok (services.delete_secret w1 job.namespace job.name) _ result e1 in
            delete_jobs-current before after current known result w2 c n e2
      ]

-- As long as a job of the stage to keep is listed, and whatever fails, `Unstage` keeps all that the
-- deletions of jobs, of secrets, and of blobs other than the one of that job keep: so the blob of the
-- current stage is not deleted.
pub unstage_keeps_blob :
    {W : Type 0} (services : Services W) (P : W → Type 0) (name namespace id : Text) (w : W)
    (before after : List Job) (current : Job)
    → Harmless services (blob_uid current) P
    → services.list_jobs w name namespace ≡ ok (before ++ current ∷ after)
    → is_current id current ≡ true
    → All (λ job. is_current id job ≡ false) after
    → P w
    → P (unstage services name namespace id w).0
unfolding unstage
unstage_keeps_blob {W = W} services P name namespace id w before after current h listed c n p =
    connected (services.connect w) refl
  where
    cleaned :
        (r : W × Result Text (Option Job))
        → P r.0
        → ((result : Option Job) → r.1 ≡ ok result → result ≡ some current)
        → P (chain r λ found w1. cleanup_s3_blobs services found (before ++ current ∷ after) w1).0
    cleaned (w1, err e) q k = q
    cleaned (w1, ok none) q k = absurd (let wrong = k none refl in cc)
    cleaned (w1, ok (some found)) q k =
        let same : found ≡ current = let all = k (some found) refl in cc in
        cleanup_keeps services (blob_uid current) P h found (before ++ current ∷ after) w1
          (ap (λ (j : Job). blob_uid j) same) q

    connected :
        (o : Option Text) → services.connect w ≡ o → P (unstage services name namespace id w).0
    connected (some e) k = rw (k, unstage) p
    connected none k =
        rw (k, unstage, listed)
          (cleaned (delete_jobs services id (before ++ current ∷ after) none w)
            (delete_jobs_keeps services (blob_uid current) P h id (before ++ current ∷ after) none w
              p)
            λ result e. delete_jobs-current services id before after current none result w c n e)
