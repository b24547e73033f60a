-- ===== src/Staging/Deleted.antt =====
-- internal/application/application.go: what CleanupS3Blobs has deleted when it succeeds.
use epinio.Base.{
  Bool, true, false, List, [], ◌∷◌, Option, none, some, ◌≡◌, ◌⊎◌, refl, subst, sym, ◌∙◌, Result, ok,
  err, All, Bool-cases, inl, inr, arith, ap,
}
use epinio.Text.{Text, ==_iff, elem}
use epinio.Staging.{
  Job, Services, same_blob, blob_uid, attempt_blob, failed_at, cleanup_s3_blobs,
  is_quota_exceeded_error,
}
use epinio.Staging.Kept.{attempt_blob_keeps}

-- A deletion without an error deletes the blob, and no deletion makes another one.
abbrev pub Deletes : {W : Type 0} → Services W → (W → Text → Bool) → Type 0
Deletes {W} services has =
    ((w : W) (uid : Text)
      → (services.delete_object w uid).1 ≡ none
      → has (services.delete_object w uid).0 uid ≡ false)
    × ((w : W) (uid other : Text)
        → has w other ≡ false
        → has (services.delete_object w uid).0 other ≡ false)

-- A blob is the current one, is gone, or is one of those that the quota has left.
abbrev pub Cleaned : {W : Type 0} → (W → Text → Bool) → Option Job → W → List Text → Job → Type 0
Cleaned has current w failed job =
    (same_blob current job ≡ true)
    ⊎ ((has w (blob_uid job) ≡ false) ⊎ (elem (blob_uid job) failed ≡ true))

module _ {W : Type 0} (services : Services W) (has : W → Text → Bool) (h : Deletes services has)
    (current : Option Job) where
  stays_deleted :
      (jobs : List Job) (w : W) (uid : Text)
      → has w uid ≡ false
      → has (cleanup_s3_blobs services current jobs w).0 uid ≡ false
  unfolding cleanup_s3_blobs
  stays_deleted [] w uid e = e
  stays_deleted (job ∷ jobs) w uid e = elim (Bool-cases (same_blob current job)) [
    | inl c ↦ rw c (stays_deleted jobs w uid e)
    | inr c ↦ rw c (
        attempt_blob_keeps (λ v. has v uid ≡ false) (blob_uid job)
          (services.delete_object w (blob_uid job)) _ (h.1 w (blob_uid job) uid e)
          λ w1 e1. stays_deleted jobs w1 uid e1)
  ]

  failed_at-ok :
      (uid : Text) (r : W × Result Text (List Text)) (failed : List Text)
      → (failed_at uid r).1 ≡ ok failed
      → (rest : List Text) × (r.1 ≡ ok rest) × (failed ≡ uid ∷ rest) × ((failed_at uid r).0 ≡ r.0)
  failed_at-ok uid (w, ok rest) failed e = (rest, refl, cc, refl)
  failed_at-ok uid (w, err x) failed e = absurd (cc)

  more_failed :
      (w : W) (uid : Text) (failed : List Text) (jobs : List Job)
      → All (Cleaned has current w failed) jobs
      → All (Cleaned has current w (uid ∷ failed)) jobs
  more_failed w uid failed [] a = tt
  more_failed w uid failed (job ∷ jobs) (a, rest) = (more a, more_failed w uid failed jobs rest)
    where
      more : Cleaned has current w failed job → Cleaned has current w (uid ∷ failed) job
      more (inl c) = inl c
      more (inr (inl g)) = inr (inl g)
      more (inr (inr f)) = inr (inr (ground arith))

  -- When it succeeds, every blob of the jobs is gone unless it is the current one or is returned as
  -- one that could not be deleted for the quota.
  pub cleanup_s3_blobs-Cleaned :
      (jobs : List Job) (w : W) (failed : List Text)
      → (cleanup_s3_blobs services current jobs w).1 ≡ ok failed
      → All (Cleaned has current (cleanup_s3_blobs services current jobs w).0 failed) jobs
  unfolding cleanup_s3_blobs
  cleanup_s3_blobs-Cleaned [] w failed e = tt
  cleanup_s3_blobs-Cleaned (job ∷ jobs) w failed e = elim (Bool-cases (same_blob current job)) [
    | inl c ↦
        let step : cleanup_s3_blobs services current (job ∷ jobs) w
            ≡ cleanup_s3_blobs services current jobs w =
          rw (c, cleanup_s3_blobs) refl in
        subst (λ r. r.1 ≡ ok failed → All (Cleaned has current r.0 failed) (job ∷ jobs)) (sym step)
          (λ g. (inl c, cleanup_s3_blobs-Cleaned jobs w failed g)) e
    | inr c ↦
        let step : cleanup_s3_blobs services current (job ∷ jobs) w ≡ (
            attempt_blob (blob_uid job) (services.delete_object w (blob_uid job))
              λ w1. cleanup_s3_blobs services current jobs w1) =
          rw (c, cleanup_s3_blobs) refl in
        subst (λ r. r.1 ≡ ok failed → All (Cleaned has current r.0 failed) (job ∷ jobs)) (sym step)
          (λ g.
            deleted (services.delete_object w (blob_uid job)) refl g
              λ w1 others k. cleanup_s3_blobs-Cleaned jobs w1 others k)
          e
  ]
    where
      deleted :
          (r : W × Option Text)
          → services.delete_object w (blob_uid job) ≡ r
          → (attempt_blob (blob_uid job) r λ w1. cleanup_s3_blobs services current jobs w1).1
            ≡ ok failed
          → ((w1 : W) (others : List Text)
              → (cleanup_s3_blobs services current jobs w1).1 ≡ ok others
              → All (Cleaned has current (cleanup_s3_blobs services current jobs w1).0 others) jobs)
          → All
              (Cleaned has current
                (attempt_blob (blob_uid job) r λ w1. cleanup_s3_blobs services current jobs w1).0
                failed)
              (job ∷ jobs)
      deleted (w1, none) k g below =
          let done : (services.delete_object w (blob_uid job)).1 ≡ none =
            ap (λ (r : W × Option Text). r.1) k in
          let gone : has w1 (blob_uid job) ≡ false =
            sym (ap (λ (r : W × Option Text). has r.0 (blob_uid job)) k)
            ∙ h.0 w (blob_uid job) done in
          (inr (inl (stays_deleted jobs w1 (blob_uid job) gone)), below w1 failed g)
      deleted (w1, some x) k g below = elim (Bool-cases (is_quota_exceeded_error x)) [
        | inr q ↦ absurd (cc (rw q at g))
        | inl q ↦
            let (rest, made, same, state) =
              failed_at-ok (blob_uid job) (cleanup_s3_blobs services current jobs w1) failed
                (rw q at g) in
            let listed : elem (blob_uid job) (blob_uid job ∷ rest) ≡ true =
              ground (arith, ==_iff (blob_uid job) (blob_uid job)) in
            let after : (attempt_blob (blob_uid job) (w1, some x)
                  λ v. cleanup_s3_blobs services current jobs v).0
                ≡ (cleanup_s3_blobs services current jobs w1).0 =
              rw q state in
            subst (λ s. All (Cleaned has current s failed) (job ∷ jobs)) (sym after)
              (subst
                (λ f.
                  All (Cleaned has current (cleanup_s3_blobs services current jobs w1).0 f)
                    (job ∷ jobs))
                (sym same)
                (
                  inr (inr listed),
                  more_failed (cleanup_s3_blobs services current jobs w1).0 (blob_uid job) rest jobs
                      (below w1 rest made),
                ))
      ]
