-- ===== src/Staging/Tests.antt =====
-- Runs of IsCurrentlyStaging, Unstage and CleanupS3Blobs.
use epinio.App.Bindings.{encode_configuration_key}
use epinio.Text.Prefix.{contains}
use epinio.Text.Maps.{lookup}
use epinio.Base.{
  Bool, true, false, List, [], ◌∷◌, none, some, ◌≡◌, refl, ok, All, if◌then◌else◌, ◌↔◌, inl, inr,
  Bool-cases, ◌++◌,
}
use epinio.Text.{Text, codes, ◌==◌, ==_iff, elem}
use epinio.Staging.{
  Job, JobCondition, job_complete, other_condition, Services, is_quota_exceeded_error,
  is_currently_staging, unstage, cleanup_s3_blobs,
}
use epinio.Staging.Kept.{unstage_keeps_blob}
use epinio.Staging.Deleted.{Deletes, Cleaned, cleanup_s3_blobs-Cleaned}
use epinio.Staging.Status.{Running, is_currently_staging_iff}

abbrev pub job_of : Text → Text → List JobCondition → Job
job_of id uid conditions = record {
  name = codes "stage-" ++ id;
  namespace = codes "epinio";
  labels =
      (codes "app.kubernetes.io/name", codes "app")
      ∷ (codes "app.kubernetes.io/part-of", codes "team")
      ∷ (codes "epinio.io/stage-id", id)
      ∷ (codes "epinio.io/blob-uid", uid)
      ∷ [];
  conditions = conditions;
}

abbrev done : JobCondition
done = record { type = job_complete; status = true }

abbrev suspended : JobCondition
suspended = record { type = other_condition; status = true }

abbrev jobs : List Job
jobs =
    job_of (codes "1") (codes "a") (done ∷ [])
    ∷ job_of (codes "2") (codes "b") (done ∷ [])
    ∷ job_of (codes "3") (codes "c") (suspended ∷ [])
    ∷ []

quota_test :
    (is_quota_exceeded_error (codes "Storage Quota reached") ≡ true)
    × (is_quota_exceeded_error (codes "access denied") ≡ false)
unfolding is_quota_exceeded_error contains
quota_test = (refl, refl)

-- The blobs that are there, of which "c" cannot be deleted for the quota.
abbrev pub storage : Services (Text → Bool)
storage = record {
  connect = λ w. none;
  list_jobs = λ w name namespace. ok jobs;
  delete_job = λ w namespace name. (w, none);
  delete_secret = λ w namespace name. (w, none);
  delete_object = λ w uid.
      if uid == codes "c"
      then (w, some (codes "QuotaExceeded"))
      else (λ other. if uid == other then false else w other, none);
}

abbrev blobs : Text → Bool
blobs uid = elem uid (codes "a" ∷ codes "b" ∷ codes "c" ∷ [])

unstage_test :
    let r = unstage storage (codes "app") (codes "team") (codes "2") blobs in
    (r.1 ≡ ok (codes "c" ∷ [])) × (r.0 (codes "a") ≡ false) × (r.0 (codes "c") ≡ true)
unfolding unstage ◌==◌ lookup is_quota_exceeded_error contains
unstage_test = (refl, refl, refl)

is_currently_staging_iff_example :
    (is_currently_staging (codes "app") (codes "team") (ok jobs) ≡ ok true)
    ↔ Running (suspended ∷ [])
unfolding ◌==◌ encode_configuration_key lookup
is_currently_staging_iff_example =
    is_currently_staging_iff (codes "app") (codes "team") jobs
      (job_of (codes "3") (codes "c") (suspended ∷ [])) refl

unstage_keeps_blob_example :
    (unstage storage (codes "app") (codes "team") (codes "2") blobs).0 (codes "b") ≡ true
unfolding lookup ◌==◌
unstage_keeps_blob_example =
    unstage_keeps_blob storage (λ w. w (codes "b") ≡ true) (codes "app") (codes "team") (codes "2")
      blobs (job_of (codes "1") (codes "a") (done ∷ []) ∷ [])
      (job_of (codes "3") (codes "c") (suspended ∷ []) ∷ [])
      (job_of (codes "2") (codes "b") (done ∷ []))
      ((λ w namespace name e. e), (λ w namespace name e. e), kept) refl refl (refl, tt) refl
  where
    kept :
        (w : Text → Bool) (other : Text)
        → (other == codes "b") ≡ false
        → w (codes "b") ≡ true
        → (storage.delete_object w other).0 (codes "b") ≡ true
    kept w other e p = elim (Bool-cases (other == codes "c")) [
      | inl c ↦ rw c p
      | inr c ↦ rw (c, e) p
    ]

pub storage-Deletes : Deletes storage (λ w uid. w uid)
storage-Deletes = (gone, absent)
  where
    gone :
        (w : Text → Bool) (uid : Text)
        → (storage.delete_object w uid).1 ≡ none
        → (storage.delete_object w uid).0 uid ≡ false
    gone w uid e = elim (Bool-cases (uid == codes "c")) [
      | inl c ↦ absurd (cc (rw c at e))
      | inr c ↦ let same : (uid == uid) ≡ true = (==_iff uid uid).1 refl in rw (c, same) refl
    ]

    absent :
        (w : Text → Bool) (uid other : Text)
        → w other ≡ false
        → (storage.delete_object w uid).0 other ≡ false
    absent w uid other e = elim (Bool-cases (uid == codes "c")) [
      | inl c ↦ rw c e
      | inr c ↦
          rw (c, e) (elim (Bool-cases (uid == other)) [ inl s ↦ rw s refl | inr s ↦ rw s refl ])
    ]

cleanup_s3_blobs-Cleaned_example :
    All
      (Cleaned (λ w uid. w uid) none (cleanup_s3_blobs storage none jobs blobs).0 (codes "c" ∷ []))
      jobs
unfolding cleanup_s3_blobs ◌==◌ lookup is_quota_exceeded_error contains
cleanup_s3_blobs-Cleaned_example =
    cleanup_s3_blobs-Cleaned storage (λ w uid. w uid) storage-Deletes none jobs blobs
      (codes "c" ∷ []) refl
