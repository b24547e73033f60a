-- ===== src/Staging.antt =====
-- internal/application/application.go: the jobs that stage an application, their status, and Unstage;
-- internal/s3manager/s3manager.go: the errors of an exceeded quota. The calls of the cluster and of the
-- S3 storage are parameters, which change a state of theirs.
pub mod Kept
pub mod Deleted
pub mod Status
pub mod Tests
use epinio.Base.{
  ℕ, Bool, true, false, ◌&&◌, ◌||◌, not, List, [], ◌∷◌, Option, none, some, if◌then◌else◌, Result,
  ok, err, get_or,
}
use epinio.Text.{Text, codes, ◌==◌}
use epinio.Text.Affix.{is_empty}
use epinio.Text.Prefix.{contains}
use epinio.Text.Maps.{Map, lookup, insert}
use epinio.Listing.{to_lower}
use epinio.App.Bindings.{encode_configuration_key}

pub data ConditionType : Type 0 where
  job_complete job_failed other_condition : ConditionType

-- A condition of a job, and whether its status is "True".
pub record JobCondition : Type 0 where
  pub type : ConditionType
  pub status : Bool

pub record Job : Type 0 where
  pub name : Text
  pub namespace : Text
  pub labels : Map Text
  pub conditions : List JobCondition

pub data ApplicationStagingStatus : Type 0 where
  staging_failed staging_done staging_active : ApplicationStagingStatus

-- A read of a missing label gives the empty text.
abbrev pub label : Text → Job → Text
label key job = get_or (lookup key job.labels) []

abbrev pub terminal : JobCondition → Option ApplicationStagingStatus
terminal c = elim c.type [
  | job_failed ↦ if c.status then some staging_failed else none
  | job_complete ↦ if c.status then some staging_done else none
  | other_condition ↦ none
]

-- `jobStaging`: the first terminal condition decides.
unfoldable pub job_staging : List JobCondition → ApplicationStagingStatus
job_staging [] = staging_active
job_staging (c ∷ cs) = elim (terminal c) [ some status ↦ status | none ↦ job_staging cs ]

abbrev pub job_key : Job → Text
job_key job =
    encode_configuration_key (label (codes "app.kubernetes.io/name") job)
      (label (codes "app.kubernetes.io/part-of") job)

-- The loop of `stagingStatus` over the jobs.
unfoldable pub staging_statuses :
    List Job → Map ApplicationStagingStatus → Map ApplicationStagingStatus
unfolding job_staging
staging_statuses [] statuses = statuses
staging_statuses (job ∷ jobs) statuses =
    staging_statuses jobs (insert (job_key job) (job_staging job.conditions) statuses)

abbrev pub is_active : Option ApplicationStagingStatus → Bool
is_active none = false
is_active (some staging_active) = true
is_active (some staging_done) = false
is_active (some staging_failed) = false

-- `IsCurrentlyStaging`, on the jobs that are listed.
unfoldable pub is_currently_staging : Text → Text → Result Text (List Job) → Result Text Bool
unfolding staging_statuses
is_currently_staging name namespace (err e) = err e
is_currently_staging name namespace (ok jobs) =
    ok (is_active (lookup (encode_configuration_key name namespace) (staging_statuses jobs [])))

-- `IsQuotaExceededError`, on the text of an error.
unfoldable pub is_quota_exceeded_error : Text → Bool
is_quota_exceeded_error e =
    let s = to_lower e in
    contains s (codes "quotaexceeded")
    || contains s (codes "quota exceeded")
    || contains s (codes "quota limit")
    || contains s (codes "insufficient storage")
    || contains s (codes "storage quota")
    || contains s (codes "minimum free drive threshold")

-- The calls, of which a deletion may fail with an error.
pub record Services (W : Type 0) : Type 0 where
  pub connect : W → Option Text
  pub list_jobs : W → Text → Text → Result Text (List Job)
  pub delete_job : W → Text → Text → W × Option Text
  pub delete_secret : W → Text → Text → W × Option Text
  pub delete_object : W → Text → W × Option Text

abbrev pub stage_id : Job → Text
stage_id = label (codes "epinio.io/stage-id")

abbrev pub blob_uid : Job → Text
blob_uid = label (codes "epinio.io/blob-uid")

-- A job to keep: the id is empty or the one to keep.
abbrev pub is_current : Text → Job → Bool
is_current id job = not (is_empty id) && id == stage_id job

abbrev pub same_blob : Option Job → Job → Bool
same_blob none job = false
same_blob (some current) job = blob_uid job == blob_uid current

module _ {W : Type 0} where
  -- A deletion, whose error ends the whole.
  abbrev pub attempt : {A : Type 0} → W × Option Text → (W → W × Result Text A) → W × Result Text A
  attempt (w, none) next = next w
  attempt (w, some e) next = (w, err e)

  abbrev pub chain :
      {A B : Type 0} → W × Result Text A → (A → W → W × Result Text B) → W × Result Text B
  chain (w, ok a) next = next a w
  chain (w, err e) next = (w, err e)

  abbrev pub failed_at : Text → W × Result Text (List Text) → W × Result Text (List Text)
  failed_at uid (w, ok uids) = (w, ok (uid ∷ uids))
  failed_at uid (w, err e) = (w, err e)

  -- The deletion of a blob, which goes on after an error of the quota.
  abbrev pub attempt_blob :
      Text → W × Option Text → (W → W × Result Text (List Text)) → W × Result Text (List Text)
  attempt_blob uid (w, none) next = next w
  attempt_blob uid (w, some e) next =
      if is_quota_exceeded_error e then failed_at uid (next w) else (w, err e)

module _ {W : Type 0} (services : Services W) where
  -- The loop of `Unstage`, which deletes a job and its secret, and gives the current job.
  unfoldable pub delete_jobs : Text → List Job → Option Job → W → W × Result Text (Option Job)
  delete_jobs id [] current w = (w, ok current)
  delete_jobs id (job ∷ jobs) current w =
      let kept = delete_jobs id jobs (some job) w in
      if is_current id job
      then kept
      else attempt (services.delete_job w job.namespace job.name) λ w1.
        attempt (services.delete_secret w1 job.namespace job.name)
          λ w2. delete_jobs id jobs current w2

  -- `CleanupS3Blobs`, with the blobs that an exceeded quota has left.
  unfoldable pub cleanup_s3_blobs : Option Job → List Job → W → W × Result Text (List Text)
  cleanup_s3_blobs current [] w = (w, ok [])
  cleanup_s3_blobs current (job ∷ jobs) w =
      let kept = cleanup_s3_blobs current jobs w in
      if same_blob current job
      then kept
      else attempt_blob (blob_uid job) (services.delete_object w (blob_uid job))
          λ w1. cleanup_s3_blobs current jobs w1

  -- `Unstage`
  unfoldable pub unstage : Text → Text → Text → W → W × Result Text (List Text)
  unfolding delete_jobs cleanup_s3_blobs
  unstage name namespace id w = elim (services.connect w) [
    | some e ↦ (w, err e)
    | none ↦ elim (services.list_jobs w name namespace) [
      | err e ↦ (w, err e)
      | ok jobs ↦ chain (delete_jobs id jobs none w) λ current w1. cleanup_s3_blobs current jobs w1
    ]
  ]
