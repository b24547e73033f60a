-- ===== src/Staging/Status.antt =====
-- internal/application/application.go: when an application is staging.
use epinio.Base.{
  Bool, true, false, List, [], ◌∷◌, Option, none, some, ◌≡◌, ◌↔◌, refl, ◌∙◌, if◌then◌else◌, Result,
  ok, All, ◌⊎◌, inl, inr,
}
use epinio.Text.{Text, ◌==◌}
use epinio.Text.Maps.{Map, lookup, insert, lookup-insert}
use epinio.App.Bindings.{encode_configuration_key}
use epinio.Staging.{
  Job, JobCondition, ConditionType, job_complete, job_failed, other_condition, is_active,
  ApplicationStagingStatus, staging_active, staging_done, staging_failed, job_staging, job_key,
  staging_statuses, is_currently_staging,
}

-- The last of the jobs with a key.
abbrev pub last_job : Text → List Job → Option Job
last_job key [] = none
last_job key (job ∷ jobs) = elim (last_job key jobs) [
  | some last ↦ some last
  | none ↦ if job_key job == key then some job else none
]

abbrev status_of : Option Job → Option ApplicationStagingStatus → Option ApplicationStagingStatus
status_of none old = old
status_of (some job) old = some (job_staging job.conditions)

staging_statuses-last_job :
    (key : Text) (jobs : List Job) (statuses : Map ApplicationStagingStatus)
    → lookup key (staging_statuses jobs statuses)
      ≡ status_of (last_job key jobs) (lookup key statuses)
unfolding staging_statuses
staging_statuses-last_job key [] statuses = refl
staging_statuses-last_job key (job ∷ jobs) statuses =
    rw
      (
        staging_statuses-last_job key jobs
            (insert (job_key job) (job_staging job.conditions) statuses),
        lookup-insert,
      )
      (last (last_job key jobs) (job_key job == key))
  where
    last :
        (o : Option Job) (b : Bool)
        → status_of o (if b then some (job_staging job.conditions) else lookup key statuses)
          ≡ status_of
              (elim o [ some j ↦ some j | none ↦ if b then some job else none ])
              (lookup key statuses)
    last (some j) b = refl
    last none true = refl
    last none false = refl

-- A condition that holds, and says that the job is complete or has failed.
abbrev pub IsTerminal : JobCondition → Type 0
IsTerminal c = (c.status ≡ true) × ((c.type ≡ job_complete) ⊎ (c.type ≡ job_failed))

abbrev pub Running : List JobCondition → Type 0
Running = All (λ c. ¬ IsTerminal c)

other_is_not_terminal : ¬ ((other_condition ≡ job_complete) ⊎ (other_condition ≡ job_failed))
other_is_not_terminal (inl e) = cc
other_is_not_terminal (inr e) = cc

job_staging-Running : (cs : List JobCondition) → (job_staging cs ≡ staging_active) ↔ Running cs
unfolding job_staging
job_staging-Running [] = (λ e. tt, λ r. refl)
job_staging-Running (c ∷ cs) = step c.type c.status (job_staging-Running cs)
  where
    step :
        (type : ConditionType) (status : Bool)
        → ((job_staging cs ≡ staging_active) ↔ Running cs)
        → (job_staging (record { type = type; status = status } ∷ cs) ≡ staging_active)
          ↔ Running (record { type = type; status = status } ∷ cs)
    step job_failed true h = (λ e. absurd (cc), λ r. absurd (r.0 (refl, inr refl)))
    step job_complete true h = (λ e. absurd (cc), λ r. absurd (r.0 (refl, inl refl)))
    step job_failed false h = (λ e. (λ t. cc t.0, h.0 e), λ r. h.1 r.1)
    step job_complete false h = (λ e. (λ t. cc t.0, h.0 e), λ r. h.1 r.1)
    step other_condition status h = (λ e. (λ t. other_is_not_terminal t.1, h.0 e), λ r. h.1 r.1)

-- An application of which jobs are listed counts as staging if and only if no condition that holds
-- says of the last of these jobs that it is complete or has failed; the jobs before it do not count,
-- even if they are still active.
pub is_currently_staging_iff :
    (name namespace : Text) (jobs : List Job) (job : Job)
    → last_job (encode_configuration_key name namespace) jobs ≡ some job
    → (is_currently_staging name namespace (ok jobs) ≡ ok true) ↔ Running job.conditions
unfolding is_currently_staging lookup
is_currently_staging_iff name namespace jobs job h =
    let key = encode_configuration_key name namespace in
    let found : lookup key (staging_statuses jobs []) ≡ some (job_staging job.conditions) =
      staging_statuses-last_job key jobs [] ∙ (rw h refl) in
    rw found (
      λ e. (job_staging-Running job.conditions).0 (active (job_staging job.conditions) e),
      λ r. rw ((job_staging-Running job.conditions).1 r) refl,
    )
  where
    active :
        (s : ApplicationStagingStatus)
        → ◌≡◌ {A = Result Text Bool} (ok (is_active (some s))) (ok true)
        → s ≡ staging_active
    active staging_active e = refl
    active staging_done e = absurd (cc)
    active staging_failed e = absurd (cc)
