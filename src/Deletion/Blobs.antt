-- ===== src/Deletion/Blobs.antt =====
-- internal/application/application.go: the blobs of an application that was deleted.
use epinio.Base.{
  Bool, true, false, List, [], ◌∷◌, Option, none, some, ◌≡◌, ◌⊎◌, refl, subst, sym, ap, ◌∙◌, Result,
  ok, err, All, Bool-cases, inl, inr,
}
use epinio.Text.{Text, elem}
use epinio.Staging.{Job, Services, blob_uid, attempt, chain, unstage, delete_jobs, cleanup_s3_blobs}
use epinio.Staging.Kept.{attempt_keeps, delete_jobs_unchanged}
use epinio.Staging.Deleted.{Deletes, Cleaned, cleanup_s3_blobs-Cleaned}
use epinio.Deletion.{
  Removal, Warning, tolerated, incomplete, unstaged, image_of, image_deleted, release_not_found,
  finish, delete_application,
}

-- Every blob of the jobs is gone, or is one of those that the quota has left.
abbrev pub Gone : {W : Type 0} → (W → Text → Bool) → W → List Text → List Job → Type 0
Gone has w failed =
    All (λ job. (has w (blob_uid job) ≡ false) ⊎ (elem (blob_uid job) failed ≡ true))

module _ {W : Type 0} (services : Services W) (has : W → Text → Bool)
    (h : Deletes services has) where
  Cleaned-Gone :
      (w : W) (failed : List Text) (jobs : List Job)
      → All (Cleaned has none w failed) jobs
      → Gone has w failed jobs
  Cleaned-Gone w failed [] a = tt
  Cleaned-Gone w failed (job ∷ jobs) (inl e, rest) = absurd (cc)
  Cleaned-Gone w failed (job ∷ jobs) (inr g, rest) = (g, Cleaned-Gone w failed jobs rest)

  none_current : (jobs : List Job) → All (λ job. false ≡ false) jobs
  none_current [] = tt
  none_current (job ∷ jobs) = (refl, none_current jobs)

  unstage-Gone :
      (name namespace : Text) (w : W) (jobs : List Job) (failed : List Text)
      → services.list_jobs w name namespace ≡ ok jobs
      → (unstage services name namespace [] w).1 ≡ ok failed
      → Gone has (unstage services name namespace [] w).0 failed jobs
  unfolding unstage
  unstage-Gone name namespace w jobs failed listed e = connected (services.connect w) refl
    where
      cleaned :
          (r : W × Result Text (Option Job))
          → ((result : Option Job) → r.1 ≡ ok result → result ≡ none)
          → (chain r λ found w1. cleanup_s3_blobs services found jobs w1).1 ≡ ok failed
          → Gone has (chain r λ found w1. cleanup_s3_blobs services found jobs w1).0 failed jobs
      cleaned (w1, err x) k g = absurd (cc)
      cleaned (w1, ok (some job)) k g = absurd (let wrong = k (some job) refl in cc)
      cleaned (w1, ok none) k g =
          Cleaned-Gone (cleanup_s3_blobs services none jobs w1).0 failed jobs
            (cleanup_s3_blobs-Cleaned services has h none jobs w1 failed g)

      connected :
          (o : Option Text)
          → services.connect w ≡ o
          → Gone has (unstage services name namespace [] w).0 failed jobs
      connected (some x) k = absurd (cc (rw (k, unstage) at e))
      connected none k =
          let step : unstage services name namespace [] w ≡ (
              chain (delete_jobs services [] jobs none w)
                λ found w1. cleanup_s3_blobs services found jobs w1) =
            rw (k, unstage, listed) refl in
          subst (λ r. r.1 ≡ ok failed → Gone has r.0 failed jobs) (sym step)
            (cleaned (delete_jobs services [] jobs none w) λ result g.
              delete_jobs_unchanged services [] jobs none result w (none_current jobs) g)
            e

attempt-next :
    {W A : Type 0} (r : W × Option Text) (next : W → W × Result Text A) (a : A)
    → (attempt r next).1 ≡ ok a
    → (w : W) × (attempt r next ≡ next w)
attempt-next (w, none) next a e = (w, refl)
attempt-next (w, some x) next a e = absurd (cc)

tolerated_keeps :
    {W : Type 0} (P : W → Type 0) (p : Text → Bool) (r : W × Option Text)
    → P r.0
    → P (tolerated p r).0
tolerated_keeps P p (w, none) k = k
tolerated_keeps P p (w, some e) k = elim (Bool-cases (p e)) [ inl y ↦ rw y k | inr n ↦ rw n k ]

-- The deletions of the volumes and the waiting make no blob.
abbrev pub MakesNone : {W : Type 0} → Removal W → (W → Text → Bool) → Type 0
MakesNone {W} removal has =
    ((w : W) (uid : Text) → has w uid ≡ false → has (removal.delete_cache_pvc w).0 uid ≡ false)
    × ((w : W) (uid : Text)
        → has w uid ≡ false
        → has (removal.delete_source_blobs_pvc w).0 uid ≡ false)
    × ((w : W) (uid : Text) → has w uid ≡ false → has (removal.wait_for_pods w).0 uid ≡ false)

module _ {W : Type 0} (services : Services W) (removal : Removal W) (has : W → Text → Bool)
    (name namespace : Text) where
  finish_keeps :
      (warnings : List Warning) (w : W) (uid : Text)
      → MakesNone removal has
      → has w uid ≡ false
      → has (finish services removal name namespace warnings w).0 uid ≡ false
  unfolding finish
  finish_keeps warnings w uid m k =
      attempt_keeps (λ v. has v uid ≡ false)
        (tolerated removal.is_not_found (removal.delete_cache_pvc w)) _
        (tolerated_keeps (λ v. has v uid ≡ false) removal.is_not_found (removal.delete_cache_pvc w)
          (m.0 w uid k))
        λ w1 k1.
          attempt_keeps (λ v. has v uid ≡ false)
            (tolerated removal.is_not_found (removal.delete_source_blobs_pvc w1)) _
            (tolerated_keeps (λ v. has v uid ≡ false) removal.is_not_found
              (removal.delete_source_blobs_pvc w1) (m.1 w1 uid k1))
            λ w2 k2.
              attempt_keeps (λ v. has v uid ≡ false) (removal.wait_for_pods w2) _ (m.2 w2 uid k2)
                λ w3 k3. k3

  finish-ok :
      (warnings result : List Warning) (w : W)
      → (finish services removal name namespace warnings w).1 ≡ ok result
      → warnings ≡ result
  unfolding finish
  finish-ok warnings result w e =
      let (w1, s1) =
        attempt-next (tolerated removal.is_not_found (removal.delete_cache_pvc w)) _ result e in
      let (w2, s2) =
        attempt-next (tolerated removal.is_not_found (removal.delete_source_blobs_pvc w1)) _ result
          (subst (λ r. r.1 ≡ ok result) s1 e) in
      let (w3, s3) =
        attempt-next (removal.wait_for_pods w2) _ result
          (subst (λ r. r.1 ≡ ok result) s2 (subst (λ r. r.1 ≡ ok result) s1 e)) in
      let last : ◌≡◌ {A = Result Text (List Warning)} (ok warnings) (ok result) =
        subst (λ r. r.1 ≡ ok result) s3
          (subst (λ r. r.1 ≡ ok result) s2 (subst (λ r. r.1 ≡ ok result) s1 e)) in
      cc

  abbrev AllGone : W → List Job → Type 0
  AllGone w = All (λ job. has w (blob_uid job) ≡ false)

  finish-AllGone :
      (warnings : List Warning) (w : W) (jobs : List Job)
      → MakesNone removal has
      → Gone has w [] jobs
      → AllGone (finish services removal name namespace warnings w).0 jobs
  finish-AllGone warnings w [] m g = tt
  finish-AllGone warnings w (job ∷ jobs) m (inl k, rest) =
      (finish_keeps warnings w (blob_uid job) m k, finish-AllGone warnings w jobs m rest)
  finish-AllGone warnings w (job ∷ jobs) m (inr k, rest) = absurd (cc)

  -- A deletion that succeeds without a warning has deleted every blob that was listed for the
  -- application, unless `Unstage` did not find something that it wanted to delete: its jobs are the
  -- same whenever they are listed, and nothing makes a blob in the meantime.
  pub delete_application-AllGone :
      (delete_image : Bool) (w : W) (jobs : List Job)
      → Deletes services has
      → MakesNone removal has
      → ((v : W) → services.list_jobs v name namespace ≡ ok jobs)
      → ((v : W) (e : Text)
          → (unstage services name namespace [] v).1 ≡ err e
          → removal.is_not_found e ≡ false)
      → (delete_application services removal name namespace delete_image w).1 ≡ ok []
      → All
          (λ job.
            has (delete_application services removal name namespace delete_image w).0 (blob_uid job)
            ≡ false)
          jobs
  unfolding delete_application
  delete_application-AllGone delete_image w jobs d m listed found e =
      connected (removal.client_app w) refl
    where
      after :
          (v : W) (r : W × Result Text (List Text))
          → unstage services name namespace [] v ≡ r
          → (unstaged removal.is_not_found name namespace r
              (finish services removal name namespace)).1
            ≡ ok []
          → AllGone
              (unstaged removal.is_not_found name namespace r
                (finish services removal name namespace)).0
              jobs
      after v (v1, ok []) k g = finish-AllGone [] v1 jobs m (
          subst (λ (r : W × Result Text (List Text)). Gone has r.0 [] jobs) k
            (unstage-Gone services has d name namespace v jobs [] (listed v)
              (ap (λ (r : W × Result Text (List Text)). r.1) k)))
      after v (v1, ok (uid ∷ uids)) k g =
          absurd (let wrong = finish-ok (incomplete name namespace (uid ∷ uids)) [] v1 g in cc)
      after v (v1, err x) k g =
          let fatal = found v x (ap (λ (r : W × Result Text (List Text)). r.1) k) in
          absurd (cc (rw fatal at g))

      connected :
          (o : Option Text)
          → removal.client_app w ≡ o
          → AllGone (delete_application services removal name namespace delete_image w).0 jobs
      connected (some x) k = absurd (cc (rw (k, delete_application) at e))
      connected none k =
          let image = image_of delete_image (removal.get_image_url w) in
          let rest = λ (w2 : W).
            unstaged removal.is_not_found name namespace
              (unstage services name namespace []
                (image_deleted services removal name namespace image w2))
              (finish services removal name namespace) in
          let step : delete_application services removal name namespace delete_image w ≡ (
              attempt (tolerated release_not_found (removal.helm_remove w))
                λ w1. attempt (removal.delete_resource w1) rest) =
            rw (k, delete_application) refl in
          let e0 = subst (λ r. r.1 ≡ ok []) step e in
          let (w1, s1) =
            attempt-next (tolerated release_not_found (removal.helm_remove w)) _ [] e0 in
          let e1 = subst (λ r. r.1 ≡ ok []) s1 e0 in
          let (w2, s2) = attempt-next (removal.delete_resource w1) rest [] e1 in
          let e2 = subst (λ r. r.1 ≡ ok []) s2 e1 in
          subst (λ (r : W × Result Text (List Warning)). AllGone r.0 jobs) (sym (step ∙ (s1 ∙ s2)))
            (after (image_deleted services removal name namespace image w2) _ refl e2)
