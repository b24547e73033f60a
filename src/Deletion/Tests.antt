-- ===== src/Deletion/Tests.antt =====
-- Runs of Delete.
use epinio.Text.Maps.{lookup}
use epinio.Text.Prefix.{contains}
use epinio.Base.{Bool, true, false, List, [], ◌∷◌, none, some, ◌≡◌, refl, Result, ok, err, All}
use epinio.Text.{Text, codes, ◌==◌}
use epinio.Staging.{Job, Services, blob_uid, unstage}
use epinio.Staging.Tests.{storage, storage-Deletes, job_of}
use epinio.Deletion.{Removal, delete_application}
use epinio.Deletion.Blobs.{delete_application-AllGone}

abbrev two_jobs : List Job
two_jobs = job_of (codes "1") (codes "a") [] ∷ job_of (codes "2") (codes "b") [] ∷ []

abbrev services : Services (Text → Bool)
services = record storage { list_jobs = λ w name namespace. ok two_jobs }

-- Nothing fails but helm, which finds no release.
abbrev removal : Removal (Text → Bool)
removal = record {
  client_app = λ w. none;
  get_image_url = λ w. err (codes "no image");
  helm_remove = λ w. (w, some (codes "uninstall: release: not found"));
  delete_resource = λ w. (w, none);
  delete_container_image = λ w image. (w, none);
  delete_cache_pvc = λ w. (w, some (codes "not found"));
  delete_source_blobs_pvc = λ w. (w, none);
  wait_for_pods = λ w. (w, none);
  is_not_found = λ e. e == codes "not found";
}

abbrev blobs : Text → Bool
blobs uid = true

-- A job whose secret is not found ends the cleanup, without a warning and with all blobs left.
swallowed_test :
    let missing = record services {
      delete_secret = λ w namespace name. (w, some (codes "not found"));
    } in
    let r = delete_application missing removal (codes "app") (codes "team") true blobs in
    (r.1 ≡ ok []) × (r.0 (codes "a") ≡ true)
unfolding delete_application contains ◌==◌
swallowed_test = (refl, refl)

delete_application-AllGone_example :
    All
      (λ job.
        (delete_application services removal (codes "app") (codes "team") true blobs).0
          (blob_uid job)
        ≡ false)
      two_jobs
unfolding unstage ◌==◌ lookup delete_application contains
delete_application-AllGone_example =
    delete_application-AllGone services removal (λ w uid. w uid) (codes "app") (codes "team") true
      blobs two_jobs storage-Deletes ((λ w uid k. k), (λ w uid k. k), (λ w uid k. k)) (λ v. refl)
      fatal refl
  where
    fatal :
        (v : Text → Bool) (e : Text)
        → (unstage services (codes "app") (codes "team") [] v).1 ≡ err e
        → removal.is_not_found e ≡ false
    fatal v e k = let wrong : ◌≡◌ {A = Result Text (List Text)} (ok []) (err e) = k in absurd (cc)
