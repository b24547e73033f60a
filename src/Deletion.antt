-- ===== src/Deletion.antt =====
-- internal/application/application.go: Delete, which composes the removal of an application with
-- Unstage. The calls of helm, of the registry and of the cluster are parameters.
pub mod Blobs
mod Tests
use epinio.Base.{
  ℕ, Bool, true, false, ◌&&◌, not, List, [], ◌∷◌, Option, none, some, if◌then◌else◌, Result, ok,
  err, length,
}
use epinio.Text.{Text, codes}
use epinio.Text.Affix.{is_empty}
use epinio.Text.Prefix.{contains}
use epinio.Staging.{Services, attempt, unstage}

-- The calls, with the application that they are about.
pub record Removal (W : Type 0) : Type 0 where
  pub client_app : W → Option Text
  pub get_image_url : W → Result Text Text
  pub helm_remove : W → W × Option Text
  pub delete_resource : W → W × Option Text
  pub delete_container_image : W → Text → W × Option Text
  pub delete_cache_pvc : W → W × Option Text
  pub delete_source_blobs_pvc : W → W × Option Text
  pub wait_for_pods : W → W × Option Text
  pub is_not_found : Text → Bool

-- The warning of `Delete`: the application, and how many blobs are left.
pub record Warning : Type 0 where
  pub namespace : Text
  pub name : Text
  pub blobs : ℕ

abbrev pub incomplete : Text → Text → List Text → List Warning
incomplete name namespace [] = []
incomplete name namespace (uid ∷ uids) =
    record { namespace = namespace; name = name; blobs = length (uid ∷ uids) } ∷ []

-- The image's reference, which is only asked for if the image shall be deleted.
abbrev pub image_of : Bool → Result Text Text → Text
image_of false r = []
image_of true (ok url) = url
image_of true (err e) = []

module _ {W : Type 0} where
  -- A call whose errors of a kind are no errors.
  abbrev pub tolerated : (Text → Bool) → W × Option Text → W × Option Text
  tolerated p (w, none) = (w, none)
  tolerated p (w, some e) = if p e then (w, none) else (w, some e)

  -- What follows `Unstage`, whose error does not count where something was not found.
  abbrev pub unstaged :
      {A : Type 0}
      → (Text → Bool)
      → Text
      → Text
      → W × Result Text (List Text)
      → (List Warning → W → W × Result Text A)
      → W × Result Text A
  unstaged p name namespace (w, ok failed) next = next (incomplete name namespace failed) w
  unstaged p name namespace (w, err e) next = if p e then next [] w else (w, err e)

abbrev pub release_not_found : Text → Bool
release_not_found e = contains e (codes "release: not found")

module _ {W : Type 0} (services : Services W) (removal : Removal W) (name namespace : Text) where
  -- The errors of this deletion are only logged.
  abbrev pub image_deleted : Text → W → W
  image_deleted image w = if is_empty image then w else (removal.delete_container_image w image).0

  -- What `Delete` does behind `Unstage`.
  unfoldable pub finish : List Warning → W → W × Result Text (List Warning)
  finish warnings w = attempt (tolerated removal.is_not_found (removal.delete_cache_pvc w)) λ w1.
      attempt (tolerated removal.is_not_found (removal.delete_source_blobs_pvc w1))
        λ w2. attempt (removal.wait_for_pods w2) λ w3. (w3, ok warnings)

  -- `Delete`
  unfoldable pub delete_application : Bool → W → W × Result Text (List Warning)
  unfolding unstage finish
  delete_application delete_image w = elim (removal.client_app w) [
    | some e ↦ (w, err e)
    | none ↦
        let image = image_of delete_image (removal.get_image_url w) in
        attempt (tolerated release_not_found (removal.helm_remove w)) λ w1.
          attempt (removal.delete_resource w1) λ w2.
            unstaged removal.is_not_found name namespace
              (unstage services name namespace [] (image_deleted image w2)) finish
  ]
