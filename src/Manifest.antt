-- ===== src/Manifest.antt =====
-- pkg/api/core/v1/models: the manifest of an application; internal/manifest/manifest.go, which reads it
-- and updates it by the options of a command; the options of package pflag are parameters.
pub mod Options
pub mod Sources
pub mod Read
pub mod Push
pub mod Unchanged
pub mod OneOrigin
pub mod Pushed
pub mod Assigned
pub mod Shown
mod Tests
use epinio.Base.{Bool, List, Option, Result}
use epinio.Text.{Text}
use epinio.Text.Maps.{Map}
use epinio.Integers.{ℤ}

-- The codes of an origin's kind.
pub data OriginKind : Type 0 where
  origin_none origin_path origin_git origin_container : OriginKind

pub record GitRef : Type 0 where
  pub revision : Text
  pub url : Text
  pub provider : Text
  pub branch : Text
  pub gitconfig : Text

-- No git reference is the nil pointer.
pub record ApplicationOrigin : Type 0 where
  pub kind : OriginKind
  pub container : Text
  pub git : Option GitRef
  pub path : Text
  pub archive : Bool

-- The routes are nil or a slice, which may be empty. `EnvironmentGrouped`, which only answers of the
-- server carry, is left out.
pub record ApplicationConfiguration : Type 0 where
  pub instances : Option ℤ
  pub configurations : List Text
  pub environment : Map Text
  pub replace_env : Option Bool
  pub services : List Text
  pub routes : Option (List Text)
  pub app_chart : Text
  pub settings : Map Text
  pub ignore : List Text

pub record ApplicationStage : Type 0 where
  pub builder : Text

pub record ApplicationManifest : Type 0 where
  pub name : Text
  pub configuration : ApplicationConfiguration
  pub self : Text
  pub origin : ApplicationOrigin
  pub staging : ApplicationStage
  pub namespace : Text

-- The options of a command, each of which may be missing; `visited` are those that were given.
pub record Flags (E : Type 0) : Type 0 where
  pub get_string : Text → Result E Text
  pub get_bool : Text → Result E Bool
  pub get_int32 : Text → Result E ℤ
  pub get_string_slice : Text → Result E (List Text)
  pub visited : List Text

pub data ManifestError (E : Type 0) : Type 0 where
  bad_option filesystem bad_yaml : E → ManifestError E
  bad_git bad_env bad_chart_value : Text → ManifestError E
  too_many_origins no_name : ManifestError E
