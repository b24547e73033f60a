-- ===== src/Manifest/Tests.antt =====
-- Runs of Get, of the updates by options, of a push, and of Origin.
use epinio.Text.Order.{set_of}
use epinio.Text.Split.{join, split, cut}
use epinio.Base.{true, false, List, [], ◌∷◌, none, some, ◌≡◌, refl, sym, ap, ok, err, get_or}
use epinio.Text.{Text, codes, ◌==◌}
use epinio.Text.Maps.{Map, lookup, insert}
use epinio.Text.Split.{join}
use epinio.Integers.{pos}
use epinio.Paths.Absolute.{is_abs, dir, abs}
use epinio.Manifest.{
  ApplicationOrigin, ApplicationManifest, Flags, bad_git, too_many_origins, origin_path, origin_git,
}
use epinio.Manifest.Options.{update_environment}
use epinio.Manifest.Sources.{no_origin, no_ref, sources}
use epinio.Manifest.Read.{Files, base_manifest, get}
use epinio.Manifest.Push.{push_manifest}
use epinio.Manifest.Assigned.{update_environment-last_value}
use epinio.Manifest.OneOrigin.{OneOrigin, url_given}
use epinio.Manifest.Pushed.{push_manifest-OneOrigin}
use epinio.Origin.{missing, found, Unstructured, origin_of}
use epinio.Origin.Stored.{origin_of-stored}

-- Options with these values, the others being empty.
abbrev flags_of : Map Text → Map (List Text) → Flags Text
flags_of strings slices = record {
  get_string = λ name. ok (get_or (lookup name strings) []);
  get_bool = λ name. ok false;
  get_int32 = λ name. ok (pos 1);
  get_string_slice = λ name. ok (get_or (lookup name slices) []);
  visited = [];
}

abbrev git_flags : Flags Text
git_flags =
    flags_of ((codes "git", codes "https://e.org/app,main") ∷ (codes "name", codes "app") ∷ []) []

-- A working directory with a manifest that names a path.
abbrev directory : Files Text
directory = record {
  wd = ok (codes "/src");
  exists = λ file. ok (file == codes "/src/epinio.yml");
  read = λ file. ok [];
  unmarshal = λ content m.
      ok (record m { name = codes "sample"; origin = record m.origin { path = codes "web" } });
}

get_test :
    get directory (codes "epinio.yml")
    ≡ ok
        (record (base_manifest (record no_origin { kind = origin_path; path = codes "/src/web" })) {
          name = codes "sample";
          self = codes "/src/epinio.yml";
        })
unfolding get abs ◌==◌ join split dir
get_test = refl

git_test :
    sources {E = Text} (ok (codes "/src")) [] (codes "a,b,c") [] [] no_origin
    ≡ err (bad_git (codes "a,b,c"))
unfolding sources split
git_test = refl

both_test :
    sources {E = Text} (ok (codes "/src")) (codes "web") [] [] (codes "nginx") no_origin
    ≡ err too_many_origins
unfolding sources
both_test = refl

-- A reference without a repository is taken as one.
no_repository_test :
    sources {E = Text} (ok (codes "/src")) [] (codes ",main") [] [] no_origin
    ≡ ok (record no_origin {
      kind = origin_git;
      git = some (record no_ref { revision = codes "main" });
    })
unfolding sources split
no_repository_test = refl

abbrev variables : Map Text
variables = (codes "A", codes "x=y") ∷ (codes "B", []) ∷ []

abbrev twice : Flags Text
twice = flags_of [] ((codes "env", codes "A=1" ∷ codes "B=2" ∷ codes "A=3" ∷ []) ∷ [])

abbrev with_twice : ApplicationManifest
with_twice = record (base_manifest no_origin) {
  configuration = record (base_manifest no_origin).configuration {
    environment = (codes "A", codes "3") ∷ (codes "B", codes "2") ∷ [];
  };
}

update_environment-last_value_example :
    lookup (codes "A") with_twice.configuration.environment ≡ some (codes "3")
unfolding lookup ◌==◌ update_environment cut insert
update_environment-last_value_example =
    update_environment-last_value twice (base_manifest no_origin) (codes "A=1")
      (codes "B=2" ∷ codes "A=3" ∷ []) with_twice (codes "A") refl refl

abbrev from_git : ApplicationOrigin
from_git = record no_origin {
  kind = origin_git;
  git = some (record no_ref { url = codes "https://e.org/app"; revision = codes "main" });
}

abbrev pushed : ApplicationManifest
pushed = record (base_manifest from_git) { name = codes "app"; self = codes "/src/epinio.yml" }

push_manifest-OneOrigin_example : OneOrigin pushed.origin
unfolding lookup ◌==◌ push_manifest join split set_of
push_manifest-OneOrigin_example =
    push_manifest-OneOrigin directory rooted (λ path. ok true) git_flags false [] pushed named refl
  where
    rooted : (d : Text) → directory.wd ≡ ok d → is_abs d ≡ true
    rooted d e = let same : codes "/src" ≡ d = cc in rw (← same) refl

    named : (git : Text) → git_flags.get_string (codes "git") ≡ ok git → url_given git ≡ true
    named git e = sym (ap (λ r. elim r [ ok g ↦ url_given g | err x ↦ true ]) e)

-- A map whose keys are the paths of its fields.
abbrev fields : Unstructured (Map Text)
fields = record {
  nested_map = λ m path. found m;
  nested_string =
      λ m path. elim (lookup (join path (codes ".")) m) [ none ↦ missing | some s ↦ found s ];
  nested_bool = λ m path. missing;
}

abbrev stored_git : Map Text
stored_git =
    (codes "git.repository", codes "https://e.org/app") ∷ (codes "git.revision", codes "main") ∷ []

origin_of-stored_example : origin_of fields stored_git ≡ ok from_git
unfolding lookup ◌==◌ join
origin_of-stored_example =
    origin_of-stored fields stored_git stored_git from_git refl
      (refl, refl, refl, (refl, refl, refl, refl, refl)) (refl, refl, refl) refl
