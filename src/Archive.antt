-- ===== src/Archive.antt =====
-- helpers/tar.go: which files of a directory `Tar` puts into the archive, and under which names.
pub mod Packed
use epinio.Base.{
  Bool, true, false, List, [], ◌∷◌, Option, none, some, Result, ok, err, if◌then◌else◌,
}
use epinio.Text.{Text, codes, ◌==◌, elem}
use epinio.Text.Maps.{Map, insert}
use epinio.Paths.{rel, base, join_entry}
use epinio.Ignore.{should_ignore}
use epinio.Ignore.Pattern.{IgnorePattern}

-- What the walk meets: a file, an entry that it gets an error for, or a directory and what is in it.
mutual
  pub data Node : Type 0 where
    file unreadable : Node
    folder : Entries → Node

  pub data Entries : Type 0 where
    end : Entries
    entry : Text → Node → Entries → Entries

abbrev pub excluded_git_files : List Text
excluded_git_files =
    codes ".git"
    ∷ codes ".gitignore"
    ∷ codes ".gitmodules"
    ∷ codes ".gitconfig"
    ∷ codes ".git-credentials"
    ∷ []

-- What the function that is called for an entry does: nothing, skip the directory, or add a file
-- under a name.
pub data Visit : Type 0 where
  pass skip_dir : Visit
  add : Text → Visit

-- Leaving an entry out skips all of it if it is a directory.
abbrev left_out : Bool → Visit
left_out is_dir = if is_dir then skip_dir else pass

abbrev pub after_file : Visit → Text → Map Text → Map Text
after_file pass path sources = sources
after_file skip_dir path sources = sources
after_file (add rel_path) path sources = insert path rel_path sources

abbrev pub after_folder : Visit → Map Text → Map Text → Map Text
after_folder pass inside sources = inside
after_folder skip_dir inside sources = sources
after_folder (add rel_path) inside sources = inside

module _ (patterns : List IgnorePattern) (dir : Text) where
  -- The function that `Tar` passes to `filepath.Walk`.
  unfoldable pub visit : Text → Bool → Visit
  visit file_path is_dir = elim (rel dir file_path) [
    | none ↦ pass
    | some rel_path ↦
        if elem (base rel_path) excluded_git_files
        then left_out is_dir
        else if should_ignore patterns dir file_path is_dir
        then left_out is_dir
        else if base rel_path == codes ".epinioignore"
        then pass
        else if is_dir
        then pass
        else add rel_path
  ]

  -- The walk, with the sources that were found so far.
  unfoldable mutual
    pub walk : Text → Node → Map Text → Map Text
    walk path unreadable sources = sources
    walk path file sources = after_file (visit path false) path sources
    walk path (folder entries) sources =
        let inside = walk_entries path entries sources in
        after_folder (visit path true) inside sources

    pub walk_entries : Text → Entries → Map Text → Map Text
    walk_entries path end sources = sources
    walk_entries path (entry name child rest) sources =
        walk_entries path rest (walk (join_entry path name) child sources)

  -- The sources of the archive, for the directory and what is in it.
  unfoldable pub sources_of : Node → Map Text
  unfolding walk
  sources_of root = walk dir root []
