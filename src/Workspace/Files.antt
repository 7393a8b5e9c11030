-- ===== src/Workspace/Files.antt =====
-- apps/server/src/workspace-files.ts: the owner's view of a workspace. A folder is the tree that
-- `readdir` gives, sorted by name as the code sorts it; a missing folder is none. In the world a file is
-- its text, whose bytes are parameters; a folder that is read as a file is not represented there.
use Prim.Native.String.{◌++◌}
use tik_tok_jam.Base.{
  ℕ, ◌*◌, String, Bool, true, false, not, ◌&&◌, Option, none, some, List, [], ◌∷◌, push, includes,
  length, leb, ltb, ◌==◌, if◌then◌else◌, Eq-String,
}
use tik_tok_jam.Gateway.Jail.{resolve, show_path, escapes}
use tik_tok_jam.Action.{Action, ok, http_error, pure, throw_if, require, ◌>>=◌, ◌>>◌}

mutual
  pub data Entry : Type 0 where
    directory : String → Folder → Entry
    file : String → ℕ → ℕ → Entry
    other : String → Entry

  pub data Folder : Type 0 where
    no_more : Folder
    entry : Entry → Folder → Folder

pub record WorkspaceFile : Type 0 where
  pub path : String
  pub size : ℕ
  pub modified_at : ℕ

pub record WorkspaceListing : Type 0 where
  pub files : List WorkspaceFile
  pub truncated : Bool

pub record WorkspaceFileContent : Type 0 where
  pub path : String
  pub content : String
  pub size : ℕ
  pub truncated : Bool
  pub binary : Bool

abbrev pub skipped_directories : List String
skipped_directories = ".git" ∷ "node_modules" ∷ "dist" ∷ ".codex" ∷ []

abbrev pub max_entries : ℕ
max_entries = 500

abbrev pub max_bytes : ℕ
max_bytes = 256 * 1024

-- The path relative to the root, of which a folder's own is empty at the root.
abbrev pub below : String → String → String
below folder name = if folder == "" then name else folder ++ "/" ++ name

abbrev pub full : WorkspaceListing → Bool
full listing = leb max_entries (length listing.files)

abbrev pub cut : WorkspaceListing → WorkspaceListing
cut listing = record listing { truncated = true }

abbrev pub listed : String → ℕ → ℕ → WorkspaceListing → WorkspaceListing
listed path size modified_at listing = record listing {
  files = push listing.files (record { path = path; size = size; modified_at = modified_at });
}

-- The loop of `walk`, and the walk of one folder.
unfoldable mutual
  pub walk_entry : String → Entry → WorkspaceListing → WorkspaceListing
  walk_entry folder (directory name inside) listing =
      let walked = walk_folder (below folder name) inside listing in
      if includes skipped_directories name
      then listing
      else if listing.truncated
      then listing
      else walked
  walk_entry folder (file name size modified_at) listing =
      listed (below folder name) size modified_at listing
  walk_entry folder (other name) listing = listing

  pub walk_folder : String → Folder → WorkspaceListing → WorkspaceListing
  walk_folder folder no_more listing = listing
  walk_folder folder (entry e more) listing =
      let rest = walk_folder folder more (walk_entry folder e listing) in
      if full listing then cut listing else rest

unfoldable pub list_workspace_files : Option Folder → WorkspaceListing
unfolding walk_folder
list_workspace_files none = record { files = []; truncated = false }
list_workspace_files (some root) = walk_folder "" root (record { files = []; truncated = false })

unfoldable pub resolve_in_workspace : String → String → Action String
resolve_in_workspace workspace_path relative = do
  let root = resolve [] workspace_path
  throw_if (escapes root (resolve root relative)) (http_error 403 "Path escapes the workspace")
  pure (show_path (resolve root relative))

-- What the code asks of a file's bytes: their number, whether the first `max_bytes` have a zero, and the
-- text of those.
pub record Bytes : Type 0 where
  pub size_of : String → ℕ
  pub has_zero : String → Bool
  pub first_text : String → String

abbrev pub read_at : String → Action (Option String)
read_at path w = (ok (w.files path), w)

abbrev content_of : Bytes → String → String → WorkspaceFileContent
content_of bytes relative text = record {
  path = relative;
  content = if bytes.has_zero text then "" else bytes.first_text text;
  size = bytes.size_of text;
  truncated = not (bytes.has_zero text) && ltb max_bytes (bytes.size_of text);
  binary = bytes.has_zero text;
}

unfoldable pub read_workspace_file : Bytes → String → String → Action WorkspaceFileContent
unfolding resolve_in_workspace
read_workspace_file bytes workspace_path relative = do
  path ← resolve_in_workspace workspace_path relative
  found ← read_at path
  text ← require found (http_error 404 "No such file in this workspace")
  pure (content_of bytes relative text)
