-- ===== src/Gateway/Jail.antt =====
-- apps/server/src/gateway.ts: `jail`, over the `path.resolve` of node:path. A path is absolute text;
-- the root is one already, since `resolve` was called on it.
use Prim.Native.Char.{code}
use Prim.Native.String.{◌++◌}
use tik_tok_jam.Base.{
  String, Bool, not, ◌&&◌, ◌||◌, List, [], ◌∷◌, ◌==◌, nat_eq, if◌then◌else◌, Eq-String,
}
use tik_tok_jam.Text.{strip_prefix}
use tik_tok_jam.Action.{Action, denied, throw_if, pure, ◌>>◌}
use tik_tok_jam.Grants.{is_null}

-- `path.split("/")`
unfoldable pub split_path : String → List String
split_path String.[] = "" ∷ []
split_path (String.◌∷◌ c s) = elim (split_path s) [
  | [] ↦ []
  | part ∷ parts ↦ if nat_eq (code c) b'/' then "" ∷ part ∷ parts else String.◌∷◌ c part ∷ parts
]

-- One segment on the stack of those before it, of which the last is the head.
unfoldable pub step_path : List String → String → List String
step_path stack part =
    if part == "" || part == "."
    then stack
    else if part == ".."
    then elim stack [ [] ↦ [] | top ∷ below ↦ below ]
    else part ∷ stack

unfoldable pub walk_path : List String → List String → List String
unfolding step_path
walk_path stack [] = stack
walk_path stack (part ∷ parts) = walk_path (step_path stack part) parts

-- The text of a stack: "/" for the empty one.
unfoldable pub show_below : List String → String
show_below [] = ""
show_below (top ∷ below) = show_below below ++ "/" ++ top

abbrev pub show_path : List String → String
show_path [] = "/"
show_path (top ∷ below) = show_below (top ∷ below)

abbrev pub is_absolute : String → Bool
is_absolute String.[] = Bool.false
is_absolute (String.◌∷◌ c s) = nat_eq (code c) b'/'

-- `path.resolve(base, rel)`, as the stack of its segments
unfoldable pub resolve : List String → String → List String
unfolding walk_path split_path
resolve base rel = walk_path (if is_absolute rel then [] else base) (split_path rel)

abbrev pub starts_with : String → String → Bool
starts_with text start = not (is_null (strip_prefix start text))

-- The root of an agent's workspace.
unfoldable pub workspace_of : String → String → List String
unfolding resolve
workspace_of workspace_root agent_id = resolve (resolve [] workspace_root) agent_id

abbrev pub escapes : List String → List String → Bool
escapes root full =
    not (show_path full == show_path root)
    && not (starts_with (show_path full) (show_path root ++ "/"))

unfoldable pub jail : String → String → String → Action String
unfolding workspace_of show_below
jail workspace_root agent_id rel = do
  let root = workspace_of workspace_root agent_id
  let full = resolve root rel
  throw_if (escapes root full) (denied 403 "path-escape" "Path escapes the workspace")
  pure (show_path full)
