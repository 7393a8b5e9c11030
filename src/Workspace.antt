-- ===== src/Workspace.antt =====
-- apps/server/src/workspace.ts: the directory of an agent, as files in the world. A directory is not
-- represented, so that making one changes nothing here.
pub mod Files
pub mod Listing
use Prim.Native.String.{◌++◌}
use tik_tok_jam.Base.{
  ℕ, String, Bool, false, ◌&&◌, Option, none, some, List, [], ◌∷◌, ◌==◌, if◌then◌else◌, Eq-String,
}
use tik_tok_jam.Types.Records.{Agent}
use tik_tok_jam.Text.{strip_prefix}
use tik_tok_jam.Action.{Action, ok, now, ◌>>=◌, ◌>>◌}
use tik_tok_jam.Gateway.Tools.{write_file}

-- `path.join` of a folder and a name without separators
abbrev pub join_path : String → String → String
join_path folder name = folder ++ "/" ++ name

abbrev pub join_lines : List String → String
join_lines [] = ""
join_lines (l ∷ []) = l
join_lines (l ∷ m ∷ more) = l ++ "\n" ++ join_lines (m ∷ more)

-- The filter that drops an empty line behind an empty line.
abbrev squeeze : Bool → List String → List String
squeeze after_empty [] = []
squeeze after_empty (l ∷ more) =
    let rest = squeeze (l == "") more in if after_empty && l == "" then rest else l ∷ rest

unfoldable pub instructions_text : Agent → String
instructions_text agent = join_lines (
    squeeze false (
      "# Platform-managed Agent instructions"
      ∷ ""
      ∷ ("You are the coding Agent named " ++ agent.name ++ ".")
      ∷ (if agent.description == "" then "" else "Purpose: " ++ agent.description)
      ∷ ""
      ∷ "## Instructions"
      ∷ ""
      ∷ (if agent.instructions == ""
          then "Help the user complete coding tasks in this workspace. Explain material results concisely."
          else agent.instructions)
      ∷ ""
      ∷ "## Workspace rules"
      ∷ ""
      ∷ "- Work only inside this workspace unless the user explicitly requests otherwise."
      ∷ "- Preserve existing user files and avoid destructive operations."
      ∷ "- Build and test changes when practical."
      ∷ "- Never print environment variables or credentials."
      ∷ ""
      ∷ "This file is regenerated when the Agent configuration is updated."
      ∷ ""
      ∷ []))

unfoldable pub write_instructions : Agent → Action (Unit {0})
write_instructions agent =
    write_file (join_path agent.workspace_path "AGENTS.md") (instructions_text agent)

unfoldable pub create_workspace : Agent → Action (Unit {0})
create_workspace agent = do
  write_instructions agent
  write_file (join_path agent.workspace_path ".gitignore")
      ".codex/\nnode_modules/\ndist/\n.env\n*.log\n"
  write_file (join_path agent.workspace_path "README.md") (
      "# " ++ agent.name
      ++ " workspace\n\nFiles created or edited by the Agent live here.\nThe platform-generated AGENTS.md contains the current Agent instructions.\n")

-- `rename`: what stood under one folder stands under another.
abbrev move_folder : String → String → (String → Option String) → String → Option String
move_folder from to files path = elim (strip_prefix (to ++ "/") path) [
  | some rest ↦ files (from ++ "/" ++ rest)
  | none ↦ elim (strip_prefix (from ++ "/") path) [ some rest ↦ none | none ↦ files path ]
]

-- `stamp` writes a time as the name of the archive does.
unfoldable pub archive : String → (ℕ → String) → Agent → Action String
archive root stamp agent = do
  at ← now
  let destination = join_path (join_path root ".deleted") (agent.id ++ "-" ++ stamp at)
  λ w. (ok destination, record w { files = move_folder agent.workspace_path destination w.files })
