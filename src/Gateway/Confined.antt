-- ===== src/Gateway/Confined.antt =====
-- apps/server/src/gateway.ts: the jail of a path, and whose files a read answers from or a write changes.
use Prim.Native.String.{◌++◌}
use text.Mathlib.TextLemmas.{append_assoc}
use tik_tok_jam.Base.{
  String, ◌≡◌, refl, sym, ap, ◌∙◌, ◌⊎◌, inl, inr, false, Option, none, some, List, [], ◌∷◌, true,
  ◌==◌, arith, Eq-String, Bool-cases,
}
use tik_tok_jam.Types.Equality.{Eq-Scope}
use tik_tok_jam.Text.{strip_prefix}
use tik_tok_jam.Text.Prefix.{strip_prefix-eq-some, strip_prefix-append}
use tik_tok_jam.Action.{World, ok, err, denied}
use tik_tok_jam.Grants.{is_null}
use mathlib.Core.List
use mathlib.Core.Path.{subst}
use tik_tok_jam.Gateway.Paths.{Names, Continues, show_path-Continues, resolve-Names}
use tik_tok_jam.Gateway.Jail.{jail, workspace_of, resolve, show_path, show_below, escapes}

-- The path is the text of the root's names and of any more below them, each of them the name of a file
-- or of a directory: none is empty, "." or "..", or has a "/".
abbrev pub Inside : List String → String → Type 0
Inside root path =
    (below : List String) × Names (List.◌++◌ below root) × (path ≡ show_path (List.◌++◌ below root))

below_text :
    (root path : String)
    → (rest : Option String) → strip_prefix (root ++ "/") path ≡ rest
    → is_null rest ≡ false
    → Continues root path
below_text root path none h e = cc
below_text root path (some rest) h e = inr (rest, strip_prefix-eq-some (root ++ "/") path rest h)

escapes-Continues :
    (root full : List String)
    → escapes root full ≡ false
    → Continues (show_path root) (show_path full)
escapes-Continues root full h = elim (Bool-cases (show_path full == show_path root)) [
  | inl same ↦ inl (Eq-String.sound _ _ same)
  | inr differ ↦
      below_text (show_path root) (show_path full)
        (strip_prefix (show_path root ++ "/") (show_path full)) refl (ground arith)
]

escapes-Inside :
    (root full : List String)
    → Names root
    → Names full
    → escapes root full ≡ false
    → Inside root (show_path full)
escapes-Inside root full h k stays =
    let (below, e) = show_path-Continues root full h k (escapes-Continues root full stays) in
    (below, subst Names e k, ap show_path e)

workspace_of-Names :
    (workspace_root agent_id : String) → Names (workspace_of workspace_root agent_id)
unfolding workspace_of
workspace_of-Names workspace_root agent_id =
    resolve-Names (resolve [] workspace_root) agent_id (resolve-Names [] workspace_root tt)

-- No names below the root make up the stack; a root that is the whole file system has none that passes.
abbrev pub Outside : List String → List String → Type 0
Outside root full = (root ≡ []) ⊎ (¬ ((below : List String) × (full ≡ List.◌++◌ below root)))

-- The text of a stack that goes on from another.
above_text :
    (root below : List String) (name : String)
    → (rest : String) × (show_below (name ∷ List.◌++◌ below root)
        ≡ (show_below root ++ "/") ++ rest)
unfolding show_below
above_text root [] name = (name, sym (append_assoc (show_below root) "/" name))
above_text root (top ∷ below) name =
    let (rest, e) = above_text root below top in
    (
      rest ++ "/" ++ name,
      ap (λ s. s ++ "/" ++ name) e ∙ append_assoc (show_below root ++ "/") rest ("/" ++ name),
    )

stays-inside :
    (top : String) (root below : List String)
    → escapes (top ∷ root) (List.◌++◌ below (top ∷ root)) ≡ false
stays-inside top root [] = ground (arith, Eq-String.same_self (show_path (top ∷ root)))
stays-inside top root (name ∷ below) =
    let (rest, e) = above_text (top ∷ root) below name in
    let starts : strip_prefix (show_path (top ∷ root) ++ "/")
          (show_path (name ∷ List.◌++◌ below (top ∷ root)))
        ≡ some rest =
      ap (strip_prefix (show_path (top ∷ root) ++ "/")) e
      ∙ strip_prefix-append (show_path (top ∷ root) ++ "/") rest in
    ground (arith, starts)

escapes-Outside : (root full : List String) → escapes root full ≡ true → Outside root full
escapes-Outside [] full out = inl refl
escapes-Outside (top ∷ root) full out =
    inr
      (λ s. absurd (ground (arith, ap (escapes (top ∷ root)) s.1, stays-inside top root s.0, out)))

-- The jail changes nothing. It answers the path that was asked for, as it resolves, which is that of the
-- agent's workspace or of something below it, by names only: no segment of the answer is "." or ".." or empty, whatever the caller asks for. Or it refuses with
-- "path-escape", and then the path that was asked for is neither, unless the workspace is
-- the root of the file system.
pub jail_lem :
    (workspace_root agent_id rel : String) (w : World)
    → ((jail workspace_root agent_id rel w).1 ≡ w)
      × (((jail workspace_root agent_id rel w).0
              ≡ err (denied 403 "path-escape" "Path escapes the workspace"))
            × Outside
                (workspace_of workspace_root agent_id)
                (resolve (workspace_of workspace_root agent_id) rel)
          ⊎ ((path : String) × ((jail workspace_root agent_id rel w).0 ≡ ok path)
              × Inside (workspace_of workspace_root agent_id) path
              × (path ≡ show_path (resolve (workspace_of workspace_root agent_id) rel))))
unfolding jail
jail_lem workspace_root agent_id rel w =
    let root = workspace_of workspace_root agent_id in
    let full = resolve root rel in
    elim (Bool-cases (escapes root full)) [
      | inl out ↦ rw out (refl, inl (refl, escapes-Outside root full out))
      | inr stays ↦ rw stays (
        refl,
        inr (
          show_path full,
          refl,
          escapes-Inside root full (workspace_of-Names workspace_root agent_id)
              (resolve-Names root rel (workspace_of-Names workspace_root agent_id)) stays,
          refl,
        ),
      )
    ]
