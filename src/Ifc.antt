-- ===== src/Ifc.antt =====
-- apps/server/src/ifc.ts: taints, the provenance index and the screen of a run's output. The digest
-- of node:crypto is a parameter. The index is a map from a run to its entries: here one list in the
-- order of insertion, of which a run's entries are those that name it.
pub mod Screen
pub mod Taints
use Prim.Native.String.{◌++◌}
use mathlib.Core.List
use tik_tok_jam.Base.{
  ℕ, zero, suc, String, not, Option, none, some, List, [], ◌∷◌, map, ◌==◌, leb, length, find, any,
  includes, push, modify_first, if◌then◌else◌, Eq-String,
}
use tik_tok_jam.Types.Enums.{Egress, Trust}
use tik_tok_jam.Types.Equality.{Eq-Egress, Eq-Trust}
use tik_tok_jam.Types.Records.{Database, Label, RunToken, FingerprintEntry}
use tik_tok_jam.Text.{codes, lower_codes, is_space, trim}
use tik_tok_jam.Action.{Action, ok, update}

-- The first taint that does not permit the destination.
unfoldable pub check_egress : List Label → Egress → Option Label
check_egress taints destination = find (λ t. not (includes t.egress destination)) taints

unfoldable pub check_integrity : List Label → Option Label
check_integrity taints = find (λ t. t.trust == Trust.untrusted) taints

abbrev pub label_key : Label → String
label_key label = label.grant_id ++ "|" ++ label.origin

abbrev pub with_taint : Label → RunToken → RunToken
with_taint label token =
    if any (λ t. label_key t == label_key label) token.taints
    then token
    else record token { taints = push token.taints label }

unfoldable pub add_taint_in : String → Label → Database → Database
add_taint_in jti label d = record d {
  run_tokens = modify_first (λ t. t.jti == jti) (with_taint label) d.run_tokens;
}

unfoldable pub add_taint : String → Label → Action (Unit {0})
add_taint jti label = update (add_taint_in jti label)

-- `text.toLowerCase().replace(/\s+/g, " ").trim().split(" ")`: a text of white space has one word,
-- which is empty. `word` is the word being read.
split_words : List ℕ → List ℕ → List (List ℕ)
split_words [] [] = []
split_words (c ∷ word) [] = List.reverse (c ∷ word) ∷ []
split_words [] (c ∷ cs) = split_words (if is_space c then [] else c ∷ []) cs
split_words (w ∷ word) (c ∷ cs) =
    let longer = split_words (c ∷ w ∷ word) cs in
    let closed = split_words [] cs in
    if is_space c then List.reverse (w ∷ word) ∷ closed else longer

words : String → List (List ℕ)
unfolding split_words lower_codes
words text = elim (split_words [] (lower_codes text)) [ [] ↦ [] ∷ [] | w ∷ ws ↦ w ∷ ws ]

-- `words.slice(i, i + 6).join(" ")`, where there are six
abbrev window : ℕ → List (List ℕ) → Option (List ℕ)
window zero ws = some []
window (suc n) [] = none
window (suc zero) (w ∷ ws) = some w
window (suc (suc n)) (w ∷ ws) = elim (window (suc n) ws) [
  | none ↦ none
  | some rest ↦ some (List.◌++◌ w (b' ' ∷ rest))
]

-- The code of `for (i = 0; i + 6 <= words.length; i++)`.
windows : List (List ℕ) → List (List ℕ)
windows [] = []
windows (w ∷ ws) =
    let rest = windows ws in elim (window 6 (w ∷ ws)) [ none ↦ rest | some six ↦ six ∷ rest ]

module _ (digest : List ℕ → String) where
  unfoldable pub shingles : String → List String
  unfolding words windows lower_codes trim
  shingles text =
      let out = map digest (windows (words text)) in
      elim out [
        | [] ↦
            if leb 12 (length (codes (trim text)))
            then digest (lower_codes (trim text)) ∷ []
            else []
        | h ∷ hs ↦ h ∷ hs
      ]

  abbrev pub entry_for : String → Label → String → FingerprintEntry
  entry_for run_id label content = record {
    run_id = run_id;
    label = label;
    hashes = shingles content;
  }

  -- The cache is written at once, and the store behind it.
  unfoldable pub fingerprint : String → Label → String → Action (Unit {0})
  fingerprint run_id label content w =
      let entry = entry_for run_id label content in
      (
        ok tt,
        record w {
          index = push w.index entry;
          db = record w.db { fingerprints = push w.db.fingerprints entry };
        },
      )
