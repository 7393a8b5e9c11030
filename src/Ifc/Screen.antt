-- ===== src/Ifc/Screen.antt =====
-- apps/server/src/ifc.ts: naming the origin of a copied text, and the screen of a run's output.
pub mod Copies
use Prim.Native.String.{◌++◌}
use tik_tok_jam.Base.{
  ℕ, String, Bool, not, Option, none, some, List, [], ◌∷◌, ◌==◌, leb, ltb, any, filter, includes,
  if◌then◌else◌, Eq-String,
}
use tik_tok_jam.Types.Enums.{SecurityLevel, level_text}
use tik_tok_jam.Types.Records.{Label, FingerprintEntry}
use tik_tok_jam.Classify.{level_rank, max_level, detect_level, scrub_secrets}
use tik_tok_jam.Action.{Action, ok}
use tik_tok_jam.Ifc.{shingles}

-- `if (!best || rank(entry) > rank(best)) best = entry.label`
abbrev pub higher : Option Label → Label → Label
higher none l = l
higher (some best) l = if ltb (level_rank best.level) (level_rank l.level) then l else best

abbrev pub shares : List String → FingerprintEntry → Bool
shares probe entry = any (λ h. includes entry.hashes h) probe

unfoldable pub best_match : List String → Option Label → List FingerprintEntry → Option Label
best_match probe best [] = best
best_match probe best (entry ∷ list) =
    best_match probe (if shares probe entry then some (higher best entry.label) else best) list

abbrev pub entries_of : String → List FingerprintEntry → List FingerprintEntry
entries_of run_id index = filter (λ entry. entry.run_id == run_id) index

pub data Verdict : Type 0 where
  allow redact block : Verdict

pub record ScreenResult : Type 0 where
  pub verdict : Verdict
  pub level : SecurityLevel
  pub origin : Option Label
  pub output : String

module _ (digest : List ℕ → String) where
  unfoldable pub match_origin : List FingerprintEntry → String → String → Option Label
  unfolding best_match
  match_origin index run_id payload =
      best_match (shingles digest payload) none (entries_of run_id index)

abbrev pub withheld_text : Label → SecurityLevel → String
withheld_text origin limit =
    "DENIED (classification): output withheld — it carries content originating from "
    ++ origin.origin
    ++ " classified "
    ++ level_text origin.level
    ++ ", above the chat output limit ("
    ++ level_text limit
    ++ "). The audit timeline has the details."

abbrev above : SecurityLevel → SecurityLevel → Bool
above level limit = ltb (level_rank limit) (level_rank level)

abbrev origin_level : Option Label → SecurityLevel
origin_level none = SecurityLevel.public
origin_level (some label) = label.level

-- `show_number` writes a count in digits, for the redaction notice.
module _ (digest : List ℕ → String) (show_number : ℕ → String) where
  abbrev redacted : SecurityLevel → Option Label → String → ScreenResult
  redacted level origin output = record {
    verdict = Verdict.redact;
    level = level;
    origin = origin;
    output =
        (scrub_secrets output).0
        ++ "\n\n[launchpad] "
        ++ show_number (scrub_secrets output).1
        ++ " secret-level value(s) redacted from this output.";
  }

  abbrev withheld : SecurityLevel → SecurityLevel → Option Label → String → ScreenResult
  withheld level limit none output = redacted level none output
  withheld level limit (some label) output =
      if above label.level limit
      then record {
        verdict = Verdict.block;
        level = level;
        origin = some label;
        output = withheld_text label limit;
      }
      else redacted level (some label) output

  unfoldable pub screen_output :
      List FingerprintEntry → String → String → SecurityLevel → ScreenResult
  screen_output index run_id output limit =
      let origin = match_origin digest index run_id output in
      let level = max_level (origin_level origin) (detect_level output) in
      if leb (level_rank level) (level_rank limit)
      then record { verdict = Verdict.allow; level = level; origin = none; output = output }
      else withheld level limit origin output

unfoldable pub clear_fingerprints : String → Action (Unit {0})
clear_fingerprints run_id w = (
  ok tt,
  record w {
    index = filter (λ entry. not (entry.run_id == run_id)) w.index;
    db = record w.db {
      fingerprints = filter (λ entry. not (entry.run_id == run_id)) w.db.fingerprints;
    };
  },
)
