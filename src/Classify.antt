-- ===== src/Classify.antt =====
-- apps/server/src/classify.ts: how sensitive a text is.
use tik_tok_jam.Base.{ℕ, String, Bool, none, List, [], ◌∷◌, ◌||◌, leb, if◌then◌else◌}
use tik_tok_jam.Types.Enums.{SecurityLevel}
use tik_tok_jam.Secrets.{Pattern, secret_patterns, test_from, scrub}

-- The place in `SECURITY_LEVELS`.
abbrev pub level_rank : SecurityLevel → ℕ
level_rank SecurityLevel.public = 0
level_rank SecurityLevel.internal = 1
level_rank SecurityLevel.confidential = 2
level_rank SecurityLevel.secret = 3

unfoldable pub max_level : SecurityLevel → SecurityLevel → SecurityLevel
max_level a b = if leb (level_rank b) (level_rank a) then a else b

pub data ClassifyContext : Type 0 where
  own_workspace granted_workspace crm : ClassifyContext

abbrev pub base_level : ClassifyContext → SecurityLevel
base_level ClassifyContext.own_workspace = SecurityLevel.internal
base_level ClassifyContext.granted_workspace = SecurityLevel.confidential
base_level ClassifyContext.crm = SecurityLevel.confidential

unfoldable pub some_matches : List Pattern → String → Bool
unfolding test_from
some_matches [] content = Bool.false
some_matches (p ∷ ps) content = test_from p none content || some_matches ps content

unfoldable pub detect_level : String → SecurityLevel
unfolding some_matches secret_patterns
detect_level content =
    if some_matches secret_patterns content then SecurityLevel.secret else SecurityLevel.public

unfoldable pub classify : ClassifyContext → String → SecurityLevel
unfolding max_level
classify context content = max_level (base_level context) (detect_level content)

-- The text with every match replaced, and how many matches there were.
unfoldable pub scrub_secrets : String → String × ℕ
unfolding scrub secret_patterns
scrub_secrets content = scrub secret_patterns content
