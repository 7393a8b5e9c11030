-- ===== src/Grants/Live.antt =====
-- apps/server/src/grants.ts: what a grant that `findLiveGrant` answers is, and what revocation leaves.
use tik_tok_jam.Base.{ℕ, ◌<◌, ◌≡◌, true, none, some, includes, arith, Eq-String, Eq-Option}
use tik_tok_jam.Base.Find.{find_passes}
use tik_tok_jam.Types.Equality.{Eq-Resource, Eq-GrantAction, Eq-Egress}
use tik_tok_jam.Types.Records.{Database, PolicyGrant}
use tik_tok_jam.Grants.{GrantQuery, answers, is_live, find_live_grant}

-- The grant is live at that time.
abbrev pub IsLive : PolicyGrant → ℕ → Type 0
IsLive g at = (g.revoked_at ≡ none) × ((expiry : ℕ) → g.expires_at ≡ some expiry → at < expiry)

-- The grant permits what is asked.
pub record Answers (q : GrantQuery) (g : PolicyGrant) : Type 0 where
  pub owner : g.from_owner ≡ q.from_owner
  pub source : g.from_agent ≡ q.from_agent
  pub recipient : g.to_agent ≡ q.to_agent
  pub resource : g.resource ≡ q.resource
  pub action : includes g.actions q.action ≡ true

is_live-IsLive : (g : PolicyGrant) (at : ℕ) → is_live g at ≡ true → IsLive g at
is_live-IsLive g at h = (ground arith, λ expiry e. ground arith)

answers-Answers :
    (q : GrantQuery) (at : ℕ) (g : PolicyGrant) → answers q at g ≡ true → IsLive g at × Answers q g
answers-Answers q at g h = (
  is_live-IsLive g at (ground arith),
  record {
    owner = Eq-String.sound _ _ (ground arith);
    source = Eq-Option.sound _ _ (ground arith);
    recipient = Eq-String.sound _ _ (ground arith);
    resource = Eq-Resource.sound _ _ (ground arith);
    action = ground arith;
  },
)

-- A grant that the search answers is in force at that time, and permits just what was asked.
pub find_live_grant_sound :
    (q : GrantQuery) (at : ℕ) (d : Database) (g : PolicyGrant)
    → find_live_grant q at d ≡ some g
    → IsLive g at × Answers q g
unfolding find_live_grant
find_live_grant_sound q at d g h =
    answers-Answers q at g (find_passes (answers q at) d.policy_grants g h)
