-- ===== src/Action.antt =====
-- A handler of the server as an action on the world: the store (apps/server/src/store.ts), the hot
-- cache of ifc.ts, the workspaces' files and what was sent outside. The clock and `randomUUID` are
-- streams of answers, of which each call takes the next. The exceptions are those of errors.ts, the
-- gateway's `Denied` and other errors.
pub mod Cases
use tik_tok_jam.Base.{ℕ, suc, String, Bool, Option, none, some, List, if◌then◌else◌}
use tik_tok_jam.Types.Records.{Database, FingerprintEntry}

pub data Exception : Type 0 where
  http_error : ℕ → String → Exception
  denied : ℕ → String → String → Exception
  run_cancelled : Exception
  failure : String → Exception

pub data Result (A : Type 0) : Type 0 where
  ok : A → Result A
  err : Exception → Result A

-- What leaves the server by a tool call.
pub data Effect : Type 0 where
  crm_note : String → String → String → Effect
  webhook : String → String → Effect

pub record World : Type 0 where
  pub db : Database
  pub index : List FingerprintEntry
  pub files : String → Option String
  pub sent : List Effect
  pub clock : ℕ → ℕ
  pub uuids : ℕ → String

abbrev pub Action : Type 0 → Type 0
Action A = World → Result A × World

infixl 5 ◌>>=◌ ◌>>◌
abbrev pub ◌>>=◌ : {A B : Type 0} → Action A → (A → Action B) → Action B
◌>>=◌ m f w = let (r, w') = m w in elim r [ ok a ↦ f a w' | err e ↦ (err e, w') ]

abbrev pub ◌>>◌ : {A B : Type 0} → Action A → Action B → Action B
m >> k = m >>= λ _. k

module _ {A : Type 0} where
  abbrev pub pure : A → Action A
  pure a w = (ok a, w)

  abbrev pub throw : Exception → Action A
  throw e w = (err e, w)

  -- `if (!x) throw e`
  abbrev pub require : Option A → Exception → Action A
  require none e = throw e
  require (some a) e = pure a

  -- `store.snapshot()`, or a part of it
  abbrev pub read_db : (Database → A) → Action A
  read_db f w = (ok (f w.db), w)

  -- `store.mutate`: a body that throws leaves the data as they were.
  abbrev pub mutate : (Database → Result (A × Database)) → Action A
  mutate body w = elim (body w.db) [ ok (a, d) ↦ (ok a, record w { db = d }) | err e ↦ (err e, w) ]

abbrev pub throw_if : Bool → Exception → Action (Unit {0})
throw_if b e = if b then throw e else pure tt

-- A body of `mutate` that throws nothing and returns nothing.
abbrev pub update : (Database → Database) → Action (Unit {0})
update f w = (ok tt, record w { db = f w.db })

abbrev pub now : Action ℕ
now w = (ok (w.clock 0), record w { clock = λ n. w.clock (suc n) })

abbrev pub random_uuid : Action String
random_uuid w = (ok (w.uuids 0), record w { uuids = λ n. w.uuids (suc n) })

abbrev pub for_each : {A : Type 0} → (A → Action (Unit {0})) → List A → Action (Unit {0})
for_each f List.[] w = (ok tt, w)
for_each f (List.◌∷◌ x xs) w =
    let (r, w') = f x w in elim r [ ok _ ↦ for_each f xs w' | err e ↦ (err e, w') ]
