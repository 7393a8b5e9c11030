-- ===== src/History/Traces.antt =====
-- Handlers whose changes to the store are sequences of mutations: one rule for each way in which a
-- handler is built.
use mathlib.Core.Path.{subst, sym}
use tik_tok_jam.Base.{
  ◌≡◌, Bool, true, false, Option, none, some, List, [], ◌∷◌, arith, inl, inr, if◌then◌else◌,
}
use tik_tok_jam.Types.Records.{Database}
use tik_tok_jam.Action.{
  World, Action, Result, ok, err, Exception, pure, throw, require, throw_if, read_db, mutate,
  update, now, random_uuid, for_each, ◌>>=◌, ◌>>◌,
}
use tik_tok_jam.Action.Cases.{Result-cases}
use tik_tok_jam.History.Steps.{Step, Reach, here, next, Reach-trans}

pub record Traces {A : Type 0} (m : Action A) : Type 0 where
  pub at : (w : World) → Reach w.db (m w).1.db

pub Traces-still : {A : Type 0} (m : Action A) → ((w : World) → (m w).1.db ≡ w.db) → Traces m
Traces-still m same = record { at = λ w. subst (Reach w.db) (sym (same w)) here }

bind_ok :
    {A B : Type 0} (m : Action A) (f : A → Action B) (w : World) (a : A)
    → (m w).0 ≡ ok a
    → (m >>= f) w ≡ f a (m w).1
bind_ok m f w a h = ground (arith, h)

bind_err :
    {A B : Type 0} (m : Action A) (f : A → Action B) (w : World) (e : Exception)
    → (m w).0 ≡ err e
    → (m >>= f) w ≡ (err e, (m w).1)
bind_err m f w e h = ground (arith, h)

pub Traces-bind :
    {A B : Type 0} {m : Action A} {f : A → Action B}
    → Traces m
    → ((a : A) → Traces (f a))
    → Traces (m >>= f)
Traces-bind {m} {f} h k = record {
  at = λ w. elim (Result-cases (m w).0) [
    | inl (a, e) ↦
        subst (λ x. Reach w.db x.1.db) (sym (bind_ok m f w a e))
          (Reach-trans (h.at w) ((k a).at (m w).1))
    | inr (x, e) ↦ subst (λ y. Reach w.db y.1.db) (sym (bind_err m f w x e)) (h.at w)
  ];
}

pub Traces-then :
    {A B : Type 0} {m : Action A} {k : Action B} → Traces m → Traces k → Traces (m >> k)
Traces-then h k = Traces-bind h (λ a. k)

pub Traces-pure : {A : Type 0} (a : A) → Traces (pure a)
Traces-pure a = record { at = λ w. here }

pub Traces-throw : {A : Type 0} (e : Exception) → Traces (throw {A = A} e)
Traces-throw e = record { at = λ w. here }

pub Traces-require : {A : Type 0} (o : Option A) (e : Exception) → Traces (require o e)
Traces-require none e = Traces-throw e
Traces-require (some a) e = Traces-pure a

pub Traces-if :
    {A : Type 0} (b : Bool) {m k : Action A} → Traces m → Traces k → Traces (if b then m else k)
Traces-if true h k = h
Traces-if false h k = k

pub Traces-throw_if : (b : Bool) (e : Exception) → Traces (throw_if b e)
Traces-throw_if b e = Traces-if b (Traces-throw e) (Traces-pure tt)

pub Traces-lift : {A : Type 0} (r : Result A) → Traces (λ w. (r, w))
Traces-lift r = record { at = λ w. here }

pub Traces-read_db : {A : Type 0} (f : Database → A) → Traces (read_db f)
Traces-read_db f = record { at = λ w. here }

pub Traces-now : Traces now
Traces-now = record { at = λ w. here }

pub Traces-random_uuid : Traces random_uuid
Traces-random_uuid = record { at = λ w. here }

pub Traces-update : (f : Database → Database) → ((d : Database) → Step d (f d)) → Traces (update f)
Traces-update f h = record { at = λ w. next here (h w.db) }

mutated :
    {A : Type 0} (body : Database → Result (A × Database)) (w : World)
    → ((a : A) (d' : Database) → body w.db ≡ ok (a, d') → Step w.db d')
    → Reach w.db (mutate body w).1.db
mutated body w h = elim (Result-cases (body w.db)) [
  | inl ((a, d'), e) ↦
      let same : (mutate body w).1.db ≡ d' = ground (arith, e) in
      subst (Reach w.db) (sym same) (next here (h a d' e))
  | inr (x, e) ↦
      let same : (mutate body w).1.db ≡ w.db = ground (arith, e) in
      subst (Reach w.db) (sym same) here
]

pub Traces-mutate :
    {A : Type 0} (body : Database → Result (A × Database))
    → ((d : Database) (a : A) (d' : Database) → body d ≡ ok (a, d') → Step d d')
    → Traces (mutate body)
Traces-mutate body h = record { at = λ w. mutated body w (h w.db) }

pub Traces-for_each :
    {A : Type 0} (f : A → Action (Unit {0}))
    → ((a : A) → Traces (f a))
    → (xs : List A) → Traces (for_each f xs)
Traces-for_each f h [] = record { at = λ w. here }
Traces-for_each f h (x ∷ xs) = record {
  at = (Traces-then {m = f x} {k = for_each f xs} (h x) (Traces-for_each f h xs)).at;
}

pub ruleset traces_rules = (
  Traces-pure, Traces-throw, Traces-require, Traces-read_db, Traces-now, Traces-random_uuid,
  Traces-throw_if, Traces-lift, Traces-if, Traces-then, Traces-bind,
)
