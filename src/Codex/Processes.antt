-- ===== src/Codex/Processes.antt =====
-- The runner's table of processes through any sequence of starts, chunks, cancellations, timeouts and
-- ends.
use mathlib.Core.Path.{subst}
use tik_tok_jam.Base.{
  String, ◌≡◌, refl, ap, ◌∙◌, inl, inr, Bool, true, false, not, ◌||◌, Option, some, List, [], ◌∷◌,
  push, any, filter, find, modify_first, ◌==◌, Eq-String, arith, Bool-cases, Option-cases,
}
use tik_tok_jam.Action.{ok}
use tik_tok_jam.Codex.Output.{Chunk, consume}
use tik_tok_jam.Codex.Outcome.{
  RunnerDeps, Active, Exit, start_process, cancel_process, time_out_process, receive_chunk,
  settle_process, modify_active, new_active,
}

-- Whether the table has a process of the agent.
abbrev has : String → List Active → Bool
has agent_id actives = any (λ a. a.agent_id == agent_id) actives

-- No agent has two processes.
abbrev pub Unique : List Active → Type 0
Unique [] = Unit {0}
Unique (a ∷ more) = (has a.agent_id more ≡ false) × Unique more

module _ (f : Active → Active) (same : (a : Active) → (f a).agent_id ≡ a.agent_id)
    (id : String) where
  has-modify :
      (other : String) (actives : List Active)
      → has other (modify_first (λ a. a.agent_id == id) f actives) ≡ has other actives
  has-modify other [] = refl
  has-modify other (a ∷ more) =
      let rest = has-modify other more in let s = same a in ground (arith, rest, s)

  modify-Unique :
      (actives : List Active)
      → Unique actives
      → Unique (modify_first (λ a. a.agent_id == id) f actives)
  modify-Unique [] u = tt
  modify-Unique (a ∷ more) u =
      let kept = has-modify a.agent_id more in
      let s = same a in
      elim (Bool-cases (a.agent_id == id)) [
        | inl hit ↦ rw hit (ap (λ i. has i more) s ∙ u.0, u.1)
        | inr miss ↦ rw miss (kept ∙ u.0, modify-Unique more u.1)
      ]

has-push :
    (other : String) (a : Active) (actives : List Active)
    → has other (push actives a) ≡ (has other actives || a.agent_id == other)
has-push other a [] = ground arith
has-push other a (b ∷ more) = let rest = has-push other a more in ground (arith, rest)

ne_comm : (x y : String) → (x == y) ≡ false → (y == x) ≡ false
ne_comm x y h = elim (Bool-cases (y == x)) [
  | inl same ↦
      absurd (ground (arith, h, ap (λ z. z == y) (Eq-String.sound y x same), Eq-String.same_self y))
  | inr differ ↦ differ
]

push-Unique :
    (a : Active) (actives : List Active)
    → has a.agent_id actives ≡ false
    → Unique actives
    → Unique (push actives a)
push-Unique a [] new u = (refl, tt)
push-Unique a (b ∷ more) new u =
    let rest = has-push b.agent_id a more in
    let other = ne_comm b.agent_id a.agent_id (ground (arith, new)) in
    (ground (arith, rest, other, u.0), push-Unique a more (ground (arith, new)) u.1)

has-filter :
    (other id : String) (actives : List Active)
    → has other actives ≡ false
    → has other (filter (λ a. not (a.agent_id == id)) actives) ≡ false
has-filter other id [] h = refl
has-filter other id (a ∷ more) h =
    let rest = has-filter other id more (ground (arith, h)) in ground (arith, rest, h)

filter-Unique :
    (id : String) (actives : List Active)
    → Unique actives
    → Unique (filter (λ a. not (a.agent_id == id)) actives)
filter-Unique id [] u = tt
filter-Unique id (a ∷ more) u =
    let rest = filter-Unique id more u.1 in
    let kept = has-filter a.agent_id id more u.0 in
    elim (Bool-cases (a.agent_id == id)) [
      | inl gone ↦ rw gone rest
      | inr stays ↦ rw stays (kept, rest)
    ]

module _ (deps : RunnerDeps) where
  pub data Step (actives : List Active) : List Active → Type 0 where
    start :
        {next : List Active} (agent_id : String) (thread_id : Option String)
        → start_process deps agent_id thread_id actives ≡ ok next
        → Step actives next
    chunk :
        {next : List Active} (agent_id : String) (c : Chunk)
        → receive_chunk deps agent_id c actives ≡ some next
        → Step actives next
    cancel : (agent_id : String) → Step actives (cancel_process deps agent_id actives).1
    time_out : (agent_id : String) → Step actives (time_out_process deps agent_id actives)
    settle :
        (agent_id : String) (exit : Exit)
        → Step actives (settle_process deps agent_id exit actives).1

  pub data Reachable : List Active → Type 0 where
    empty : Reachable []
    after : {actives next : List Active} → Reachable actives → Step actives next → Reachable next

  chunk-Unique :
      (agent_id : String) (c : Chunk) (actives next : List Active)
      → receive_chunk deps agent_id c actives ≡ some next
      → Unique actives
      → Unique next
  unfolding receive_chunk
  chunk-Unique agent_id c actives next h u =
      elim (Option-cases (find (λ a. a.agent_id == agent_id) actives)) [
        | inl none_there ↦
            let same : actives ≡ next = ground (arith, none_there, h) in subst Unique same u
        | inr (a, there) ↦
            elim (Option-cases (consume deps.json_parse deps.decode deps.max_bytes c a.reading)) [
              | inl throws ↦ absurd (ground (arith, there, throws, h))
              | inr (r, reads) ↦
                  let same : modify_active deps agent_id (λ b. record b { reading = r }) actives
                      ≡ next =
                    ground (arith, there, reads, h) in
                  subst Unique same
                    (modify-Unique (λ b. record b { reading = r }) (λ b. refl) agent_id actives u)
            ]
      ]

  start-Unique :
      (agent_id : String) (thread_id : Option String) (actives next : List Active)
      → start_process deps agent_id thread_id actives ≡ ok next
      → Unique actives
      → Unique next
  unfolding start_process
  start-Unique agent_id thread_id actives next h u = elim (Bool-cases (has agent_id actives)) [
    | inl taken ↦ absurd (ground (arith, taken, h))
    | inr new ↦
        let same : push actives (new_active deps agent_id thread_id) ≡ next =
          ground (arith, new, h) in
        subst Unique same (push-Unique (new_active deps agent_id thread_id) actives new u)
  ]

  Step-Unique : {actives next : List Active} → Step actives next → Unique actives → Unique next
  unfolding cancel_process time_out_process settle_process
  Step-Unique {actives} {next} (start agent_id thread_id h) u =
      start-Unique agent_id thread_id actives next h u
  Step-Unique {actives} {next} (chunk agent_id c h) u = chunk-Unique agent_id c actives next h u
  Step-Unique {actives} (cancel agent_id) u =
      modify-Unique (λ a. record a { cancelled = true }) (λ a. refl) agent_id actives u
  Step-Unique {actives} (time_out agent_id) u =
      modify-Unique (λ a. record a { timed_out = true }) (λ a. refl) agent_id actives u
  Step-Unique {actives} (settle agent_id exit) u = filter-Unique agent_id actives u

  -- Through any sequence of starts, chunks, cancellations, timeouts and ends, no agent has two processes
  -- at a time.
  pub Reachable-Unique : {actives : List Active} → Reachable actives → Unique actives
  Reachable-Unique empty = tt
  Reachable-Unique (after r s) = Step-Unique s (Reachable-Unique r)
