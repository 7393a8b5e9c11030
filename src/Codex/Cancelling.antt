-- ===== src/Codex/Cancelling.antt =====
-- What becomes of a cancelled process while others go on.
use mathlib.Core.Option
use mathlib.Core.Path.{subst}
use tik_tok_jam.Base.{
  String, ◌≡◌, refl, ap, ◌∙◌, inl, inr, Bool, true, false, not, Option, none, some, List, [], ◌∷◌,
  push, any, filter, find, modify_first, ◌==◌, ℕ, if◌then◌else◌, Eq-String, arith, Bool-cases,
  Option-cases,
}
use tik_tok_jam.Base.Find.{find-modify_first}
use tik_tok_jam.Grants.{is_null}
use tik_tok_jam.Action.{ok, err, failure, run_cancelled}
use tik_tok_jam.Codex.Output.{Chunk, consume}
use tik_tok_jam.Codex.Outcome.{
  RunnerDeps, Active, Exit, start_process, cancel_process, time_out_process, receive_chunk,
  settle_process, conclude_process, concluded, last_line, new_active,
}
use tik_tok_jam.Codex.Processes.{Step, start, chunk, cancel, time_out, settle}

-- The agent has a process, and it is flagged as cancelled.
abbrev pub Flagged : String → List Active → Type 0
Flagged agent_id actives =
    (a : Active) × (find (λ b. b.agent_id == agent_id) actives ≡ some a) × (a.cancelled ≡ true)

found-any : {A : Type 0} (q : A → Bool) (xs : List A) (a : A) → find q xs ≡ some a → any q xs ≡ true
found-any q [] a h = absurd (ground (arith, h))
found-any q (x ∷ xs) a h = elim (Bool-cases (q x)) [
  | inl hit ↦ ground (arith, hit)
  | inr miss ↦ ground (arith, miss, found-any q xs a (ground (arith, miss, h)))
]

find-filter : {A : Type 0} (q : A → Bool) (xs : List A) → find q (filter (λ x. not (q x)) xs) ≡ none
find-filter q [] = refl
find-filter q (x ∷ xs) = elim (Bool-cases (q x)) [
  | inl hit ↦ ground (arith, hit, find-filter q xs)
  | inr miss ↦ ground (arith, miss, find-filter q xs)
]

modify_first-Flagged :
    (q : Active → Bool) (f : Active → Active) (agent_id : String)
    → ((a : Active) → (f a).agent_id ≡ a.agent_id)
    → ((a : Active) → a.cancelled ≡ true → (f a).cancelled ≡ true)
    → (actives : List Active) → Flagged agent_id actives
    → Flagged agent_id (modify_first q f actives)
modify_first-Flagged q f agent_id same keeps [] (a, found, flag) = absurd (ground (arith, found))
modify_first-Flagged q f agent_id same keeps (x ∷ more) (a, found, flag) =
    let id = same x in
    elim (Bool-cases (x.agent_id == agent_id)) [
      | inl here ↦
          let it : x ≡ a = ground (arith, here, found) in
          elim (Bool-cases (q x)) [
            | inl hit ↦
                (f x, ground (arith, hit, here, id), keeps x (ap (λ y. y.cancelled) it ∙ flag))
            | inr miss ↦ (x, ground (arith, miss, here), ap (λ y. y.cancelled) it ∙ flag)
          ]
      | inr away ↦
          let (b, later, kept) =
            modify_first-Flagged q f agent_id same keeps more
              (a, ground (arith, away, found), flag) in
          elim (Bool-cases (q x)) [
            | inl hit ↦ (a, ground (arith, hit, away, id, found), flag)
            | inr miss ↦ (b, ground (arith, miss, away, later), kept)
          ]
    ]

push-Flagged :
    (agent_id : String) (new : Active) (actives : List Active)
    → Flagged agent_id actives
    → Flagged agent_id (push actives new)
push-Flagged agent_id new [] (a, found, flag) = absurd (ground (arith, found))
push-Flagged agent_id new (x ∷ more) (a, found, flag) = elim (Bool-cases (x.agent_id == agent_id)) [
  | inl here ↦ (a, ground (arith, here, found), flag)
  | inr away ↦
      let (b, later, kept) =
        push-Flagged agent_id new more (a, ground (arith, away, found), flag) in
      (b, ground (arith, away, later), kept)
]

differs : (x id other : String) → (x == id) ≡ true → (other == id) ≡ false → (x == other) ≡ false
differs x id other here apart = elim (Bool-cases (x == other)) [
  | inl same ↦
      absurd (ground (arith, here, apart, ap (λ y. y == id) (Eq-String.sound x other same)))
  | inr apart' ↦ apart'
]

filter-Flagged :
    (other agent_id : String)
    → (other == agent_id) ≡ false
    → (actives : List Active) → Flagged agent_id actives
    → Flagged agent_id (filter (λ a. not (a.agent_id == other)) actives)
filter-Flagged other agent_id apart [] (a, found, flag) = absurd (ground (arith, found))
filter-Flagged other agent_id apart (x ∷ more) (a, found, flag) =
    elim (Bool-cases (x.agent_id == agent_id)) [
      | inl here ↦
          let stays : (x.agent_id == other) ≡ false =
            differs x.agent_id agent_id other here apart in
          (a, ground (arith, here, stays, found), flag)
      | inr away ↦
          let (b, later, kept) =
            filter-Flagged other agent_id apart more (a, ground (arith, away, found), flag) in
          elim (Bool-cases (x.agent_id == other)) [
            | inl gone ↦ (b, ground (arith, gone, later), kept)
            | inr stays ↦ (b, ground (arith, stays, away, later), kept)
          ]
    ]

module _ (deps : RunnerDeps) where
  -- The step is not the end of the agent's process.
  abbrev pub Spares : {actives next : List Active} → String → Step deps actives next → Type 0
  Spares agent_id (settle other exit) = ((other == agent_id) ≡ false)
  Spares agent_id (start other thread_id h) = Unit {0}
  Spares agent_id (chunk other c h) = Unit {0}
  Spares agent_id (cancel other) = Unit {0}
  Spares agent_id (time_out other) = Unit {0}

  -- Any steps of all agents' processes, but the end of the one.
  pub data Meanwhile (agent_id : String) (actives : List Active) : List Active → Type 0 where
    at_once : Meanwhile agent_id actives actives
    then_also :
        {mid next : List Active}
        → Meanwhile agent_id actives mid
        → (s : Step deps mid next) → Spares agent_id s
        → Meanwhile agent_id actives next

  chunk-Flagged :
      (agent_id other : String) (c : Chunk) (actives next : List Active)
      → receive_chunk deps other c actives ≡ some next
      → Flagged agent_id actives
      → Flagged agent_id next
  unfolding receive_chunk
  chunk-Flagged agent_id other c actives next h flagged =
      elim (Option-cases (find (λ a. a.agent_id == other) actives)) [
        | inl none_there ↦
            let same : actives ≡ next = ground (arith, none_there, h) in
            subst (Flagged agent_id) same flagged
        | inr (a, there) ↦
            elim (Option-cases (consume deps.json_parse deps.decode deps.max_bytes c a.reading)) [
              | inl throws ↦ absurd (ground (arith, there, throws, h))
              | inr (r, reads) ↦
                  let f : Active → Active = λ b. record b { reading = r } in
                  let same : modify_first (λ b. b.agent_id == other) f actives ≡ next =
                    ground (arith, there, reads, h) in
                  subst (Flagged agent_id) same (
                    modify_first-Flagged (λ b. b.agent_id == other) f agent_id (λ b. refl)
                      (λ b kept. kept) actives flagged)
            ]
      ]

  start-Flagged :
      (agent_id other : String) (thread_id : Option String) (actives next : List Active)
      → start_process deps other thread_id actives ≡ ok next
      → Flagged agent_id actives
      → Flagged agent_id next
  unfolding start_process
  start-Flagged agent_id other thread_id actives next h flagged =
      elim (Bool-cases (any (λ a. a.agent_id == other) actives)) [
        | inl taken ↦ absurd (ground (arith, taken, h))
        | inr new ↦
            let same : push actives (new_active deps other thread_id) ≡ next =
              ground (arith, new, h) in
            subst (Flagged agent_id) same
              (push-Flagged agent_id (new_active deps other thread_id) actives flagged)
      ]

  Step-Flagged :
      {actives next : List Active} (agent_id : String)
      → (s : Step deps actives next) → Spares agent_id s
      → Flagged agent_id actives
      → Flagged agent_id next
  unfolding cancel_process time_out_process settle_process
  Step-Flagged {actives} {next} agent_id (start other thread_id h) spared flagged =
      start-Flagged agent_id other thread_id actives next h flagged
  Step-Flagged {actives} {next} agent_id (chunk other c h) spared flagged =
      chunk-Flagged agent_id other c actives next h flagged
  Step-Flagged {actives} agent_id (cancel other) spared flagged =
      modify_first-Flagged (λ a. a.agent_id == other) (λ a. record a { cancelled = true }) agent_id
        (λ a. refl) (λ a kept. refl) actives flagged
  Step-Flagged {actives} agent_id (time_out other) spared flagged =
      modify_first-Flagged (λ a. a.agent_id == other) (λ a. record a { timed_out = true }) agent_id
        (λ a. refl) (λ a kept. kept) actives flagged
  Step-Flagged {actives} agent_id (settle other exit) spared flagged =
      filter-Flagged other agent_id spared actives flagged

  Meanwhile-Flagged :
      (agent_id : String) {actives next : List Active}
      → Meanwhile agent_id actives next
      → Flagged agent_id actives
      → Flagged agent_id next
  Meanwhile-Flagged agent_id at_once flagged = flagged
  Meanwhile-Flagged agent_id (then_also more s spared) flagged =
      Step-Flagged agent_id s spared (Meanwhile-Flagged agent_id more flagged)

  cancelled-conclude :
      (code : Option ℕ) (a : Active)
      → a.cancelled ≡ true
      → conclude_process deps (Exit.close code) a ≡ (
          if is_null (last_line deps a.reading)
          then err (failure "Cannot read properties of null (reading 'type')")
          else err run_cancelled)
  unfolding conclude_process
  cancelled-conclude code a flag = elim (Option-cases (last_line deps a.reading)) [
    | inl throws ↦ ground (arith, throws)
    | inr (p, read) ↦ ground (arith, read, flag)
  ]

  -- Where an agent has a process, `cancel` finds it. Whatever all the processes do from then on, until the
  -- agent's own closes, its run is then answered as cancelled, whatever it has printed and whatever its
  -- code, unless its unended last line makes the parser throw: then it is answered with that failure. The
  -- agent has no process after it.
  pub cancel_process-settle_process :
      (actives later : List Active) (agent_id : String) (code : Option ℕ) (a : Active)
      → find (λ b. b.agent_id == agent_id) actives ≡ some a
      → Meanwhile agent_id (cancel_process deps agent_id actives).1 later
      → let ended = settle_process deps agent_id (Exit.close code) later in
        ((cancel_process deps agent_id actives).0 ≡ true)
        × (find (λ b. b.agent_id == agent_id) ended.1 ≡ none)
        × ((b : Active) × (find (λ b. b.agent_id == agent_id) later ≡ some b)
            × (ended.0
                ≡ some (
                    if is_null (last_line deps b.reading)
                    then err (failure "Cannot read properties of null (reading 'type')")
                    else err run_cancelled)))
  unfolding cancel_process settle_process
  cancel_process-settle_process actives later agent_id code a found meanwhile =
      let flag : Active → Active = λ b. record b { cancelled = true } in
      let flagged =
        find-modify_first (λ b. b.agent_id == agent_id) flag (λ b. refl) actives
        ∙ ap (Option.map flag) found in
      let (b, there, cancelled) = Meanwhile-Flagged agent_id meanwhile (flag a, flagged, refl) in
      (
        found-any (λ b. b.agent_id == agent_id) actives a found,
        find-filter (λ b. b.agent_id == agent_id) later,
        (
          b,
          there,
          ap (concluded deps (Exit.close code)) there
              ∙ ap some (cancelled-conclude code b cancelled),
        ),
      )
