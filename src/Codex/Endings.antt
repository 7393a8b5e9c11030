-- ===== src/Codex/Endings.antt =====
-- What a run of Codex answers when its process has ended.
use tik_tok_jam.Base.{
  ℕ, String, ◌≡◌, refl, sym, ap, ◌∙◌, inl, inr, false, Option, none, some, at_last, ◌==◌, Eq-String,
  arith, Bool-cases, Option-cases,
}
use tik_tok_jam.Text.{trim}
use tik_tok_jam.Grants.{or_else}
use tik_tok_jam.Action.{ok}
use tik_tok_jam.Service.Execution.{RunnerResult}
use tik_tok_jam.Codex.Events.{ParsedEvents, Progress}
use tik_tok_jam.Codex.Outcome.{
  RunnerDeps, Active, Exit, output_of, conclude_process, judged, last_line,
}

-- What a run must have done for an answer.
abbrev pub Completed : RunnerDeps → Exit → Active → RunnerResult → Type 0
Completed deps exit active result =
    (exit ≡ Exit.close (some 0))
    × (active.cancelled ≡ false)
    × (active.timed_out ≡ false)
    × (active.reading.output_exceeded ≡ false)
    × ((p : Progress) × (message : String) × (last_line deps active.reading ≡ some p)
        × (at_last p.parsed.messages ≡ some message)
        × (result.output ≡ trim message)
        × ((result.output == "") ≡ false)
        × (result.thread_id ≡ p.parsed.thread_id)
        × (result.usage ≡ p.parsed.usage))

judged-ok :
    (deps : RunnerDeps) (active : Active) (code : ℕ) (parsed : ParsedEvents) (result : RunnerResult)
    → judged deps active code parsed ≡ ok result
    → (code ≡ 0)
      × (active.cancelled ≡ false)
      × (active.timed_out ≡ false)
      × (active.reading.output_exceeded ≡ false)
      × (output_of deps parsed (at_last parsed.messages) ≡ ok result)
judged-ok deps active code parsed result h =
    (ground (arith, h), ground (arith, h), ground (arith, h), ground (arith, h), ground (arith, h))

output_of-ok :
    (deps : RunnerDeps) (parsed : ParsedEvents) (o : Option String) (result : RunnerResult)
    → output_of deps parsed o ≡ ok result
    → (message : String) × (o ≡ some message)
      × (result.output ≡ trim message)
      × ((result.output == "") ≡ false)
      × (result.thread_id ≡ parsed.thread_id)
      × (result.usage ≡ parsed.usage)
output_of-ok deps parsed none result h = absurd (ground (arith, h))
output_of-ok deps parsed (some message) result h = elim (Bool-cases (trim message == "")) [
  | inl empty ↦ absurd (ground (arith, empty, h))
  | inr full ↦
      let made : record {
        output = trim message;
        thread_id = parsed.thread_id;
        usage = parsed.usage;
      }
          ≡ result =
        ground (arith, full, h) in
      (
        message,
        refl,
        sym (ap (λ r. r.output) made),
        ap (λ r. r.output == "") (sym made) ∙ full,
        sym (ap (λ r. r.thread_id) made),
        sym (ap (λ r. r.usage) made),
      )
]

closed : (code : Option ℕ) → or_else code 1 ≡ 0 → Exit.close code ≡ Exit.close (some 0)
closed none h = absurd (ground (arith, h))
closed (some n) h = ap (λ m. Exit.close (some m)) h

-- A run is answered only where its process closed with the code 0, was not cancelled, did not time out
-- and kept to the output's bound; the answer is the last message of the agent, trimmed and not empty,
-- with the last thread and usage that the process reported.
pub conclude_process-Completed :
    (deps : RunnerDeps) (exit : Exit) (active : Active) (result : RunnerResult)
    → conclude_process deps exit active ≡ ok result
    → Completed deps exit active result
unfolding conclude_process
conclude_process-Completed deps (Exit.error m) active result h = absurd (ground (arith, h))
conclude_process-Completed deps (Exit.close code) active result h =
    elim (Option-cases (last_line deps active.reading)) [
      | inl throws ↦ absurd (ground (arith, throws, h))
      | inr (p, read) ↦
          let (zero_code, live, in_time, within, answered) =
            judged-ok deps active (or_else code 1) p.parsed result (ground (arith, read, h)) in
          let (message, said, output, full, thread, usage) =
            output_of-ok deps p.parsed (at_last p.parsed.messages) result answered in
          (
            closed code zero_code,
            live,
            in_time,
            within,
            (p, message, read, said, output, full, thread, usage),
          )
    ]
