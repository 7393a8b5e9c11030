-- ===== src/Audit/Bounds.antt =====
-- apps/server/src/audit.ts: the trail stays bounded, and the newest row is in it.
use tik_tok_jam.Base.{
  ℕ, suc, ◌≤◌, ◌≡◌, refl, ◌∙◌, some, List, [], ◌∷◌, arith, length, drop, push, at_last, length-drop,
  ltb, Bool-cases, inl, inr, ◌-◌, ◌<◌,
}
use tik_tok_jam.Types.Records.{Database, RunEvent}
use tik_tok_jam.Audit.{push_event}

at_last-push : (xs : List RunEvent) (x : RunEvent) → at_last (push xs x) ≡ some x
at_last-push [] x = refl
at_last-push (y ∷ []) x = refl
at_last-push (y ∷ z ∷ xs) x = at_last-push (z ∷ xs) x

at_last-drop : (n : ℕ) (xs : List RunEvent) → n < length xs → at_last (drop n xs) ≡ at_last xs
at_last-drop ℕ.zero xs h = refl
at_last-drop (suc n) [] h = absurd (omega arith)
at_last-drop (suc n) (y ∷ []) h = absurd (omega arith)
at_last-drop (suc n) (y ∷ z ∷ xs) h = at_last-drop n (z ∷ xs) (omega arith)

-- However many rows there were, at most 5000 are kept, and the row that was written is the last.
pub push_event_bounds :
    (row : RunEvent) (d : Database)
    → (length (push_event row d).run_events ≤ 5000)
      × (at_last (push_event row d).run_events ≡ some row)
unfolding push_event
push_event_bounds row d = elim (Bool-cases (ltb 5000 (length (push d.run_events row)))) [
  | inl over ↦ rw over (
    omega (arith, length-drop (length (push d.run_events row) - 5000) (push d.run_events row)),
    at_last-drop (length (push d.run_events row) - 5000) (push d.run_events row) (ground arith)
        ∙ at_last-push d.run_events row,
  )
  | inr fits ↦ rw fits (ground arith, at_last-push d.run_events row)
]
