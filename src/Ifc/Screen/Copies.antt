-- ===== src/Ifc/Screen/Copies.antt =====
-- apps/server/src/ifc.ts: the screen of a run's output against the run's classified reads.
use mathlib.Core.Path.{subst}
use tik_tok_jam.Base.{
  ℕ, ◌≤◌, String, ◌≡◌, ◌≢◌, inl, inr, true, Option, none, some, List, [], ◌∷◌, All, Bool-cases,
  Option-cases, arith,
}
use tik_tok_jam.Types.Enums.{SecurityLevel}
use tik_tok_jam.Types.Records.{Label, FingerprintEntry}
use tik_tok_jam.Classify.{level_rank, max_level}
use tik_tok_jam.Ifc.{shingles}
use tik_tok_jam.Ifc.Screen.{
  higher, shares, best_match, entries_of, match_origin, screen_output, Verdict,
}

-- The level of what was found so far.
abbrev pub top : Option Label → ℕ
top none = 0
top (some l) = level_rank l.level

-- A read that left a print in the text is no more sensitive than that.
abbrev pub Below : List String → ℕ → FingerprintEntry → Type 0
Below probe level entry = shares probe entry ≡ true → level_rank entry.label.level ≤ level

higher-top :
    (best : Option Label) (l : Label)
    → (top best ≤ top (some (higher best l))) × (level_rank l.level ≤ top (some (higher best l)))
higher-top none l = ground arith
higher-top (some b) l = ground arith

best_match-Below :
    (probe : List String) (best : Option Label) (list : List FingerprintEntry)
    → (top best ≤ top (best_match probe best list))
      × All (Below probe (top (best_match probe best list))) list
unfolding best_match
best_match-Below probe best [] = (ground arith, tt)
best_match-Below probe best (e ∷ list) = elim (Bool-cases (shares probe e)) [
  | inl hit ↦
      let (reached, rest) = best_match-Below probe (some (higher best e.label)) list in
      let (kept, seen) = higher-top best e.label in
      let same : best_match probe (some (higher best e.label)) list
          ≡ best_match probe best (e ∷ list) =
        ground (arith, hit) in
      subst (λ b. (top best ≤ top b) × All (Below probe (top b)) (e ∷ list)) same
        (omega (arith, kept, reached), ((λ h. omega (arith, seen, reached)), rest))
  | inr miss ↦
      let (reached, rest) = best_match-Below probe best list in
      let same : best_match probe best list ≡ best_match probe best (e ∷ list) =
        ground (arith, miss) in
      subst (λ b. (top best ≤ top b) × All (Below probe (top b)) (e ∷ list)) same
        (reached, ((λ h. absurd (ground (arith, miss, h))), rest))
]

loosened :
    (probe : List String) (a b : ℕ) (list : List FingerprintEntry)
    → a ≤ b
    → All (Below probe a) list
    → All (Below probe b) list
loosened probe a b [] h k = tt
loosened probe a b (e ∷ list) h k =
    ((λ hit. ground (arith, k.0 hit, h)), loosened probe a b list h k.1)

module _ (digest : List ℕ → String) (show_number : ℕ → String) where
  blocked :
      (index : List FingerprintEntry) (run_id output : String) (limit : SecurityLevel)
      → (screen_output digest show_number index run_id output limit).verdict ≢ Verdict.block
      → top (match_origin digest index run_id output) ≤ level_rank limit
  unfolding screen_output max_level
  blocked index run_id output limit h =
      elim (Option-cases (match_origin digest index run_id output)) [
        | inl nothing ↦ ground (arith, nothing)
        | inr (label, found) ↦ ground (arith, found, h)
      ]

  -- An output that the screen does not block carries no print of a read of the run that is classified
  -- above the limit.
  pub screen_output-Below :
      (index : List FingerprintEntry) (run_id output : String) (limit : SecurityLevel)
      → (screen_output digest show_number index run_id output limit).verdict ≢ Verdict.block
      → All (Below (shingles digest output) (level_rank limit)) (entries_of run_id index)
  unfolding match_origin
  screen_output-Below index run_id output limit h =
      loosened (shingles digest output) (top (match_origin digest index run_id output))
        (level_rank limit) (entries_of run_id index) (blocked index run_id output limit h)
        (best_match-Below (shingles digest output) none (entries_of run_id index)).1
