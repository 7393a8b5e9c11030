-- ===== src/Ifc/Taints.antt =====
-- apps/server/src/ifc.ts: what the flow checks decide, and that a taint which was added is seen by them.
use mathlib.Core.Option
use tik_tok_jam.Base.{
  Bool-cases, inl, inr, String, ◌≡◌, ◌≢◌, refl, ◌↔◌, Bool, true, false, none, List, [], ◌∷◌, ◌==◌,
  includes, any, push, arith, All, Eq-String,
}
use tik_tok_jam.Base.Find.{find-modify_first}
use tik_tok_jam.Types.Enums.{Egress, Trust}
use tik_tok_jam.Types.Equality.{Eq-Egress, Eq-Trust}
use tik_tok_jam.Types.Records.{Database, RunToken, Label}
use tik_tok_jam.Grants.{token_of}
use tik_tok_jam.Ifc.{check_egress, check_integrity, label_key, with_taint, add_taint_in}

-- The egress check lets a destination pass exactly when every taint permits it.
pub check_egress_iff :
    (taints : List Label) (dest : Egress)
    → (check_egress taints dest ≡ none) ↔ All (λ t. includes t.egress dest ≡ true) taints
unfolding check_egress
check_egress_iff [] dest = (λ _. tt, λ _. refl)
check_egress_iff (t ∷ ts) dest = (
  λ h. (ground arith, (check_egress_iff ts dest).0 (ground arith)),
  λ h. ground (arith, (check_egress_iff ts dest).1 h.1, h.0),
)

-- The integrity check lets a run pass exactly when every taint is trusted.
pub check_integrity_iff :
    (taints : List Label)
    → (check_integrity taints ≡ none) ↔ All (λ t. t.trust ≡ Trust.trusted) taints
unfolding check_integrity
check_integrity_iff [] = (λ _. tt, λ _. refl)
check_integrity_iff (t ∷ ts) = (
  λ h. (ground arith, (check_integrity_iff ts).0 (ground arith)),
  λ h. ground (arith, (check_integrity_iff ts).1 h.1, h.0),
)

pub token_of-add_taint :
    (jti : String) (label : Label) (d : Database)
    → token_of jti (add_taint_in jti label d) ≡ Option.map (with_taint label) (token_of jti d)
unfolding add_taint_in
token_of-add_taint jti label d =
    find-modify_first (λ t. t.jti == jti) (with_taint label) (λ t. ground arith) d.run_tokens

any-push : (p : Label → Bool) (xs : List Label) (x : Label) → p x ≡ true → any p (push xs x) ≡ true
any-push p [] x h = ground arith
any-push p (y ∷ xs) x h = ground (arith, any-push p xs x h)

-- Whatever the token held, it now carries a taint of that grant and origin.
pub with_taint_carries :
    (label : Label) (token : RunToken)
    → any (λ t. label_key t == label_key label) (with_taint label token).taints ≡ true
with_taint_carries label token = ground (
  arith,
  any-push (λ t. label_key t == label_key label) token.taints label
      (Eq-String.same_self (label_key label)),
)

-- No taint of that grant and origin permits the destination.
abbrev pub Narrow : Label → Egress → List Label → Type 0
Narrow label dest taints =
    All (λ t. (label_key t == label_key label) ≡ true → includes t.egress dest ≡ false) taints

check_egress-push :
    (taints : List Label) (label : Label) (dest : Egress)
    → includes label.egress dest ≡ false
    → check_egress (push taints label) dest ≢ none
unfolding check_egress
check_egress-push [] label dest h = ground arith
check_egress-push (t ∷ ts) label dest h = ground (arith, check_egress-push ts label dest h)

check_egress-known :
    (taints : List Label) (label : Label) (dest : Egress)
    → any (λ t. label_key t == label_key label) taints ≡ true
    → Narrow label dest taints
    → check_egress taints dest ≢ none
unfolding check_egress
check_egress-known [] label dest h k = ground arith
check_egress-known (t ∷ ts) label dest h k = elim (Bool-cases (label_key t == label_key label)) [
  | inl same ↦ let closed = k.0 same in ground arith
  | inr other ↦ ground (arith, check_egress-known ts label dest (ground arith) k.1)
]

-- A label that does not permit a destination closes it to the token that takes it, whether the token held
-- a taint of that grant and origin before or not, provided that no such earlier taint permits the
-- destination.
pub check_egress-with_taint :
    (label : Label) (token : RunToken) (dest : Egress)
    → includes label.egress dest ≡ false
    → Narrow label dest token.taints
    → check_egress (with_taint label token).taints dest ≢ none
check_egress-with_taint label token dest h k =
    elim (Bool-cases (any (λ t. label_key t == label_key label) token.taints)) [
      | inl old ↦ rw old (check_egress-known token.taints label dest old k)
      | inr new ↦ rw new (check_egress-push token.taints label dest h)
    ]
