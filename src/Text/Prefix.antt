-- ===== src/Text/Prefix.antt =====
-- What it means that a text begins with another.
use Prim.Native.Char.{code}
use Prim.Native.String.{◌++◌}
use Prim.Native.String.append
use tik_tok_jam.Base.{String, ◌≡◌, some, ap, ◌∙◌, arith, nat_eq, Eq-ℕ, Bool-cases, inl, inr}
use text.Mathlib.TextEquality.{Char-path}
use tik_tok_jam.Text.{strip_prefix}

pub strip_prefix-eq-some : (p s rest : String) → strip_prefix p s ≡ some rest → s ≡ p ++ rest
strip_prefix-eq-some String.[] s rest h = cc (append.nil rest)
strip_prefix-eq-some (String.◌∷◌ c p) String.[] rest h = cc
strip_prefix-eq-some (String.◌∷◌ c p) (String.◌∷◌ d s) rest h =
    elim (Bool-cases (nat_eq (code c) (code d))) [
      | inl same ↦ cc (
        Char-path c d (Eq-ℕ.sound (code c) (code d) same),
        strip_prefix-eq-some p s rest (ground arith),
        append.cons c p rest,
      )
      | inr differ ↦ absurd (ground arith)
    ]

pub strip_prefix-append : (p rest : String) → strip_prefix p (p ++ rest) ≡ some rest
strip_prefix-append String.[] rest = ap some (append.nil rest)
strip_prefix-append (String.◌∷◌ c p) rest =
    ap (strip_prefix (String.◌∷◌ c p)) (append.cons c p rest)
    ∙ ground (arith, strip_prefix-append p rest)
