-- ===== src/Codex/Lines.antt =====
-- Splitting a text that comes in two pieces.
use Prim.Native.Char.{Char, code}
use Prim.Native.String.{◌++◌}
use Prim.Native.String.append
use mathlib.Core.List
use tik_tok_jam.Base.{
  String, ◌≡◌, ◌≢◌, refl, sym, ap, ◌∙◌, true, false, ◌&&◌, List, [], ◌∷◌, arith, nat_eq, Bool-cases,
  inl, inr,
}
use tik_tok_jam.Codex.Output.{Split, split_lines, starts_line, prepend_char}

-- What a split gives with a further text behind its rest.
abbrev pub continued : Split → String → Split
continued s b = record {
  lines = List.◌++◌ s.lines (split_lines (s.rest ++ b)).lines;
  rest = (split_lines (s.rest ++ b)).rest;
}

-- The three ways in which a text goes on.
at_end :
    (c : Char) (a : String)
    → nat_eq (code c) 10 ≡ true
    → split_lines (String.◌∷◌ c a)
      ≡ record { lines = "" ∷ (split_lines a).lines; rest = (split_lines a).rest }
unfolding split_lines
at_end c a h = ground (arith, h)

at_return :
    (c : Char) (a : String)
    → nat_eq (code c) 10 ≡ false
    → (nat_eq (code c) 13 && starts_line a) ≡ true
    → split_lines (String.◌∷◌ c a) ≡ split_lines a
unfolding split_lines
at_return c a h k = ground (arith, h, k)

in_line :
    (c : Char) (a : String)
    → nat_eq (code c) 10 ≡ false
    → (nat_eq (code c) 13 && starts_line a) ≡ false
    → split_lines (String.◌∷◌ c a) ≡ prepend_char c (split_lines a)
unfolding split_lines
in_line c a h k = ground (arith, h, k)

begun : (a : String) → starts_line a ≡ true → (split_lines a).lines ≢ []
begun String.[] h e = absurd (ground (arith, h))
begun (String.◌∷◌ c a) h e = absurd (ground (arith, at_end c a h, e))

prepended :
    (c : Char) (s : Split)
    → (prepend_char c s).lines ≡ []
    → (s.lines ≡ []) × ((prepend_char c s).rest ≡ String.◌∷◌ c s.rest)
prepended c s h =
    elim s.lines
        as (λ ls. s.lines ≡ ls → (s.lines ≡ []) × ((prepend_char c s).rest ≡ String.◌∷◌ c s.rest)) [
          | [] ↦ λ e. ground (arith, e)
          | l ∷ ls ↦ λ e. absurd (ground (arith, e, h))
        ]
      refl

pub unended : (a : String) → (split_lines a).lines ≡ [] → (split_lines a).rest ≡ a
unfolding split_lines
unended String.[] h = refl
unended (String.◌∷◌ c a) h = elim (Bool-cases (nat_eq (code c) 10)) [
  | inl line ↦ absurd (ground (arith, at_end c a line, h))
  | inr other ↦ elim (Bool-cases (nat_eq (code c) 13 && starts_line a)) [
    | inl crlf ↦
        absurd
          (begun a (ground (arith, crlf)) (sym (ap (λ s. s.lines) (at_return c a other crlf)) ∙ h))
    | inr plain ↦
        let same = in_line c a other plain in
        let (none_yet, rest) = prepended c (split_lines a) (sym (ap (λ s. s.lines) same) ∙ h) in
        ap (λ s. s.rest) same ∙ rest ∙ ap (String.◌∷◌ c) (unended a none_yet)
  ]
]

prepend-continued :
    (c : Char) (a b : String) (ls : List String)
    → nat_eq (code c) 10 ≡ false
    → (nat_eq (code c) 13 && starts_line (a ++ b)) ≡ false
    → (split_lines a).lines ≡ ls
    → prepend_char c (continued (split_lines a) b) ≡ continued (prepend_char c (split_lines a)) b
prepend-continued c a b [] other plain e =
    let empty : split_lines a ≡ record { lines = []; rest = a } = cc (e, unended a e) in
    let joined : split_lines (String.◌∷◌ c (a ++ b)) ≡ prepend_char c (split_lines (a ++ b)) =
      in_line c (a ++ b) other plain in
    rw empty (sym joined ∙ ap split_lines (sym (append.cons c a b)))
prepend-continued c a b (l ∷ ls) other plain e =
    let begins : split_lines a ≡ record { lines = l ∷ ls; rest = (split_lines a).rest } = cc e in
    rw begins refl

starts_line-append :
    (d : Char) (a b : String) → starts_line (String.◌∷◌ d a ++ b) ≡ nat_eq (code d) 10
starts_line-append d a b = ap starts_line (append.cons d a b)

-- A text in two pieces has the lines of the first, and those of the second read behind the rest of the
-- first, also where a line's end is divided.
pub split_lines-append : (a b : String) → split_lines (a ++ b) ≡ continued (split_lines a) b
unfolding split_lines
split_lines-append String.[] b = refl
split_lines-append (String.◌∷◌ c String.[]) b = elim (Bool-cases (nat_eq (code c) 10)) [
  | inl line ↦
      let joined : split_lines (String.◌∷◌ c "" ++ b) ≡ split_lines (String.◌∷◌ c b) =
        ap split_lines (append.cons c "" b ∙ ap (String.◌∷◌ c) (append.nil b)) in
      joined ∙ at_end c b line ∙ cc (at_end c "" line, append.nil b)
  | inr other ↦ rw (in_line c "" other (ground arith)) refl
]
split_lines-append (String.◌∷◌ c (String.◌∷◌ d a)) b =
    let joined = ap split_lines (append.cons c (String.◌∷◌ d a) b) in
    let starts = starts_line-append d a b in
    let below = split_lines-append (String.◌∷◌ d a) b in
    elim (Bool-cases (nat_eq (code c) 10)) [
      | inl line ↦
          joined ∙ at_end c (String.◌∷◌ d a ++ b) line ∙ cc (at_end c (String.◌∷◌ d a) line, below)
      | inr other ↦ elim (Bool-cases (nat_eq (code c) 13 && nat_eq (code d) 10)) [
        | inl crlf ↦
            joined
            ∙ at_return c (String.◌∷◌ d a ++ b) other (ground (arith, crlf, starts))
            ∙ below
            ∙ ap (λ s. continued s b) (sym (at_return c (String.◌∷◌ d a) other crlf))
        | inr plain ↦
            let plain_too : (nat_eq (code c) 13 && starts_line (String.◌∷◌ d a ++ b)) ≡ false =
              ground (arith, plain, starts) in
            joined
            ∙ in_line c (String.◌∷◌ d a ++ b) other plain_too
            ∙ ap (prepend_char c) below
            ∙ prepend-continued c (String.◌∷◌ d a) b (split_lines (String.◌∷◌ d a)).lines other
                plain_too refl
            ∙ ap (λ s. continued s b) (sym (in_line c (String.◌∷◌ d a) other plain))
      ]
    ]
