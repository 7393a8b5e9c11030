-- ===== src/Gateway/Paths.antt =====
-- apps/server/src/gateway.ts: what `path.resolve` leaves of the segments of a path.
use Prim.Native.Char.{Char, code}
use Prim.Native.String.{◌++◌}
use Prim.Native.String.append
use mathlib.Core.List
use mathlib.Core.Path.{subst}
use mathlib.Core.List.{reverse_aux}
use text.Mathlib.TextLemmas.{append_assoc}
use tik_tok_jam.Base.{
  String, ◌≡◌, refl, sym, ap, ◌∙◌, Bool, true, false, not, ◌||◌, ◌&&◌, List, [], ◌∷◌, ◌==◌, arith,
  Eq-String, All, nat_eq, Bool-cases, inl, inr, ◌⊎◌,
}
use tik_tok_jam.Gateway.Jail.{
  split_path, step_path, walk_path, resolve, show_below, show_path, is_absolute,
}

-- The text has a "/".
abbrev pub has_slash : String → Bool
has_slash String.[] = false
has_slash (String.◌∷◌ c s) = nat_eq (code c) b'/' || has_slash s

-- The name of a file or of a directory: not empty, neither "." nor "..", and without a "/".
abbrev pub is_name : String → Bool
is_name part = not (part == "" || part == "." || part == "..") && not (has_slash part)

abbrev pub Names : List String → Type 0
Names parts = All (λ p. is_name p ≡ true) parts

abbrev Whole : List String → Type 0
Whole parts = All (λ p. has_slash p ≡ false) parts

split_path-Whole : (s : String) → Whole (split_path s)
unfolding split_path
split_path-Whole String.[] = (refl, tt)
split_path-Whole (String.◌∷◌ c s) =
    let below = split_path-Whole s in
    elim (split_path s) as (λ parts. split_path s ≡ parts → Whole (split_path (String.◌∷◌ c s))) [
      | [] ↦ λ e. ground (arith, e)
      | part ∷ parts ↦ λ e. ground (arith, e, below)
    ]
      refl

step_path-Names :
    (stack : List String) (part : String)
    → Names stack
    → has_slash part ≡ false
    → Names (step_path stack part)
unfolding step_path
step_path-Names [] part h whole = ground arith
step_path-Names (top ∷ below) part h whole = ground arith

walk_path-Names :
    (stack parts : List String) → Names stack → Whole parts → Names (walk_path stack parts)
unfolding walk_path
walk_path-Names stack [] h whole = h
walk_path-Names stack (part ∷ parts) h whole =
    walk_path-Names (step_path stack part) parts (step_path-Names stack part h whole.0) whole.1

-- A path that is resolved from a directory's path has names only.
pub resolve-Names : (base : List String) (rel : String) → Names base → Names (resolve base rel)
unfolding resolve
resolve-Names base rel h = elim (Bool-cases (is_absolute rel)) [
  | inl absolute ↦ rw absolute (walk_path-Names [] (split_path rel) tt (split_path-Whole rel))
  | inr relative ↦ rw relative (walk_path-Names base (split_path rel) h (split_path-Whole rel))
]

slash : (rest : String) → "/" ++ rest ≡ String.◌∷◌ "/" rest
slash rest = append.cons "/" "" rest ∙ ap (String.◌∷◌ "/") (append.nil rest)

split_path-cons :
    (c : Char) (s part : String) (parts : List String)
    → split_path s ≡ part ∷ parts
    → nat_eq (code c) b'/' ≡ false
    → split_path (String.◌∷◌ c s) ≡ String.◌∷◌ c part ∷ parts
unfolding split_path
split_path-cons c s part parts e differs = ground (arith, e, differs)

split_path-some :
    (s : String) → (part : String) × (parts : List String) × (split_path s ≡ part ∷ parts)
unfolding split_path
split_path-some String.[] = ("", [], refl)
split_path-some (String.◌∷◌ c s) =
    let (part, parts, e) = split_path-some s in
    elim (Bool-cases (nat_eq (code c) b'/')) [
      | inl same ↦ ("", part ∷ parts, ground (arith, e, same))
      | inr differs ↦ (String.◌∷◌ c part, parts, ground (arith, e, differs))
    ]

split_path-plain :
    (top rest : String)
    → has_slash top ≡ false
    → split_path (top ++ "/" ++ rest) ≡ top ∷ split_path rest
unfolding split_path
split_path-plain String.[] rest h =
    let (part, parts, e) = split_path-some rest in
    ap split_path (append.nil ("/" ++ rest) ∙ slash rest) ∙ ground (arith, e)
split_path-plain (String.◌∷◌ c top) rest h =
    ap split_path (append.cons c top ("/" ++ rest))
    ∙ split_path-cons c (top ++ "/" ++ rest) top (split_path rest)
        (split_path-plain top rest (ground arith)) (ground arith)

-- What a stack's text and one "/" more are split into: the stack from its root.
split_path-show_below :
    (stack : List String) (rest : String)
    → Names stack
    → split_path (show_below stack ++ "/" ++ rest) ≡ "" ∷ reverse_aux stack (split_path rest)
unfolding show_below
split_path-show_below [] rest h = split_path-plain "" rest refl
split_path-show_below (top ∷ below) rest h =
    ap split_path (
      append_assoc (show_below below) ("/" ++ top) ("/" ++ rest)
      ∙ ap (λ s. show_below below ++ s) (append_assoc "/" top ("/" ++ rest)))
    ∙ split_path-show_below below (top ++ "/" ++ rest) h.1
    ∙ ap (λ t. "" ∷ reverse_aux below t) (split_path-plain top rest (ground (arith, h)))

reverse_aux-append :
    (xs ys zs : List String) → reverse_aux xs (List.◌++◌ ys zs) ≡ List.◌++◌ (reverse_aux xs ys) zs
reverse_aux-append [] ys zs = refl
reverse_aux-append (x ∷ xs) ys zs = reverse_aux-append xs (x ∷ ys) zs

reverse_aux_twice :
    (xs ys zs : List String) → reverse_aux (reverse_aux xs ys) zs ≡ reverse_aux ys (List.◌++◌ xs zs)
reverse_aux_twice [] ys zs = refl
reverse_aux_twice (x ∷ xs) ys zs = reverse_aux_twice xs (x ∷ ys) zs

no_empty_name :
    (top : String) (below parts more : List String)
    → is_name top ≡ true
    → Names below
    → reverse_aux below (top ∷ parts) ≡ "" ∷ more
    → ⊥
no_empty_name top [] parts more name h e =
    let empty : is_name "" ≡ true = ap is_name (sym (List.head-eq_of_cons-eq e)) ∙ name in
    absurd (ground (arith, empty))
no_empty_name top (t ∷ below) parts more name h e =
    no_empty_name t below (top ∷ parts) more h.0 h.1 e

-- Two stacks of names, of which one's text continues the other's: it continues the other.
continued :
    (root full : List String) (parts : List String)
    → Names root
    → reverse_aux full ("" ∷ []) ≡ reverse_aux root parts
    → (below : List String) × (full ≡ List.◌++◌ below root)
continued root full parts h e =
    let back : "" ∷ List.◌++◌ full [] ≡ reverse_aux parts (List.◌++◌ root []) =
      sym (reverse_aux_twice full ("" ∷ []) [])
      ∙ ap (λ t. reverse_aux t []) e
      ∙ reverse_aux_twice root parts [] in
    let whole : "" ∷ full ≡ List.◌++◌ (reverse_aux parts []) root =
      ap (λ t. "" ∷ t) (sym (List.append-nil full))
      ∙ back
      ∙ ap (reverse_aux parts) (List.append-nil root)
      ∙ reverse_aux-append parts [] root in
    elim (reverse_aux parts [])
        as (λ names.
          "" ∷ full ≡ List.◌++◌ names root
          → (below : List String) × (full ≡ List.◌++◌ below root)) [
            | [] ↦ λ w. let empty = (subst Names (sym w) h).0 in absurd (ground (arith, empty))
            | name ∷ below ↦ λ w. (below, List.tail-eq_of_cons-eq w)
          ]
      whole

-- The path is the root's text, or goes on from it behind a "/".
abbrev pub Continues : String → String → Type 0
Continues root path = (path ≡ root) ⊎ ((rest : String) × (path ≡ (root ++ "/") ++ rest))

-- A text that is the text of a stack, or has it and a "/" before the rest, is split alike.
parts_of :
    (root : List String) (path : String)
    → Names root
    → Continues (show_below root) path
    → (parts : List String) × (split_path (path ++ "/" ++ "") ≡ "" ∷ reverse_aux root parts)
parts_of root path h (inl same) =
    (split_path "", ap (λ s. split_path (s ++ "/" ++ "")) same ∙ split_path-show_below root "" h)
parts_of root path h (inr (rest, longer)) = (
  split_path (rest ++ "/" ++ ""),
  ap (λ s. split_path (s ++ "/" ++ "")) longer
      ∙ ap split_path (
          append_assoc (show_below root ++ "/") rest ("/" ++ "")
          ∙ append_assoc (show_below root) "/" (rest ++ "/" ++ ""))
      ∙ split_path-show_below root (rest ++ "/" ++ "") h,
)

-- Where a stack of names has a text that goes on from another's, it lies above it as a stack.
pub show_path-Continues :
    (root full : List String)
    → Names root
    → Names full
    → Continues (show_path root) (show_path full)
    → (below : List String) × (full ≡ List.◌++◌ below root)
unfolding split_path
show_path-Continues [] full h k text = (full, sym (List.append-nil full))
show_path-Continues (top ∷ root) [] h k text =
    let (parts, split) = parts_of (top ∷ root) "/" h text in
    absurd (no_empty_name top root parts ("" ∷ []) h.0 h.1 (sym (List.tail-eq_of_cons-eq split)))
show_path-Continues (top ∷ root) (name ∷ full) h k text =
    let (parts, split) = parts_of (top ∷ root) (show_path (name ∷ full)) h text in
    continued (top ∷ root) (name ∷ full) parts h
      (List.tail-eq_of_cons-eq (sym (split_path-show_below (name ∷ full) "" k) ∙ split))
