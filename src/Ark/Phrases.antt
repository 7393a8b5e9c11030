-- ===== src/Ark/Phrases.antt =====
-- The sentence that the grammar is for, read back.
use Prim.Native.Char.{Char, code}
use Prim.Native.String.{◌++◌}
use Prim.Native.String.append
use tik_tok_jam.Base.{
  ℕ, String, ◌≡◌, refl, sym, ap, ◌∙◌, Bool, true, false, not, ◌&&◌, none, some, nat_eq, ◌==◌,
  Eq-String, arith,
}
use tik_tok_jam.Types.Enums.{GrantAction, action_text}
use tik_tok_jam.Text.{is_space, to_lower}
use tik_tok_jam.Service.Requests.{GrantIntent}
use tik_tok_jam.Ark.Intent.{
  Matched, is_name, take_name, skip_spaces, spaces, literal, skip_possessive, names_files,
  then_name, then_spaces, sharer, reader, match_here, match_from, parse_with_grammar,
}

-- A text of characters of a name.
abbrev pub is_named : String → Bool
is_named String.[] = true
is_named (String.◌∷◌ c s) = is_name (code c) && is_named s

-- Whether a text goes on with another character, or ends.
abbrev stops : (ℕ → Bool) → String → Bool
stops p String.[] = true
stops p (String.◌∷◌ c s) = not (p (code c))

name_alone : (s : String) → stops is_name s ≡ true → take_name s ≡ record { text = ""; rest = s }
unfolding take_name
name_alone String.[] h = refl
name_alone (String.◌∷◌ c s) h = ground (arith, h)

name_longer :
    (c : Char) (s : String)
    → is_name (code c) ≡ true
    → take_name (String.◌∷◌ c s)
      ≡ record { text = String.◌∷◌ c (take_name s).text; rest = (take_name s).rest }
unfolding take_name
name_longer c s h = ground (arith, h)

take_name-append :
    (a rest : String)
    → is_named a ≡ true
    → stops is_name rest ≡ true
    → take_name (a ++ rest) ≡ record { text = a; rest = rest }
take_name-append String.[] rest h k = ap take_name (append.nil rest) ∙ name_alone rest k
take_name-append (String.◌∷◌ c a) rest h k =
    let below = take_name-append a rest (ground (arith, h)) k in
    ap take_name (append.cons c a rest)
    ∙ name_longer c (a ++ rest) (ground (arith, h))
    ∙ ap (λ m. record { text = String.◌∷◌ c m.text; rest = m.rest }) below

named_not_space : (c : ℕ) → is_name c ≡ true → is_space c ≡ false
named_not_space c h = ground (arith, h)

spaces-append : (s : String) → stops is_space s ≡ true → spaces (" " ++ s) ≡ some s
unfolding skip_spaces
spaces-append String.[] h = refl
spaces-append (String.◌∷◌ c s) h =
    ap spaces
      (append.cons " " "" (String.◌∷◌ c s) ∙ ap (String.◌∷◌ " ") (append.nil (String.◌∷◌ c s)))
    ∙ ground (arith, h)

-- A text in lower case.
abbrev is_lower : String → Bool
is_lower String.[] = true
is_lower (String.◌∷◌ c s) = nat_eq (code c) (to_lower (code c)) && is_lower s

literal-append : (p s : String) → is_lower p ≡ true → literal p (p ++ s) ≡ some s
unfolding literal
literal-append String.[] s h = ap some (append.nil s)
literal-append (String.◌∷◌ c p) s h =
    let below = literal-append p s (ground (arith, h)) in
    ap (literal (String.◌∷◌ c p)) (append.cons c p s) ∙ ground (arith, h, below)

named_stops :
    (a rest : String) → is_named a ≡ true → (a == "") ≡ false → stops is_space (a ++ rest) ≡ true
named_stops String.[] rest h k = absurd (ground (arith, k))
named_stops (String.◌∷◌ c a) rest h k =
    let solid = named_not_space (code c) (ground (arith, h)) in
    ap (stops is_space) (append.cons c a rest) ∙ ground (arith, solid)

-- What is shared, as a sentence names it.
pub data Things : Type 0 where
  notes workspace files : Things

abbrev pub things_text : Things → String
things_text Things.notes = "'s notes"
things_text Things.workspace = "'s workspace"
things_text Things.files = "'s files"

abbrev after_action : String → Things → String
after_action from things = " " ++ (from ++ things_text things)

abbrev after_let : String → GrantAction → String → Things → String
after_let to action from things =
    " " ++ (to ++ (" " ++ (action_text action ++ after_action from things)))

-- "let Researcher read Writer's notes"
abbrev pub phrase : GrantIntent → Things → String
phrase intent things = "let" ++ after_let intent.to_agent intent.action intent.from_agent things

space_stops : (p : ℕ → Bool) (s : String) → p 32 ≡ false → stops p (" " ++ s) ≡ true
space_stops p s h = ap (stops p) (append.cons " " "" s) ∙ ground (arith, h)

shared : (things : Things) → names_files (spaces (skip_possessive (things_text things))) ≡ true
unfolding literal skip_spaces
shared Things.notes = refl
shared Things.workspace = refl
shared Things.files = refl

ends_name : (things : Things) → stops is_name (things_text things) ≡ true
ends_name Things.notes = refl
ends_name Things.workspace = refl
ends_name Things.files = refl

abbrev IsName : String → Type 0
IsName s = (is_named s ≡ true) × ((s == "") ≡ false)

name_found :
    (s : String) (m : Matched)
    → take_name s ≡ m
    → (m.text == "") ≡ false
    → then_name (some s) ≡ some m
name_found s m h k = ground (arith, h, k)

reader_reads :
    (to : Matched) (s : String)
    → spaces to.rest ≡ some (action_text GrantAction.read ++ s)
    → reader (some to) ≡ sharer GrantAction.read to.text (then_name (spaces s))
reader_reads to s h = let word = literal-append "read" s refl in ground (arith, h, word)

not_read : (s : String) → literal "read" ("write" ++ s) ≡ none
unfolding literal
not_read s = ap (literal "read") (append.cons "w" "rite" s)

reader_writes :
    (to : Matched) (s : String)
    → spaces to.rest ≡ some (action_text GrantAction.write ++ s)
    → reader (some to) ≡ sharer GrantAction.write to.text (then_name (spaces s))
reader_writes to s h =
    let other = not_read s in
    let word = literal-append "write" s refl in ground (arith, h, other, word)

module _ (to from : String) (things : Things) (named_to : IsName to)
    (named_from : IsName from) where
  sharer_reads :
      (action : GrantAction)
      → sharer action to (then_name (spaces (after_action from things)))
        ≡ some (record { to_agent = to; from_agent = from; action = action })
  sharer_reads action =
      let gap =
        spaces-append (from ++ things_text things)
          (named_stops from (things_text things) named_from.0 named_from.1) in
      let name = take_name-append from (things_text things) named_from.0 (ends_name things) in
      let found =
        name_found (from ++ things_text things) (record { text = from; rest = things_text things })
          name named_from.1 in
      let rest = shared things in
      ap (λ o. sharer action to (then_name o)) gap
      ∙ ap (sharer action to) found
      ∙ ground (arith, rest)

  -- The part behind the recipient's name.
  behind :
      (action : GrantAction)
      → reader (
          some
            (record { text = to; rest = " " ++ (action_text action ++ after_action from things) }))
        ≡ some (record { to_agent = to; from_agent = from; action = action })
  behind GrantAction.read =
      reader_reads (record { text = to; rest = " " ++ ("read" ++ after_action from things) })
        (after_action from things)
        (spaces-append ("read" ++ after_action from things)
          (ap (stops is_space) (append.cons "r" "ead" (after_action from things))))
      ∙ sharer_reads GrantAction.read
  behind GrantAction.write =
      reader_writes (record { text = to; rest = " " ++ ("write" ++ after_action from things) })
        (after_action from things)
        (spaces-append ("write" ++ after_action from things)
          (ap (stops is_space) (append.cons "w" "rite" (after_action from things))))
      ∙ sharer_reads GrantAction.write

  match_here-phrase :
      (action : GrantAction)
      → match_here ("let" ++ after_let to action from things)
        ≡ some (record { to_agent = to; from_agent = from; action = action })
  unfolding match_here
  match_here-phrase action =
      let tail = " " ++ (action_text action ++ after_action from things) in
      let gap = spaces-append (to ++ tail) (named_stops to tail named_to.0 named_to.1) in
      let name =
        take_name-append to tail named_to.0
          (space_stops is_name (action_text action ++ after_action from things) refl) in
      let found = name_found (to ++ tail) (record { text = to; rest = tail }) name named_to.1 in
      ap (λ o. reader (then_name (then_spaces o)))
        (literal-append "let" (after_let to action from things) refl)
      ∙ ap (λ o. reader (then_name o)) gap
      ∙ ap reader found
      ∙ behind action

-- A sentence "let A read B's notes", or with "write", "workspace" or "files", is read as the grant that it
-- asks for, where A and B are names of letters, digits, dots, dashes and underscores.
pub parse_with_grammar-phrase :
    (intent : GrantIntent) (things : Things)
    → IsName intent.to_agent
    → IsName intent.from_agent
    → parse_with_grammar (phrase intent things) ≡ some intent
unfolding parse_with_grammar match_from
parse_with_grammar-phrase intent things named_to named_from =
    let here =
      match_here-phrase intent.to_agent intent.from_agent things named_to named_from
        intent.action in
    let text =
      append.cons "l" "et" (after_let intent.to_agent intent.action intent.from_agent things) in
    let first : match_here (
          String.◌∷◌ "l" ("et" ++ after_let intent.to_agent intent.action intent.from_agent things))
        ≡ some intent =
      sym (ap match_here text) ∙ here in
    ap parse_with_grammar text ∙ ground (arith, first)
