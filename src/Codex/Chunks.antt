-- ===== src/Codex/Chunks.antt =====
-- How the output arrives does not matter for what is read of it.
use Prim.Native.String.{◌++◌}
use Prim.Native.String.append
use mathlib.Core.List
use mathlib.Core.Option
use text.Mathlib.TextLemmas.{append-nil, append_assoc}
use tik_tok_jam.Base.{
  ℕ, ◌+◌, ◌≤◌, String, ◌≡◌, refl, sym, ap, ◌∙◌, Option, none, some, List, [], ◌∷◌, length, arith,
  Option-cases, inl, inr,
}
use tik_tok_jam.Types.Records.{Value}
use tik_tok_jam.Codex.Events.{Progress, parse_codex_event_line}
use tik_tok_jam.Codex.Output.{
  Split, split_lines, Stream, Chunk, Reading, parse_lines, take_text_of, counted, keep_last, fresh,
  consume, consume_all,
}
use tik_tok_jam.Codex.Lines.{continued, unended, split_lines-append}

abbrev pub bytes_of : List Chunk → ℕ
bytes_of [] = 0
bytes_of (c ∷ cs) = length c.bytes + bytes_of cs

-- The whole of what the chunks bring on standard output, each decoded by itself.
abbrev pub stdout_text : (List ℕ → String) → List Chunk → String
stdout_text decode [] = ""
stdout_text decode (c ∷ cs) = elim c.stream [
  | Stream.stdout ↦ decode c.bytes ++ stdout_text decode cs
  | Stream.stderr ↦ stdout_text decode cs
]

self_append : {A : Type 0} (xs ys : List A) → xs ≡ List.◌++◌ xs ys → ys ≡ []
self_append [] ys h = sym h
self_append (x ∷ xs) ys h = self_append xs ys (ground (arith, h))

rest_unended : (a : String) → (split_lines (split_lines a).rest).lines ≡ []
rest_unended a =
    let again = ap split_lines (sym (append-nil a)) ∙ split_lines-append a "" in
    let rest = ap split_lines (append-nil (split_lines a).rest) in
    sym (ap (λ s. s.lines) rest)
    ∙ self_append (split_lines a).lines (split_lines ((split_lines a).rest ++ "")).lines
        (ap (λ s. s.lines) again)

-- What is left of a reading beside standard error and the count.
abbrev pub heard : Option Reading → Option (Progress × String)
heard r = Option.map (λ t. (t.progress, t.stdout)) r

module _ (json_parse : String → Option Value) (decode : List ℕ → String) where
  -- The lines of a text, parsed in order, and the text behind the last line's end.
  abbrev pub read_whole : Split → Progress → Option (Progress × String)
  read_whole s p = Option.map (λ q. (q, s.rest)) (parse_lines json_parse s.lines p)

  parse_lines-append :
      (ls ms : List String) (p : Progress)
      → parse_lines json_parse (List.◌++◌ ls ms) p ≡ (elim (parse_lines json_parse ls p) [
        | none ↦ none
        | some q ↦ parse_lines json_parse ms q
      ])
  unfolding parse_lines
  parse_lines-append [] ms p = refl
  parse_lines-append (l ∷ ls) ms p = elim (Option-cases (parse_codex_event_line json_parse l p)) [
    | inl stop ↦ ground (arith, stop)
    | inr (q, go) ↦ ground (arith, go, parse_lines-append ls ms q)
  ]

  within :
      (max_bytes : ℕ) (c : Chunk) (r : Reading)
      → r.total_bytes + length c.bytes ≤ max_bytes
      → consume json_parse decode max_bytes c r
        ≡ take_text_of json_parse c.stream (decode c.bytes) (counted c r)
  unfolding consume
  within max_bytes c r fits = ground arith

  stopped :
      (s : Split) (t : String) (p : Progress)
      → parse_lines json_parse s.lines p ≡ none
      → read_whole (continued s t) p ≡ none
  stopped s t p stop =
      let both = parse_lines-append s.lines (split_lines (s.rest ++ t)).lines p in
      ground (arith, both, stop)

  resumed :
      (s : Split) (t : String) (p q : Progress)
      → parse_lines json_parse s.lines p ≡ some q
      → read_whole (continued s t) p ≡ read_whole (split_lines (s.rest ++ t)) q
  resumed s t p q go =
      let both = parse_lines-append s.lines (split_lines (s.rest ++ t)).lines p in
      ground (arith, both, go)

  regrouped :
      (r : Reading) (c : Chunk) (t : String)
      → split_lines (r.stdout ++ (decode c.bytes ++ t))
        ≡ continued (split_lines (r.stdout ++ decode c.bytes)) t
  regrouped r c t =
      ap split_lines (sym (append_assoc r.stdout (decode c.bytes) t))
      ∙ split_lines-append (r.stdout ++ decode c.bytes) t

  -- The reading goes on behind a chunk.
  abbrev on_from : ℕ → List Chunk → Option Reading → Option (Progress × String)
  on_from max_bytes cs o =
      heard (elim o [ none ↦ none | some t ↦ consume_all json_parse decode max_bytes cs t ])

  on_from-consume :
      (max_bytes : ℕ) (c : Chunk) (cs : List Chunk) (r : Reading)
      → heard (consume_all json_parse decode max_bytes (c ∷ cs) r)
        ≡ on_from max_bytes cs (consume json_parse decode max_bytes c r)
  unfolding consume_all
  on_from-consume max_bytes c cs r = refl

  -- The text that is still to be split, behind a chunk.
  at_stdout :
      (r : Reading) (c : Chunk) (cs : List Chunk)
      → c.stream ≡ Stream.stdout
      → split_lines (r.stdout ++ stdout_text decode (c ∷ cs))
        ≡ continued (split_lines (r.stdout ++ decode c.bytes)) (stdout_text decode cs)
  at_stdout r c cs e =
      let text : stdout_text decode (c ∷ cs) ≡ decode c.bytes ++ stdout_text decode cs =
        ground (arith, e) in
      ap (λ t. split_lines (r.stdout ++ t)) text ∙ regrouped r c (stdout_text decode cs)

  at_stderr :
      (c : Chunk) (cs : List Chunk)
      → c.stream ≡ Stream.stderr
      → stdout_text decode (c ∷ cs) ≡ stdout_text decode cs
  at_stderr c cs e = ground (arith, e)

  heard-consume_all :
      (max_bytes : ℕ) (cs : List Chunk) (r : Reading)
      → (split_lines r.stdout).lines ≡ []
      → r.total_bytes + bytes_of cs ≤ max_bytes
      → heard (consume_all json_parse decode max_bytes cs r)
        ≡ read_whole (split_lines (r.stdout ++ stdout_text decode cs)) r.progress
  unfolding consume_all parse_lines
  heard-consume_all max_bytes [] r h fits =
      let whole : split_lines (r.stdout ++ "") ≡ record { lines = []; rest = r.stdout } =
        ap split_lines (append-nil r.stdout) ∙ cc (h, unended r.stdout h) in
      rw whole refl
  heard-consume_all max_bytes (c ∷ cs) r h fits =
      let first =
        on_from-consume max_bytes c cs r
        ∙ ap (on_from max_bytes cs) (within max_bytes c r (omega (arith, fits))) in
      elim c.stream
          as (λ s.
            c.stream ≡ s
            → heard (consume_all json_parse decode max_bytes (c ∷ cs) r)
              ≡ read_whole (split_lines (r.stdout ++ stdout_text decode (c ∷ cs))) r.progress) [
                | Stream.stdout ↦ λ e.
                    elim (Option-cases (
                      parse_lines json_parse (split_lines (r.stdout ++ decode c.bytes)).lines
                        r.progress)) [
                          | inl stop ↦
                              let ends : take_text_of json_parse c.stream (decode c.bytes)
                                    (counted c r)
                                  ≡ none =
                                ground (arith, e, stop) in
                              first
                              ∙ ap (on_from max_bytes cs) ends
                              ∙ sym (
                                  ap (λ s. read_whole s r.progress) (at_stdout r c cs e)
                                  ∙ stopped (split_lines (r.stdout ++ decode c.bytes))
                                      (stdout_text decode cs) r.progress stop)
                          | inr (q, go) ↦
                              let r' = record (counted c r) {
                                progress = q;
                                stdout = (split_lines (r.stdout ++ decode c.bytes)).rest;
                              } in
                              let goes : take_text_of json_parse c.stream (decode c.bytes)
                                    (counted c r)
                                  ≡ some r' =
                                ground (arith, e, go) in
                              first
                              ∙ ap (on_from max_bytes cs) goes
                              ∙ heard-consume_all max_bytes cs r'
                                  (rest_unended (r.stdout ++ decode c.bytes)) (omega (arith, fits))
                              ∙ sym (
                                  ap (λ s. read_whole s r.progress) (at_stdout r c cs e)
                                  ∙ resumed (split_lines (r.stdout ++ decode c.bytes))
                                      (stdout_text decode cs) r.progress q go)
                        ]
                | Stream.stderr ↦ λ e.
                    let r' = record (counted c r) {
                      stderr = keep_last (r.stderr ++ decode c.bytes);
                    } in
                    let goes : take_text_of json_parse c.stream (decode c.bytes) (counted c r)
                        ≡ some r' =
                      ground (arith, e) in
                    first
                    ∙ ap (on_from max_bytes cs) goes
                    ∙ heard-consume_all max_bytes cs r' h (omega (arith, fits))
                    ∙ ap (λ t. read_whole (split_lines (r.stdout ++ t)) r.progress)
                        (sym (at_stderr c cs e))
              ]
        refl

  -- However a run's output comes in chunks, and whatever standard error brings in between: as long as it
  -- stays within the bound, it is read to the same events, and to the same unended line, as the chunks'
  -- decoded texts are when they are put together and split into lines at once; a line that throws stops
  -- both. Each chunk is decoded by itself, so bytes that are cut inside a character may decode otherwise.
  pub consume_all-split_lines :
      (max_bytes : ℕ) (cs : List Chunk) (p : Progress)
      → bytes_of cs ≤ max_bytes
      → heard (consume_all json_parse decode max_bytes cs (fresh p))
        ≡ read_whole (split_lines (stdout_text decode cs)) p
  unfolding split_lines
  consume_all-split_lines max_bytes cs p fits =
      heard-consume_all max_bytes cs (fresh p) refl (omega (arith, fits))
      ∙ ap (λ t. read_whole (split_lines t) p) (append.nil (stdout_text decode cs))
