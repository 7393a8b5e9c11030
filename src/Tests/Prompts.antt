-- ===== src/Tests/Prompts.antt =====
-- Examples of what a prompt gives a run.
use tik_tok_jam.Base.{◌≡◌, refl, true, false, ◌||◌, some, includes, ◌==◌, Eq-String}
use tik_tok_jam.Types.Enums.{Scope, GrantAction}
use tik_tok_jam.Types.Equality.{Eq-Scope}
use tik_tok_jam.Store.{effective_scopes, live_temp_scopes}
use tik_tok_jam.Service.Mint.{mint_token, mint_scp}
use tik_tok_jam.Ark.Estimator.{keyword_scopes, rule, utf16}
use tik_tok_jam.Ark.Intent.{parse_with_grammar}
use tik_tok_jam.Ark.Phrases.{Things, parse_with_grammar-phrase}
use tik_tok_jam.Ark.Quiet.{handle_call-quiet}
use tik_tok_jam.Gateway.Context.{Ctx, ctx_of}
use tik_tok_jam.Gateway.Tools.{handle_call, webhook_send}
use tik_tok_jam.Ark.Least.{mint_token-keyword_scopes}
use tik_tok_jam.Service.Requests.{GrantIntent}
use tik_tok_jam.Tests.Scene.{reader, database, world, deps, claims}

-- The reader holds the webhook's scope, and this prompt asks for it.
asked_for :
    includes
      (mint_token reader (keyword_scopes "Notify Jean.") 60 5 "j2" "r2" database).scp
      Scope.webhook_send
    ≡ true
unfolding mint_token mint_scp keyword_scopes effective_scopes
asked_for = refl

mint_token-keyword_scopes_example :
    (rule Scope.webhook_send (utf16 "Notify Jean.")
      || Scope.webhook_send == Scope.workspace_read
      || includes (live_temp_scopes reader 5) Scope.webhook_send)
    ≡ true
mint_token-keyword_scopes_example =
    mint_token-keyword_scopes reader "Notify Jean." 60 5 "j2" "r2" database Scope.webhook_send
      asked_for

abbrev sharing : GrantIntent
sharing = record { to_agent = "Researcher"; from_agent = "Writer-2"; action = GrantAction.write }

parse_with_grammar-phrase_example :
    parse_with_grammar "let Researcher write Writer-2's notes" ≡ some sharing
parse_with_grammar-phrase_example =
    parse_with_grammar-phrase sharing Things.notes (refl, refl) (refl, refl)

-- A run that was asked for a summary.
abbrev summary_ctx : Ctx
summary_ctx =
    ctx_of claims (mint_token reader (keyword_scopes "Summarise the plan.") 60 5 "j2" "r2" database)

no_sending : rule Scope.webhook_send (utf16 "Summarise the plan.") ≡ false
unfolding rule utf16
no_sending = refl

no_logging : rule Scope.crm_write (utf16 "Summarise the plan.") ≡ false
unfolding rule utf16
no_logging = refl

handle_call-quiet_example :
    (handle_call deps summary_ctx (webhook_send "https://x" "the plan") world).1.sent ≡ world.sent
handle_call-quiet_example =
    handle_call-quiet reader "Summarise the plan." 60 5 "j2" "r2" database deps summary_ctx
      (webhook_send "https://x" "the plan") world refl refl no_sending no_logging refl refl
