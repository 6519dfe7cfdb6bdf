-- ===== src/Tests/Tokens.antt =====
-- The codes and the withdrawal of tokens at concrete inputs.
use aver.Prelude.{insert, replace, list_eq, nat_eq, arith, some, List, [], ◌∷◌, ◌≡◌, refl, find}
use aver.Text.{codes}
use aver.Auth.{ensure, done, failed, code_already_used}
use aver.Auth.Calls.{Call, run, exchanges, refreshes, revokes, consents, touches}
use aver.Auth.Codes.{exchange_authorization_code_for_tokens}
use aver.Auth.Tokens.{access_token_grant}
use aver.Auth.SingleUse.{exchange_once}
use aver.Auth.Revocation.{
  NoneHonoured, OfFamily, OfConsent, reuse-NoneHonoured, revoke_consent-NoneHonoured,
}
use aver.Auth.Scopes.{encode_scopes}
use aver.Auth.Consents.{revoke_consent}
use aver.Tests.AuthFixtures.{host, rotated_refresh, coded_db, live_db, stolen_db, pair, next_pair}

exchanged :
    (exchange_authorization_code_for_tokens host coded_db
      (codes "k")
      (codes "app")
      (codes "v")
      (codes "https://app")
      200
      201
      (codes "f")
      pair).0
    ≡ done pair
unfolding exchange_authorization_code_for_tokens ensure find
exchanged = refl

exchange_once_example :
    (exchange_authorization_code_for_tokens host
      (run host coded_db (
        exchanges
          (codes "k")
          (codes "app")
          (codes "v")
          (codes "https://app")
          200
          201
          (codes "f")
          pair
        ∷ consents (codes "ann") (codes "app") [] 202
        ∷ []))
      (codes "k")
      (codes "app")
      (codes "v")
      (codes "https://app")
      210
      211
      (codes "g")
      next_pair).0
    ≡ failed code_already_used
exchange_once_example =
    exchange_once host coded_db (codes "k") (codes "app") (codes "v") (codes "https://app") 200 201
      (codes "f") pair pair exchanged (consents (codes "ann") (codes "app") [] 202 ∷ [])
      (codes "app") (codes "v") (codes "https://app") 210 211 (codes "g") next_pair

abbrev after_theft : List Call
after_theft =
    exchanges (codes "k") (codes "app") (codes "v") (codes "https://app") 210 211 (codes "g")
      next_pair
    ∷ []

reuse-NoneHonoured_example :
    NoneHonoured
      (OfFamily (codes "f"))
      host
      (run host stolen_db (refreshes (codes "r") 200 201 next_pair ∷ after_theft))
unfolding find
reuse-NoneHonoured_example =
    reuse-NoneHonoured host stolen_db (codes "r") 200 201 next_pair rotated_refresh refl refl
      after_theft (λ user h. ground (arith, h), tt)

revoke_consent-NoneHonoured_example : NoneHonoured (OfConsent (codes "ann") (codes "app")) host (
    run host live_db
      (revokes (codes "ann") (codes "app") 200 ∷ touches (codes "ann") (codes "app") 201 ∷ []))
revoke_consent-NoneHonoured_example =
    revoke_consent-NoneHonoured host live_db (codes "ann") (codes "app") 200
      (touches (codes "ann") (codes "app") 201 ∷ []) (tt, tt)

-- A code that was stored before the consent was revoked still gives a live token after it.
revoked_but_exchanged :
    access_token_grant
      (run host coded_db (
        revokes (codes "ann") (codes "app") 150
        ∷ exchanges
            (codes "k")
            (codes "app")
            (codes "v")
            (codes "https://app")
            200
            201
            (codes "f")
            pair
        ∷ []))
      (codes "ha")
      300
    ≡ some (record {
      user_id = codes "ann";
      client_id = some (codes "app");
      granted_scopes = codes "claims:read claims:write";
    })
unfolding access_token_grant run ensure exchange_authorization_code_for_tokens find insert replace
    encode_scopes revoke_consent
revoked_but_exchanged = refl
