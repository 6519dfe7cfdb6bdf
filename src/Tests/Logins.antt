-- ===== src/Tests/Logins.antt =====
-- Histories of logins and refreshes at concrete inputs.
use aver.Auth.Pkce.{as_bytes}
use aver.OauthScopes.{is_ascii_whitespace}
use aver.Text.Splitting.{Plain-any}
use aver.Auth.Words.{AllWords}
use aver.Prelude.{
  ◌==◌, insert, replace, list_eq, nat_eq, ◌<◌, ◌+◌, arith, ℕ, true, false, some, List, [], ◌∷◌, ◌≡◌,
  refl, find,
}
use aver.Text.{codes, any}
use aver.Auth.{revoke, ensure, is_live, TokenRow, done, AccessTokenGrant}
use aver.Auth.Calls.{stores_code, Call, run, perform, exchanges, refreshes}
use aver.Auth.Codes.{exchange_authorization_code_for_tokens, store_authorization_code}
use aver.Auth.Tokens.{refresh_access_token, access_token_grant}
use aver.Auth.Provenance.{Backed, run-Backed}
use aver.Auth.Rotation.{OneLive, perform-OneLive}
use aver.Auth.Lifetimes.{Timed, run-accepted}
use aver.Auth.Grants.{authorize-grant}
use aver.Auth.Refreshing.{refresh_iff, refresh-grant}
use aver.Auth.Effects.{Effect, perform-Effect}
use aver.Auth.Scopes.{encode_scopes, decode_scopes}
use aver.Auth.ConstantTime.{verify_pkce_s256_iff}
use aver.Tests.AuthFixtures.{
  host, first_refresh, empty_db, coded_db, live_db, stolen_db, pair, next_pair, pkce_holds,
}

nothing-Backed : Backed empty_db
unfolding find
nothing-Backed = (λ hash row h. cc h, λ hash row h. cc h)

abbrev login : List Call
login =
    stores_code (codes "app") (codes "ann") (codes "hv") (codes "https://app")
      (codes "claims:read" ∷ []) (codes "k") 100
    ∷ exchanges (codes "k") (codes "app") (codes "v") (codes "https://app") 200 201 (codes "f") pair
    ∷ refreshes (codes "r") 300 301 next_pair
    ∷ []

run-Backed_example : Backed (run host empty_db login)
run-Backed_example = run-Backed host empty_db login nothing-Backed

none_live : OneLive coded_db
unfolding find
none_live family i j (row, h, f, l) other = cc h

perform-OneLive_example : OneLive (
    perform host coded_db (
      exchanges
        (codes "k")
        (codes "app")
        (codes "v")
        (codes "https://app")
        200
        201
        (codes "f")
        pair))
unfolding find
perform-OneLive_example =
    perform-OneLive host coded_db
      (exchanges (codes "k") (codes "app") (codes "v") (codes "https://app") 200 201 (codes "f")
        pair)
      (λ hash (row, h, f, l). cc h) none_live

nothing-Timed : Timed empty_db
unfolding find
nothing-Timed = (λ hash row h. cc h, λ hash row h. cc h)

accepted :
    access_token_grant (run host empty_db login) (codes "hb") 400
    ≡ some (record {
      user_id = codes "ann";
      client_id = some (codes "app");
      granted_scopes = codes "claims:read";
    })
unfolding access_token_grant run ensure store_authorization_code
    exchange_authorization_code_for_tokens refresh_access_token find insert replace encode_scopes
accepted = refl

run-accepted_example :
    (row : TokenRow) × (find (codes "hb") (run host empty_db login).access_tokens ≡ some row)
    × (is_live row ≡ true)
    × (400 < row.created_at + 3600)
run-accepted_example =
    run-accepted host empty_db login nothing-Timed (codes "hb") 400
      (record {
        user_id = codes "ann";
        client_id = some (codes "app");
        granted_scopes = codes "claims:read";
      })
      accepted

refreshed : (refresh_access_token host live_db (codes "r") 300 301 next_pair).0 ≡ done next_pair
unfolding find
refreshed =
    (refresh_iff host live_db (codes "r") 300 301 next_pair).0
      (first_refresh, refl, (refl, omega arith))

refresh-grant_example :
    (next_pair ≡ next_pair)
    × (row : TokenRow) × (find (codes "hr") live_db.refresh_tokens ≡ some row)
    × ((time : ℕ)
        → time < 3901
        → (grant : AccessTokenGrant) × (access_token_grant
              (refresh_access_token host live_db (codes "r") 300 301 next_pair).1
              (codes "hb")
              time
            ≡ some grant)
          × (grant.user_id ≡ row.user_id)
          × (grant.client_id ≡ row.client_id)
          × (decode_scopes grant.granted_scopes ≡ decode_scopes row.granted_scopes))
    × (((codes "hs" == codes "hr") ≡ false)
        → find
            (codes "hr")
            (refresh_access_token host live_db (codes "r") 300 301 next_pair).1.refresh_tokens
          ≡ some (revoke 300 row))
refresh-grant_example = refresh-grant host live_db (codes "r") 300 301 next_pair next_pair refreshed

two_words : AllWords (codes "claims:read" ∷ codes "claims:write" ∷ [])
unfolding any
two_words = (
  ((λ e. ground (arith, e), Plain-any is_ascii_whitespace (codes "claims:read") refl)),
  ((λ e. ground (arith, e), Plain-any is_ascii_whitespace (codes "claims:write") refl), tt),
)

authorize-grant_example :
    ((exchange_authorization_code_for_tokens host
        (store_authorization_code empty_db
          (codes "app")
          (codes "ann")
          (codes "hv")
          (codes "https://app")
          (codes "claims:read" ∷ codes "claims:write" ∷ [])
          (codes "k")
          100).1
        (codes "k")
        (codes "app")
        (codes "v")
        (codes "https://app")
        200
        201
        (codes "f")
        pair).0
      ≡ done pair)
    × (grant : AccessTokenGrant) × (access_token_grant
          (exchange_authorization_code_for_tokens host
            (store_authorization_code empty_db
              (codes "app")
              (codes "ann")
              (codes "hv")
              (codes "https://app")
              (codes "claims:read" ∷ codes "claims:write" ∷ [])
              (codes "k")
              100).1
            (codes "k")
            (codes "app")
            (codes "v")
            (codes "https://app")
            200
            201
            (codes "f")
            pair).1
          (codes "ha")
          3800
        ≡ some grant)
    × (grant.user_id ≡ codes "ann")
    × (grant.client_id ≡ some (codes "app"))
    × (decode_scopes grant.granted_scopes ≡ codes "claims:read" ∷ codes "claims:write" ∷ [])
unfolding find
authorize-grant_example =
    authorize-grant host empty_db (codes "app") (codes "ann") (codes "hv") (codes "https://app")
      (codes "v") (codes "k") (codes "claims:read" ∷ codes "claims:write" ∷ []) 100 200 201 3800
      (codes "f") pair refl two_words pkce_holds (omega arith) (omega arith)

perform-Effect_example :
    Effect host stolen_db
      (perform host stolen_db (refreshes (codes "r") 200 201 next_pair))
      (refreshes (codes "r") 200 201 next_pair)
perform-Effect_example = perform-Effect host stolen_db (refreshes (codes "r") 200 201 next_pair)

verify_pkce_s256_iff_example : as_bytes (codes "hv") ≡ as_bytes (codes "hv")
verify_pkce_s256_iff_example = (verify_pkce_s256_iff host (codes "v") (codes "hv")).0 pkce_holds
