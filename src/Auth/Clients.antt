-- ===== src/Auth/Clients.antt =====
-- auth.rs: the registration of clients and its queries.
use mathlib.Core.Option
use aver.Prelude.{
  ◌||◌, ℕ, Bool, true, false, Option, none, some, List, [], ◌∷◌, ◌==◌, insert, find, if◌then◌else◌,
  list_eq, ◌&&◌, nat_eq, ◌++◌,
}
use aver.Text.{codes, all_whitespace}
use aver.Auth.{
  Text, Url, Crates, AuthResult, done, failed, client_name_required, redirect_uri_required,
  redirect_uris_refused, malformed_json, constraint, RegisteredClient, ClientRow, AuthDb, ensure,
  is_some, not,
}

-- `host_str().is_some_and(|host| matches!(host, …))`
abbrev is_loopback : Option Text → Bool
is_loopback none = false
is_loopback (some host) =
    host == codes "localhost" || host == codes "127.0.0.1" || host == codes "::1"

abbrev scheme_allowed : Option Url → Bool
scheme_allowed none = false
scheme_allowed (some parsed) =
    if parsed.scheme == codes "https"
    then true
    else if parsed.scheme == codes "http"
    then is_loopback parsed.host_str
    else false

unfoldable pub redirect_uri_allowed : Crates → Text → Bool
redirect_uri_allowed crates uri = scheme_allowed (crates.parse_url uri)

-- `iter().all(|uri| redirect_uri_allowed(uri))`
unfoldable pub all_allowed : Crates → List Text → Bool
all_allowed crates [] = true
all_allowed crates (uri ∷ uris) = redirect_uri_allowed crates uri && all_allowed crates uris

abbrev pub is_empty : List Text → Bool
is_empty [] = true
is_empty (t ∷ ts) = false

abbrev pub aver_id : Text → Text
aver_id uuid = codes "aver-" ++ uuid

-- The insertion, once the redirect URIs are serialised.
abbrev pub insert_client :
    AuthDb → Text → Text → List Text → ℕ → Option Text → AuthResult RegisteredClient × AuthDb
insert_client db id name uris now none = (failed malformed_json, db)
insert_client db id name uris now (some json) =
    ensure (not (is_some (find id db.clients))) constraint db (
      done (record { client_id = id; client_name = name; redirect_uris = uris }),
      record db {
        clients =
            insert id (record { client_name = name; redirect_uris = json; created_at = now })
              db.clients;
      },
    )

unfoldable pub register_client :
    Crates
    → AuthDb
    → Text
    → List Text
    → (uuid : Text) (now : ℕ) → AuthResult RegisteredClient × AuthDb
unfolding all_whitespace all_allowed
register_client crates db name uris uuid now =
    ensure (not (all_whitespace name)) client_name_required db (
      ensure (not (is_empty uris)) redirect_uri_required db (
        ensure (all_allowed crates uris) redirect_uris_refused db
          (insert_client db (aver_id uuid) name uris now (crates.to_json uris))))

abbrev pub client_of : Text → Text → Option (List Text) → AuthResult (Option RegisteredClient)
client_of id name none = failed malformed_json
client_of id name (some uris) =
    done (some (record { client_id = id; client_name = name; redirect_uris = uris }))

abbrev pub client_from : Crates → Text → Option ClientRow → AuthResult (Option RegisteredClient)
client_from crates id none = done none
client_from crates id (some row) = client_of id row.client_name (crates.from_json row.redirect_uris)

unfoldable pub get_client : Crates → AuthDb → Text → AuthResult (Option RegisteredClient)
get_client crates db id = client_from crates id (find id db.clients)

unfoldable pub client_created_at : AuthDb → Text → Option ℕ
client_created_at db id = Option.map (λ row. row.created_at) (find id db.clients)

-- `iter().any(|uri| uri == redirect_uri)`
unfoldable pub lists_uri : Text → List Text → Bool
lists_uri uri [] = false
lists_uri uri (u ∷ us) = u == uri || lists_uri uri us

abbrev pub allows : Text → AuthResult (Option RegisteredClient) → AuthResult Bool
allows uri (failed e) = failed e
allows uri (done none) = done false
allows uri (done (some client)) = done (lists_uri uri client.redirect_uris)

unfoldable pub client_allows_redirect_uri : Crates → AuthDb → Text → Text → AuthResult Bool
unfolding lists_uri get_client
client_allows_redirect_uri crates db id uri = allows uri (get_client crates db id)
