-- ===== src/Tests/AuthFixtures.antt =====
-- A small authorization database, and the library functions that it is run with.
use aver.Auth.Pkce.{verify_pkce_s256}
use aver.Prelude.{list_eq, nat_eq, arith, true, Option, none, some, List, [], ◌∷◌, ◌≡◌, refl}
use aver.Text.{codes}
use aver.Auth.{Text, Crates, TokenPair, TokenRow, CodeRow, AuthDb}

-- `serde_json`, on lists of one text.
abbrev pub one_json : List Text → Option Text
one_json (u ∷ []) = some u
one_json _ = none

abbrev pub host : Crates
host = record {
  sha256_base64 = λ t. 104 ∷ t;
  parse_url = λ t. some (record { scheme = codes "https"; host_str = none; port = some 443 });
  to_json = one_json;
  from_json = λ t. some (t ∷ []);
  foreign_keys = true;
}

pub one_json-trip : (us : List Text) (t : Text) → one_json us ≡ some t → some (t ∷ []) ≡ some us
one_json-trip [] t h = cc h
one_json-trip (u ∷ []) t h = ground (arith, h)
one_json-trip (u ∷ v ∷ us) t h = cc h

abbrev pub new_code : CodeRow
new_code = record {
  client_id = codes "app";
  user_id = codes "ann";
  code_challenge = codes "hv";
  redirect_uri = codes "https://app";
  used_at = none;
  expires_at = 700;
  created_at = 100;
  granted_scopes = codes "claims:read claims:write";
}

abbrev pub first_refresh : TokenRow
first_refresh = record {
  user_id = codes "ann";
  client_id = some (codes "app");
  family_id = codes "f";
  created_at = 100;
  expires_at = 2592100;
  revoked_at = none;
  granted_scopes = codes "claims:read";
}

abbrev pub rotated_refresh : TokenRow
rotated_refresh = record first_refresh { revoked_at = some 150 }

abbrev pub spent_code : CodeRow
spent_code = record new_code { used_at = some 100; granted_scopes = codes "claims:read" }

abbrev pub empty_db : AuthDb
empty_db = record {
  clients = [];
  codes = [];
  access_tokens = [];
  refresh_tokens = [];
  users = [];
  consents = [];
  sessions = [];
}

abbrev pub coded_db : AuthDb
coded_db = record empty_db { codes = (codes "k", new_code) ∷ [] }

abbrev pub issued_db : AuthDb
issued_db = record empty_db {
  codes = (codes "j", spent_code) ∷ [];
  refresh_tokens = (codes "hr", first_refresh) ∷ [];
}

abbrev pub access_row : TokenRow
access_row = record first_refresh { expires_at = 3700 }

abbrev pub live_db : AuthDb
live_db = record issued_db { access_tokens = (codes "ha", access_row) ∷ [] }

abbrev pub stolen_db : AuthDb
stolen_db = record live_db { refresh_tokens = (codes "hr", rotated_refresh) ∷ [] }

abbrev pub pair : TokenPair
pair = record { access_token = codes "a"; refresh_token = codes "r" }

abbrev pub next_pair : TokenPair
next_pair = record { access_token = codes "b"; refresh_token = codes "s" }

pub pkce_holds : verify_pkce_s256 host (codes "v") (codes "hv") ≡ true
unfolding verify_pkce_s256
pkce_holds = refl
