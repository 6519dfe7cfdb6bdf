-- ===== src/Consent/Session.antt =====
-- consent.rs: who makes a request, its browser session, and the anti-CSRF token.
use aver.Prelude.{
  ℕ, Bool, true, false, Option, none, some, List, [], ◌∷◌, ◌++◌, ◌==◌, nat_beq, if◌then◌else◌,
  list_eq, nat_eq,
}
use aver.Text.{codes, split, trim}
use aver.Auth.{Text, AuthDb, AuthResult, done, failed}
use aver.Auth.Users.{User, local, header, upsert_user, get_user}
use aver.Auth.Sessions.{Session, create_session, get_session}
use aver.Auth.Pkce.{as_bytes, constant_time_eq}
use aver.Auth.Endpoint.{is_empty_text}
use aver.Consent.{Headers, Web, Visit}

abbrev pub session_ttl_secs : ℕ
session_ttl_secs = 86400

-- The user of an upsert is read back.
abbrev pub after_upsert : Text → AuthResult Unit × AuthDb → AuthResult (Option User) × AuthDb
after_upsert id (failed e, db) = (failed e, db)
after_upsert id (done u, db) = (get_user db id, db)

abbrev pub first_piece : List Text → Text
first_piece [] = []
first_piece (w ∷ ws) = w

abbrev unless_empty : Text → Option Text
unless_empty s = if is_empty_text s then none else some s

-- The user that a trusted header's value names.
abbrev pub named_user : Option Text → Option Text
named_user none = none
named_user (some raw) =
    if is_empty_text (trim raw)
    then none
    else unless_empty (trim (first_piece (split (nat_beq b',') (trim raw))))

abbrev pub by_header : (Text → Option Text) → Option Text → Option Text
by_header by_name none = none
by_header by_name (some name) = named_user (by_name name)

abbrev pub trusted_name : Web → Option Text → Option Text
trusted_name w none = none
trusted_name w (some name) = w.header_name (trim name)

abbrev pub upserts_named : AuthDb → ℕ → Option Text → AuthResult (Option User) × AuthDb
upserts_named db now none = (done none, db)
upserts_named db now (some id) =
    after_upsert id
      (upsert_user db (record { id = id; kind = header; external_id = none; created_at = now }))

unfoldable pub authenticate_request :
    Web → AuthDb → Visit → (trusted_auth_header : Option Text) → AuthResult (Option User) × AuthDb
unfolding upsert_user get_user trim split
authenticate_request w db visit trusted =
    if visit.is_loopback
    then after_upsert (codes "local") (
        upsert_user db
          (record { id = codes "local"; kind = local; external_id = none; created_at = visit.now }))
    else upserts_named db visit.now (by_header visit.headers.by_name (trusted_name w trusted))

abbrev prepend : ℕ → Option (Text × Text) → Option (Text × Text)
prepend c none = none
prepend c (some (k, v)) = some (c ∷ k, v)

-- `str::split_once('=')`
abbrev pub split_once : Text → Option (Text × Text)
split_once [] = none
split_once (c ∷ s) =
    let rest = split_once s in if nat_beq c b'=' then some ([], s) else prepend c rest

abbrev pub named_value : Text → Option (Text × Text) → Option Text → Option Text
named_value name none rest = rest
named_value name (some (k, v)) rest = if k == name then some v else rest

-- The first pair of the cookie header with the name.
unfoldable pub cookie_in : Text → List Text → Option Text
unfolding trim
cookie_in name [] = none
cookie_in name (pair ∷ pairs) =
    let rest = cookie_in name pairs in named_value name (split_once (trim pair)) rest

abbrev pub cookie_from : Text → Option Text → Option Text
cookie_from name none = none
cookie_from name (some raw) = cookie_in name (split (nat_beq b';') raw)

unfoldable pub read_cookie : Headers → Text → Option Text
unfolding split cookie_in
read_cookie headers name = cookie_from name headers.cookie

abbrev pub found_user : Session → AuthResult (Option User) → Option (Session × User)
found_user session (failed e) = none
found_user session (done none) = none
found_user session (done (some user)) = some (session, user)

abbrev pub session_user : AuthDb → Option Session → Option (Session × User)
session_user db none = none
session_user db (some session) = found_user session (get_user db session.user_id)

abbrev pub session_of : AuthDb → ℕ → Option Text → Option (Session × User)
session_of db now none = none
session_of db now (some id) = session_user db (get_session db id now)

unfoldable pub current_session : Headers → AuthDb → (now : ℕ) → Option (Session × User)
unfolding read_cookie get_session get_user
current_session headers db now = session_of db now (read_cookie headers (codes "aver_session"))

abbrev pub made_session : AuthResult Session × AuthDb → AuthResult (Session × Bool) × AuthDb
made_session (failed e, db) = (failed e, db)
made_session (done session, db) = (done (session, true), db)

abbrev pub session_for :
    Web → AuthDb → Visit → Text → Option (Session × User) → AuthResult (Session × Bool) × AuthDb
session_for w db visit user_id none =
    made_session (create_session w.crates db user_id session_ttl_secs visit.session_id visit.now)
session_for w db visit user_id (some (session, user)) =
    if user.id == user_id
    then (done (session, false), db)
    else made_session
        (create_session w.crates db user_id session_ttl_secs visit.session_id visit.now)

unfoldable pub ensure_session :
    Web → AuthDb → Visit → (user_id : Text) → AuthResult (Session × Bool) × AuthDb
unfolding current_session create_session
ensure_session w db visit user_id =
    session_for w db visit user_id (current_session visit.headers db visit.now)

unfoldable pub compute_csrf_token : Web → (secret : List ℕ) (session client challenge : Text) → Text
unfolding as_bytes
compute_csrf_token w secret session client challenge =
    w.hmac_base64 secret (as_bytes session ++ b'|' ∷ (as_bytes client ++ b'|' ∷ as_bytes challenge))

unfoldable pub verify_csrf_token :
    Web → (secret : List ℕ) (session client challenge presented : Text) → Bool
unfolding compute_csrf_token constant_time_eq as_bytes
verify_csrf_token w secret session client challenge presented =
    constant_time_eq (as_bytes (compute_csrf_token w secret session client challenge))
      (as_bytes presented)
