-- ===== src/Consent.antt =====
-- The browser's consent flow, crates/aver-server/src/consent.rs, and its check of the origin,
-- crates/aver-server/src/origin.rs. A request is one step, at one reading of the clock, since the
-- handlers hold the lock on the database. A response is told by its status and its title, or by what
-- a redirect carries; the HTML is not modelled. The anti-CSRF key is an argument.
pub mod Origin
pub mod Session
pub mod Forms
pub mod Handlers
pub mod Guards
pub mod Approved
pub mod Covered
use aver.Prelude.{refl, ℕ, Bool, true, false, Option, none, some, List, String, ◌≡◌}
use aver.Auth.{Text, Crates, AuthDb}

-- The headers that are read; a value that is not text counts as absent, but for `Origin`.
pub record Headers : Type 0 where
  pub cookie : Option Text
  pub sec_fetch_site : Option Text
  -- absent, or its value, which may be no text
  pub origin : Option (Option Text)
  pub by_name : Text → Option Text

-- The library functions of the flow, beside those of the database.
pub record Web : Type 0 where
  pub crates : Crates
  -- HMAC-SHA256 of a message under a key, in URL-safe base64 without padding
  pub hmac_base64 : (key message : List ℕ) → Text
  -- `HeaderName::from_bytes`
  pub header_name : Text → Option Text

-- `ConsentDeps`, its database aside.
pub record Deps : Type 0 where
  pub base_url : Text
  pub trusted_auth_header : Option Text
  pub csrf_secret : List ℕ

-- A request: where it comes from, its headers, its clock, and the random ids drawn for it.
pub record Visit : Type 0 where
  pub is_loopback : Bool
  pub headers : Headers
  pub now : ℕ
  pub session_id : Text
  pub code : Text

pub data Response : Type 0 where
  html_error : (status : ℕ) (title : String) → Response
  html_message : (title : String) → Response
  consent_page : (csrf_token : Text) (set_cookie : Option Text) → Response
  redirect_code : (redirect_uri code : Text) (state set_cookie : Option Text) → Response
  redirect_error : (redirect_uri : Text) (error : String) (state : Option Text) → Response

-- A guard of a handler: goes on, or answers and leaves the database.
unfoldable pub check : Bool → Response → AuthDb → Response × AuthDb → Response × AuthDb
check true refusal db next = next
check false refusal db next = (refusal, db)

pub check-either :
    (P : Response × AuthDb → Type 0) (b : Bool) (refusal : Response) (db : AuthDb)
    (next : Response × AuthDb)
    → P (refusal, db)
    → (b ≡ true → P next)
    → P (check b refusal db next)
unfolding check
check-either P true refusal db next p q = q refl
check-either P false refusal db next p q = p
