-- ===== src/Consent/Forms.antt =====
-- consent.rs: the query and the forms, and the scopes that a form selects.
use aver.Prelude.{
  Bool, true, false, Option, none, some, List, [], ◌∷◌, ◌++◌, ◌==◌, ◌&&◌, nat_beq, list_eq,
  if◌then◌else◌, nat_eq, ◌||◌,
}
use aver.Text.{codes}
use aver.Auth.{Text}
use aver.Auth.Scopes.{encode_scopes}
use aver.OauthScopes.{
  Scope, supported, as_str, Parsed, parsed, unknown, parse_scope_list, split_ascii_whitespace,
}

pub record AuthorizeQuery : Type 0 where
  pub response_type : Text
  pub client_id : Text
  pub redirect_uri : Text
  pub code_challenge : Text
  pub code_challenge_method : Text
  pub scope : Option Text
  pub state : Option Text

pub record DecisionForm : Type 0 where
  pub client_id : Text
  pub redirect_uri : Text
  pub code_challenge : Text
  pub code_challenge_method : Text
  pub scope : Option Text
  pub state : Option Text
  pub csrf_token : Text
  pub decision : Text
  pub scope_selection_present : Option Text
  pub extra_fields : Text → Option Text

abbrev pub unwrap_or_empty : Option Text → Text
unwrap_or_empty none = []
unwrap_or_empty (some s) = s

unfoldable pub parse_scope : Option Text → List Text
unfolding split_ascii_whitespace
parse_scope raw = split_ascii_whitespace (unwrap_or_empty raw)

-- `scope.replace(':', "_")`
abbrev underscored : Text → Text
underscored [] = []
underscored (c ∷ s) = (if nat_beq c b':' then b'_' else c) ∷ underscored s

unfoldable pub scope_checkbox_field : Text → Text
scope_checkbox_field scope = codes "grant_" ++ underscored scope

-- The box of a scope is checked when its field holds the scope.
abbrev pub is_checked : Option Text → Text → Bool
is_checked none scope = false
is_checked (some value) scope = value == scope

-- The names of the scopes that are checked, in the order of the catalogue.
unfoldable pub checked_scopes : (Text → Option Text) → List Scope → List Text
unfolding as_str scope_checkbox_field
checked_scopes fields [] = []
checked_scopes fields (s ∷ rest) =
    let others = checked_scopes fields rest in
    if is_checked (fields (scope_checkbox_field (as_str s))) (as_str s)
    then as_str s ∷ others
    else others

abbrev names_of : List Scope → List Text
names_of [] = []
names_of (s ∷ rest) = as_str s ∷ names_of rest

abbrev pub named : Parsed (List Scope) → Parsed (List Text)
named (parsed scopes) = parsed (names_of scopes)
named (unknown w) = unknown w

-- The list that a form asks for, before it is parsed.
abbrev pub raw_scopes : DecisionForm → Option Text → Text
raw_scopes form none = unwrap_or_empty form.scope
raw_scopes form (some present) = encode_scopes (checked_scopes form.extra_fields supported)

unfoldable pub selected_scopes_from_form : DecisionForm → Parsed (List Text)
unfolding encode_scopes checked_scopes parse_scope_list as_str
selected_scopes_from_form form =
    named (parse_scope_list (raw_scopes form form.scope_selection_present))

-- `granted.iter().any(|g| g == r)`
unfoldable pub has_scope : List Text → Text → Bool
has_scope [] r = false
has_scope (g ∷ granted) r = g == r || has_scope granted r

unfoldable pub consent_covers : (granted requested : List Text) → Bool
unfolding has_scope
consent_covers granted [] = true
consent_covers granted (r ∷ requested) = has_scope granted r && consent_covers granted requested
