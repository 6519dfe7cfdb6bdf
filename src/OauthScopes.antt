-- ===== src/OauthScopes.antt =====
-- The catalogue of OAuth scopes, crates/aver-server/src/scopes.rs. Texts are lists of code points.
pub mod RoundTrip
use aver.Prelude.{ℕ, String, Bool, true, false, List, [], ◌∷◌, ◌++◌, ◌||◌, nat_beq, if◌then◌else◌}
use aver.Text.{codes, text_beq, split}

pub data Scope : Type 0 where
  claims_read claims_write events_write candidates_manage observations_read observations_write :
      Scope

-- `SUPPORTED`
abbrev pub supported : List Scope
supported =
    claims_read ∷ claims_write ∷ events_write ∷ candidates_manage ∷ observations_read
    ∷ observations_write ∷ []

abbrev scope_name : Scope → String
scope_name claims_read = "claims:read"
scope_name claims_write = "claims:write"
scope_name events_write = "events:write"
scope_name candidates_manage = "candidates:manage"
scope_name observations_read = "observations:read"
scope_name observations_write = "observations:write"

-- `Scope::as_str`
unfoldable pub as_str : Scope → List ℕ
as_str s = codes (scope_name s)

-- `Result<_, ScopeParseError>`, the error with its `raw`.
pub data Parsed (A : Type 0) : Type 0 where
  parsed : A → Parsed A
  unknown : List ℕ → Parsed A

-- `Scope::from_str`
unfoldable pub from_str : List ℕ → Parsed Scope
unfolding text_beq
from_str s =
    if text_beq s (codes "claims:read")
    then parsed claims_read
    else if text_beq s (codes "claims:write")
    then parsed claims_write
    else if text_beq s (codes "events:write")
    then parsed events_write
    else if text_beq s (codes "candidates:manage")
    then parsed candidates_manage
    else if text_beq s (codes "observations:read")
    then parsed observations_read
    else if text_beq s (codes "observations:write")
    then parsed observations_write
    else unknown s

abbrev pub is_ascii_whitespace : ℕ → Bool
is_ascii_whitespace c = nat_beq c 32 || nat_beq c 9 || nat_beq c 10 || nat_beq c 12 || nat_beq c 13

unfoldable pub non_empty : List (List ℕ) → List (List ℕ)
non_empty [] = []
non_empty ([] ∷ ws) = non_empty ws
non_empty ((c ∷ w) ∷ ws) = (c ∷ w) ∷ non_empty ws

-- `str::split_ascii_whitespace`
unfoldable pub split_ascii_whitespace : List ℕ → List (List ℕ)
unfolding split non_empty
split_ascii_whitespace s = non_empty (split is_ascii_whitespace s)

-- `?`
abbrev pub and_then : Parsed Scope → (Scope → Parsed (List Scope)) → Parsed (List Scope)
and_then (parsed s) f = f s
and_then (unknown w) f = unknown w

-- The loop of `parse_scope_list`, `out` so far.
unfoldable pub parse_words : List Scope → List (List ℕ) → Parsed (List Scope)
unfolding from_str
parse_words out [] = parsed out
parse_words out (raw ∷ rest) = and_then (from_str raw) (λ s. parse_words (out ++ s ∷ []) rest)

unfoldable pub parse_scope_list : List ℕ → Parsed (List Scope)
unfolding parse_words split_ascii_whitespace
parse_scope_list s = parse_words [] (split_ascii_whitespace s)

-- `filter_map(|raw| Scope::from_str(raw).ok())`
abbrev pub keep : Parsed Scope → List Scope → List Scope
keep (parsed s) rest = s ∷ rest
keep (unknown w) rest = rest

unfoldable pub keep_known : List (List ℕ) → List Scope
unfolding from_str
keep_known [] = []
keep_known (raw ∷ rest) = keep (from_str raw) (keep_known rest)

unfoldable pub parse_scope_list_lossy : List ℕ → List Scope
unfolding keep_known split_ascii_whitespace
parse_scope_list_lossy s = keep_known (split_ascii_whitespace s)

abbrev pub scope_index : Scope → ℕ
scope_index claims_read = 0
scope_index claims_write = 1
scope_index events_write = 2
scope_index candidates_manage = 3
scope_index observations_read = 4
scope_index observations_write = 5

-- `scopes.iter().any(|x| x == s)`
unfoldable pub holds : List Scope → Scope → Bool
holds [] s = false
holds (x ∷ xs) s = nat_beq (scope_index x) (scope_index s) || holds xs s

-- A space where `out` is not empty, and then the scope.
abbrev push_scope : List ℕ → List ℕ → List ℕ
push_scope [] w = w
push_scope (c ∷ out) w = (c ∷ out) ++ 32 ∷ w

-- The loop of `serialize_scope_list` over the supported scopes that are left.
unfoldable pub serialize_from : List Scope → List Scope → List ℕ → List ℕ
unfolding holds as_str
serialize_from scopes [] out = out
serialize_from scopes (s ∷ rest) out =
    serialize_from scopes rest (if holds scopes s then push_scope out (as_str s) else out)

unfoldable pub serialize_scope_list : List Scope → List ℕ
unfolding serialize_from
serialize_scope_list scopes = serialize_from scopes supported []
