-- ===== src/Scope.antt =====
-- The scope of a connection, crates/aver-server/src/scope_resolution.rs. An error is the level
-- that it names and the check that failed. The per-character tests are as in Validation.
pub mod Resolved
use aver.Prelude.{
  ℕ, Bool, true, false, Option, none, some, List, [], ◌∷◌, ltb, nat_beq, not, if◌then◌else◌,
}
use aver.Text.{codes, all_whitespace, all_chars, byte_len, text_beq, split, any}
use aver.Validation.{is_scope_char}

pub data ScopeWalk : Type 0 where
  any_scope ancestors : ScopeWalk

pub record ResolvedScope : Type 0 where
  pub scope : List ℕ
  pub default_walk : ScopeWalk

-- Where a value was set.
pub data Source : Type 0 where
  param_scope header_scope header_default env_default : Source

pub data Fault : Type 0 where
  blank too_long invalid_characters empty_segment : Fault

-- `anyhow::Result<ResolvedScope>`
pub data Resolution : Type 0 where
  resolved : ResolvedScope → Resolution
  failed : Source → Fault → Resolution

abbrev is_slash : ℕ → Bool
is_slash c = nat_beq c b'/'

abbrev is_empty : List ℕ → Bool
is_empty [] = true
is_empty (c ∷ cs) = false

-- `MAX_SCOPE_LEN`
abbrev pub max_scope_len : ℕ
max_scope_len = 256

unfoldable pub has_empty_segment : List ℕ → Bool
unfolding split any
has_empty_segment scope = any is_empty (split is_slash scope)

-- `validate`, `none` for `Ok(())`.
unfoldable pub validate : List ℕ → Option Fault
unfolding all_whitespace byte_len all_chars has_empty_segment
validate scope =
    if all_whitespace scope
    then some blank
    else if ltb max_scope_len (byte_len scope)
    then some too_long
    else if not (all_chars is_scope_char scope)
    then some invalid_characters
    else if has_empty_segment scope
    then some empty_segment
    else none

abbrev pub walk_of : List ℕ → ScopeWalk
walk_of scope = if text_beq scope (codes "global") then any_scope else ancestors

abbrev pub finish : List ℕ → Resolution
finish scope = resolved (record { scope = scope; default_walk = walk_of scope })

-- The level that is set: its value has to be valid.
abbrev pub settle : Source → List ℕ → Option Fault → Resolution
settle source s none = finish s
settle source s (some fault) = failed source fault

-- `filter(|v| !v.trim().is_empty())`
abbrev pub set : Option (List ℕ) → Option (List ℕ)
set none = none
set (some v) = if all_whitespace v then none else some v

-- One level of `pick`, over what the lower levels give.
abbrev pub level : Source → Option (List ℕ) → Resolution → Resolution
level source none below = below
level source (some s) below = settle source s (validate s)

unfoldable pub resolve_scope : (param header default' env : Option (List ℕ)) → Resolution
unfolding validate all_whitespace text_beq
resolve_scope param header default' env = level param_scope (set param) (
    level header_scope (set header)
      (level header_default (set default') (level env_default (set env) (finish (codes "global")))))
