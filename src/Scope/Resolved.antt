-- ===== src/Scope/Resolved.antt =====
-- What `resolve_scope` returns, in terms of the levels that are set.
use aver.Scope.{
  empty_segment, Source, ScopeWalk, any_scope, ResolvedScope, Resolution, resolved, failed, Fault,
  param_scope, header_scope, header_default, env_default, validate, resolve_scope, level, settle,
  set, finish, walk_of, has_empty_segment, max_scope_len,
}
use aver.Prelude.{
  not, if◌then◌else◌, ℕ, Bool, true, false, Option, none, some, List, ◌≡◌, refl, ltb, arith, ◌↔◌,
}
use mathlib.Core.Path.{subst}
use aver.Text.{codes, all_whitespace, all_chars, byte_len}
use aver.Text.Splitting.{text_beq_iff}
use aver.Validation.{is_scope_char, validate_scope, accepted}

-- Not blank, at most 256 bytes, of the allowed characters, and without an empty path segment.
abbrev pub IsScope : List ℕ → Type 0
IsScope s =
    (all_whitespace s ≡ false)
    × (ltb max_scope_len (byte_len s) ≡ false)
    × (all_chars is_scope_char s ≡ true)
    × (has_empty_segment s ≡ false)

if_none :
    (b : Bool) (f : Fault) (v : Option Fault)
    → (if b then some f else v) ≡ none
    → (b ≡ false) × (v ≡ none)
if_none true f v h = ground arith
if_none false f v h = (refl, h)

IsScope-validate : (s : List ℕ) → validate s ≡ none → IsScope s
unfolding validate
IsScope-validate s h =
    let blank = if_none _ _ _ h in
    let len = if_none _ _ _ blank.1 in
    let chars = if_none (not (all_chars is_scope_char s)) _ _ len.1 in
    let segments = if_none _ empty_segment none chars.1 in
    (blank.0, len.0, ground (arith, chars.0), segments.0)

abbrev WalksAs : List ℕ → ScopeWalk → Type 0
WalksAs s w = (w ≡ any_scope) ↔ (s ≡ codes "global")

walk_of_lem : (s : List ℕ) → WalksAs s (walk_of s)
walk_of_lem s = ground (arith, text_beq_iff s (codes "global"))

abbrev Good : Resolution → Type 0
Good (resolved r) = IsScope r.scope × WalksAs r.scope r.default_walk
Good (failed source fault) = Unit

settle-Good :
    (source : Source) (s : List ℕ) (v : Option Fault) → validate s ≡ v → Good (settle source s v)
settle-Good source s none h = (IsScope-validate s h, walk_of_lem s)
settle-Good source s (some f) h = tt

level-Good :
    (source : Source) (v : Option (List ℕ)) (below : Resolution)
    → Good below
    → Good (level source v below)
level-Good source none below g = g
level-Good source (some s) below g = settle-Good source s (validate s) refl

global-Good : Good (finish (codes "global"))
unfolding has_empty_segment all_whitespace byte_len all_chars
global-Good = ((refl, refl, refl, refl), walk_of_lem (codes "global"))

resolve_scope-Good :
    (param header default' env : Option (List ℕ)) → Good (resolve_scope param header default' env)
unfolding resolve_scope
resolve_scope-Good param header default' env = level-Good param_scope (set param) _ (
    level-Good header_scope (set header) _
      (level-Good header_default (set default') _ (level-Good env_default (set env) _ global-Good)))

-- A resolved scope is not blank, has at most 256 bytes, only allowed characters and no empty
-- segment, `validate_scope` of the core accepts it, and its walk is `Any` exactly for `global`.
pub resolve_scope-IsScope :
    (param header default' env : Option (List ℕ)) (r : ResolvedScope)
    → resolve_scope param header default' env ≡ resolved r
    → IsScope r.scope
      × (validate_scope r.scope ≡ accepted)
      × ((r.default_walk ≡ any_scope) ↔ (r.scope ≡ codes "global"))
unfolding validate_scope
resolve_scope-IsScope param header default' env r h =
    let g : Good (resolved r) = subst Good h (resolve_scope-Good param header default' env) in
    (g.0, ground (arith, g.0.0, g.0.2), g.1)

-- A level that is not set: missing, or blank.
abbrev pub IsUnset : Option (List ℕ) → Type 0
IsUnset none = Unit
IsUnset (some v) = all_whitespace v ≡ true

-- The first set level and its value.
pub data First (param header default' env : Option (List ℕ)) : Source → List ℕ → Type 0 where
  first_param :
      {s : List ℕ}
      → param ≡ some s
      → all_whitespace s ≡ false
      → First param header default' env param_scope s
  first_header :
      {s : List ℕ}
      → IsUnset param
      → header ≡ some s
      → all_whitespace s ≡ false
      → First param header default' env header_scope s
  first_default :
      {s : List ℕ}
      → IsUnset param
      → IsUnset header
      → default' ≡ some s
      → all_whitespace s ≡ false
      → First param header default' env header_default s
  first_env :
      {s : List ℕ}
      → IsUnset param
      → IsUnset header
      → IsUnset default'
      → env ≡ some s
      → all_whitespace s ≡ false
      → First param header default' env env_default s

set-unset : (v : Option (List ℕ)) → IsUnset v → set v ≡ none
set-unset none u = refl
set-unset (some v) u = ground arith

set-some :
    (v : Option (List ℕ)) (s : List ℕ) → v ≡ some s → all_whitespace s ≡ false → set v ≡ some s
set-some v s e u = ground arith

-- The first level that is set decides alone: its value is the scope if it is valid, and otherwise
-- resolution fails at that level with the fault, whatever the lower levels hold.
resolve_scope-First :
    {param header default' env : Option (List ℕ)} {source : Source} {s : List ℕ}
    → First param header default' env source s
    → resolve_scope param header default' env ≡ settle source s (validate s)
unfolding resolve_scope
resolve_scope-First {param} {header} {default'} {env} {source} {s} (first_param e n) =
    rw (set-some param s e n) refl
resolve_scope-First {param} {header} {default'} {env} {source} {s} (first_header p e n) =
    rw (set-unset param p, set-some header s e n) refl
resolve_scope-First {param} {header} {default'} {env} {source} {s} (first_default p h e n) =
    rw (set-unset param p, set-unset header h, set-some default' s e n) refl
resolve_scope-First {param} {header} {default'} {env} {source} {s} (first_env p h d e n) =
    rw (set-unset param p, set-unset header h, set-unset default' d, set-some env s e n) refl
