-- ===== src/Graph/Scopes.antt =====
-- The scope filter of reads, `scope_filter_sql` and `escape_like_pattern` of
-- crates/aver-core/src/store.rs, and `hyperedges_in_scope` of graph.rs. The SQL fragments are tests on
-- the row's scope; LIKE is SQLite's: `%` stands for any text, `_` for any character, the escape
-- character makes the next one literal, and ASCII letters are compared without their case.
use aver.Prelude.{
  ℕ, Bool, true, false, List, [], ◌∷◌, ◌++◌, ◌+◌, ◌≡◌, refl, ◌∙◌, ap, ◌==◌, ◌||◌, ◌&&◌, nat_eq,
  list_eq, nat_beq, arith, ◌⊎◌, ◌↔◌, inl, inr, if◌then◌else◌, map,
}
use aver.Text.{codes, is_ascii_uppercase}
use aver.Decision.{Text}

pub data ScopeWalk : Type 0 where
  exact ancestors descendants any_scope : ScopeWalk

pub data Token : Type 0 where
  literal : ℕ → Token
  any_one any_many : Token

abbrev token : ℕ → Token
token c = if nat_beq c b'%' then any_many else if nat_beq c b'_' then any_one else literal c

-- The pattern of a LIKE with ESCAPE '\'; the flag says that the last character was the escape.
unfoldable pub parse_pattern : Bool → List ℕ → List Token
parse_pattern escaped [] = []
parse_pattern true (c ∷ cs) = literal c ∷ parse_pattern false cs
parse_pattern false (c ∷ cs) =
    let next = token c ∷ parse_pattern false cs in
    let after = parse_pattern true cs in if nat_beq c b'\\' then after else next

abbrev pub lower : ℕ → ℕ
lower c = if is_ascii_uppercase c then c + 32 else c

unfoldable pub some_suffix : (List ℕ → Bool) → List ℕ → Bool
some_suffix f [] = f []
some_suffix f (c ∷ cs) = f (c ∷ cs) || some_suffix f cs

abbrev is_empty : List ℕ → Bool
is_empty [] = true
is_empty (c ∷ cs) = false

unfoldable pub matches : List Token → List ℕ → Bool
unfolding some_suffix
matches [] s = is_empty s
matches (literal c ∷ ts) [] = false
matches (literal c ∷ ts) (d ∷ s) = nat_beq (lower c) (lower d) && matches ts s
matches (any_one ∷ ts) [] = false
matches (any_one ∷ ts) (d ∷ s) = matches ts s
matches (any_many ∷ ts) s = some_suffix (matches ts) s

-- `s LIKE pattern ESCAPE '\'`
unfoldable pub like : (s pattern : Text) → Bool
unfolding matches parse_pattern
like s pattern = matches (parse_pattern false pattern) s

abbrev is_meta : ℕ → Bool
is_meta c = nat_beq c b'\\' || nat_beq c b'_' || nat_beq c b'%'

unfoldable pub escape_like_pattern : Text → Text
escape_like_pattern [] = []
escape_like_pattern (c ∷ cs) =
    let rest = escape_like_pattern cs in if is_meta c then b'\\' ∷ c ∷ rest else c ∷ rest

-- SQL's `replace(s, c, '\' || c)` for one character.
unfoldable pub replace_char : ℕ → Text → Text
replace_char x [] = []
replace_char x (c ∷ cs) =
    let rest = replace_char x cs in if nat_beq c x then b'\\' ∷ c ∷ rest else c ∷ rest

-- The pattern that the statement for `Ancestors` builds from a row's scope.
unfoldable pub sql_escaped : Text → Text
unfolding replace_char
sql_escaped s = replace_char b'%' (replace_char b'_' (replace_char b'\\' s))

abbrev below : Text
below = codes "/%"

-- Whether the fragment of `scope_filter_sql` admits a row with scope `row`.
unfoldable pub admits_scope : ScopeWalk → (scope row : Text) → Bool
unfolding like escape_like_pattern sql_escaped
admits_scope any_scope scope row = true
admits_scope exact scope row = row == scope
admits_scope descendants scope row = row == scope || like row (escape_like_pattern scope ++ below)
admits_scope ancestors scope row =
    row == codes "global" || row == scope || like scope (sql_escaped row ++ below)

-- `hyperedges_in_scope`
unfoldable pub hyperedges_in_scope : (scope : Text) → ScopeWalk → Bool
hyperedges_in_scope scope any_scope = true
hyperedges_in_scope scope ancestors = true
hyperedges_in_scope scope exact = scope == codes "global"
hyperedges_in_scope scope descendants = scope == codes "global"

sql_escaped-eq-escape_like_pattern : (s : Text) → sql_escaped s ≡ escape_like_pattern s
unfolding sql_escaped replace_char escape_like_pattern
sql_escaped-eq-escape_like_pattern [] = refl
sql_escaped-eq-escape_like_pattern (c ∷ cs) = ground (arith, sql_escaped-eq-escape_like_pattern cs)

some_suffix_any : (s : Text) → some_suffix (matches []) s ≡ true
unfolding some_suffix matches
some_suffix_any [] = refl
some_suffix_any (c ∷ s) = some_suffix_any s

-- The second text is, up to case, the first with a slash and something behind it.
abbrev pub IsBelow : Text → Text → Type 0
IsBelow scope row = (rest : Text) × (map lower row ≡ map lower (scope ++ b'/' ∷ rest))

parse_pattern-escape :
    (c : ℕ) (cs rest : Text)
    → parse_pattern false (escape_like_pattern (c ∷ cs) ++ rest)
      ≡ literal c ∷ parse_pattern false (escape_like_pattern cs ++ rest)
unfolding parse_pattern escape_like_pattern
parse_pattern-escape c cs rest = ground arith

below-IsBelow : (row : Text) → matches (parse_pattern false below) row ≡ true → IsBelow [] row
unfolding matches parse_pattern
below-IsBelow [] h = absurd (ground (arith, h))
below-IsBelow (d ∷ row) h =
    let e : lower d ≡ lower b'/' = ground (arith, h) in (row, ap (λ (x : ℕ). x ∷ map lower row) e)

IsBelow-below : (row : Text) → IsBelow [] row → matches (parse_pattern false below) row ≡ true
unfolding matches parse_pattern
IsBelow-below [] (rest, h) = cc h
IsBelow-below (d ∷ row) (rest, h) =
    let e : lower b'/' ≡ lower d = cc h in ground (arith, e, some_suffix_any row)

literal-matches :
    (c : ℕ) (ts : List Token) (row : Text)
    → matches (literal c ∷ ts) row ≡ true
    → (d : ℕ) × (rest : Text) × (row ≡ d ∷ rest) × (lower d ≡ lower c) × (matches ts rest ≡ true)
unfolding matches
literal-matches c ts [] h = absurd (ground (arith, h))
literal-matches c ts (d ∷ rest) h = (d, rest, refl, ground (arith, h), ground (arith, h))

matches-literal :
    (c d : ℕ) (ts : List Token) (rest : Text)
    → lower d ≡ lower c
    → matches ts rest ≡ true
    → matches (literal c ∷ ts) (d ∷ rest) ≡ true
unfolding matches
matches-literal c d ts rest e h = ground (arith, e, h)

-- The literal text of a scope, in front of a slash and anything.
matches-IsBelow :
    (scope row : Text)
    → matches (parse_pattern false (escape_like_pattern scope ++ below)) row ≡ true
    → IsBelow scope row
matches-IsBelow [] row h = below-IsBelow row (unfold escape_like_pattern in h)
matches-IsBelow (c ∷ scope) row h =
    let (d, rest, split, e, m) =
      literal-matches c _ row (rw (parse_pattern-escape c scope below) at h) in
    let (more, under) = matches-IsBelow scope rest m in
    (
      more,
      ap (map lower) split
          ∙ ap (λ (x : ℕ). x ∷ map lower rest) e
          ∙ ap (λ (xs : Text). lower c ∷ xs) under,
    )

IsBelow-matches :
    (scope row : Text)
    → IsBelow scope row
    → matches (parse_pattern false (escape_like_pattern scope ++ below)) row ≡ true
IsBelow-matches [] row h = unfold escape_like_pattern in IsBelow-below row h
IsBelow-matches (c ∷ scope) [] (rest, h) = cc h
IsBelow-matches (c ∷ scope) (d ∷ row) (rest, h) =
    let first : lower d ≡ lower c = cc h in
    let under : map lower row ≡ map lower (scope ++ b'/' ∷ rest) = cc h in
    rw (parse_pattern-escape c scope below)
      (matches-literal c d _ row first (IsBelow-matches scope row (rest, under)))

below_iff :
    (scope row : Text) → (like row (escape_like_pattern scope ++ below) ≡ true) ↔ IsBelow scope row
unfolding like
below_iff scope row = (matches-IsBelow scope row, IsBelow-matches scope row)

-- What a walk lets a reader at `scope` see of rows at `row`.
abbrev pub IsVisible : ScopeWalk → (scope row : Text) → Type 0
IsVisible any_scope scope row = Unit
IsVisible exact scope row = row ≡ scope
IsVisible descendants scope row = (row ≡ scope) ⊎ IsBelow scope row
IsVisible ancestors scope row = ((row ≡ codes "global") ⊎ (row ≡ scope)) ⊎ IsBelow row scope

or_iff : {P Q : Type 0} (a b : Bool) → (a ≡ true) ↔ P → (b ≡ true) ↔ Q → ((a || b) ≡ true) ↔ (P ⊎ Q)
or_iff true b p q = (λ h. inl (p.0 refl), λ h. refl)
or_iff false b p q = (λ h. inr (q.0 h), λ h. elim h [ inl x ↦ cc (p.1 x) | inr y ↦ q.1 y ])

-- The scope filter admits a row exactly when: any row; the scope itself; the scope itself and what is
-- below it; or the global scope, the scope itself and what it is below. What is below is compared
-- without the case of ASCII letters, and no character of a scope is a wildcard.
pub admits_scope_iff :
    (walk : ScopeWalk) (scope row : Text)
    → (admits_scope walk scope row ≡ true) ↔ IsVisible walk scope row
unfolding admits_scope
admits_scope_iff any_scope scope row = (λ h. tt, λ h. refl)
admits_scope_iff exact scope row = list_eq.agrees row scope
admits_scope_iff descendants scope row =
    or_iff (row == scope) _ (list_eq.agrees row scope) (below_iff scope row)
admits_scope_iff ancestors scope row =
    or_iff (row == codes "global" || row == scope) (like scope (sql_escaped row ++ below))
      (or_iff (row == codes "global") (row == scope) (list_eq.agrees row (codes "global"))
        (list_eq.agrees row scope))
      (rw (sql_escaped-eq-escape_like_pattern row) (below_iff row scope))
