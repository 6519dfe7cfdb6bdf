-- ===== src/Auth/Scopes.antt =====
-- The scope lists of auth.rs as they are persisted: `encode_scopes` and `decode_scopes`.
use aver.Prelude.{◌++◌, ◌∷◌, []}
use aver.Auth.{Text, List}
use aver.OauthScopes.{split_ascii_whitespace}

-- `scopes.join(" ")`
unfoldable pub encode_scopes : List Text → Text
encode_scopes [] = []
encode_scopes (s ∷ []) = s
encode_scopes (s ∷ t ∷ rest) = s ++ 32 ∷ encode_scopes (t ∷ rest)

unfoldable pub decode_scopes : Text → List Text
unfolding split_ascii_whitespace
decode_scopes raw = split_ascii_whitespace raw
