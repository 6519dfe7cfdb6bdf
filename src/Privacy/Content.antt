-- ===== src/Privacy/Content.antt =====
-- `privacy_filter`: the tests on the content of a memory, in the order of the source.
use aver.Text.{
  codes, byte_len, starts_with, contains, text_beq, split, any, trim, lines, all_chars,
  is_ascii_alphanumeric, is_ascii_uppercase, is_ascii_digit,
}
use aver.Privacy.Paths.{
  aws_access_key, github_pat, github_fine_grained_pat, jwt, open_ai_key, anthropic_key,
  stripe_live_key, private_key, high_entropy, memory_ignore, Verdict, pass, refuse,
}
use aver.Prelude.{
  ℕ, String, Bool, false, List, [], ◌∷◌, ◌||◌, ◌&&◌, not, nat_beq, leb, ltb, if◌then◌else◌,
}

-- `|ch| !ch.is_ascii_alphanumeric()`
abbrev pub not_alphanumeric : ℕ → Bool
not_alphanumeric c = not (is_ascii_alphanumeric c)

abbrev pub secret_token_boundary : ℕ → Bool
secret_token_boundary c = not (is_ascii_alphanumeric c || nat_beq c b'_' || nat_beq c b'-')

abbrev pub jwt_token_boundary : ℕ → Bool
jwt_token_boundary c =
    not (is_ascii_alphanumeric c || nat_beq c b'_' || nat_beq c b'-' || nat_beq c b'.')

abbrev is_dot : ℕ → Bool
is_dot c = nat_beq c b'.'

-- The `matches!` on the parts of a token.
abbrev jwt_parts : List (List ℕ) → Bool
jwt_parts (header ∷ claims ∷ signature ∷ []) =
    starts_with (codes "eyJ") header
    && leb 10 (byte_len header)
    && leb 10 (byte_len claims)
    && leb 10 (byte_len signature)
jwt_parts _ = false

unfoldable pub is_jwt : List ℕ → Bool
unfolding split starts_with byte_len
is_jwt token = jwt_parts (split is_dot token)

unfoldable pub is_aws_access_key : List ℕ → Bool
unfolding starts_with byte_len all_chars
is_aws_access_key token =
    nat_beq (byte_len token) 20
    && starts_with (codes "AKIA") token
    && all_chars (λ c. is_ascii_uppercase c || is_ascii_digit c) token

-- `|token| token.starts_with(prefix) && token.len() >= n`
unfoldable pub is_token : String → ℕ → List ℕ → Bool
unfolding starts_with byte_len
is_token prefix n token = starts_with (codes prefix) token && leb n (byte_len token)

-- `content.split(secret_token_boundary).any(..)`
unfoldable pub has_token : String → ℕ → List ℕ → Bool
unfolding any split is_token
has_token prefix n content = any (is_token prefix n) (split secret_token_boundary content)

-- `content.lines().next().is_some_and(|line| line.trim() == ..)`
abbrev first_is_marker : List (List ℕ) → Bool
first_is_marker [] = false
first_is_marker (line ∷ rest) = text_beq (trim line) (codes "<!-- memory:ignore -->")

unfoldable pub is_ignored : List ℕ → Bool
unfolding any contains text_beq trim lines
is_ignored content =
    first_is_marker (lines content) || any (contains (codes "# memory:ignore")) (lines content)

abbrev pub key_markers : List String
key_markers =
    "BEGIN PRIVATE KEY" ∷ "BEGIN OPENSSH PRIVATE KEY" ∷ "BEGIN ENCRYPTED PRIVATE KEY"
    ∷ "BEGIN PGP PRIVATE KEY BLOCK" ∷ "BEGIN RSA PRIVATE KEY" ∷ "BEGIN EC PRIVATE KEY"
    ∷ "BEGIN DSA PRIVATE KEY" ∷ "BEGIN SSH2 ENCRYPTED PRIVATE KEY" ∷ "PuTTY-User-Key-File-"
    ∷ "AGE-SECRET-KEY-" ∷ []

unfoldable pub has_private_key : List ℕ → Bool
unfolding any contains
has_private_key content = any (λ m. contains (codes m) content) key_markers

-- The last test: `entropic` stands for `shannon_entropy(token) > 4.5`.
unfoldable pub is_entropic : (List ℕ → Bool) → List ℕ → Bool
unfolding byte_len
is_entropic entropic token = ltb 20 (byte_len token) && entropic token

unfoldable pub privacy_filter : (List ℕ → Bool) → List ℕ → Verdict
unfolding any split is_ignored has_private_key is_aws_access_key is_jwt has_token is_token
    is_entropic
privacy_filter entropic content =
    if is_ignored content
    then refuse memory_ignore
    else if has_private_key content
    then refuse private_key
    else if any is_aws_access_key (split not_alphanumeric content)
    then refuse aws_access_key
    else if has_token "ghp_" 40 content
    then refuse github_pat
    else if has_token "gho_" 30 content
    then refuse github_pat
    else if has_token "ghu_" 30 content
    then refuse github_pat
    else if has_token "github_pat_" 40 content
    then refuse github_fine_grained_pat
    else if has_token "glpat-" 20 content
    then refuse high_entropy
    else if has_token "hf_" 30 content
    then refuse high_entropy
    else if has_token "lin_api_" 30 content
    then refuse high_entropy
    else if has_token "npm_" 30 content
    then refuse high_entropy
    else if has_token "tskey-auth-" 30 content
    then refuse high_entropy
    else if has_token "tskey-api-" 30 content
    then refuse high_entropy
    else if any is_jwt (split jwt_token_boundary content)
    then refuse jwt
    else if has_token "sk-ant-" 30 content
    then refuse anthropic_key
    else if has_token "sk_live_" 30 content
    then refuse stripe_live_key
    else if any
        (λ token.
          (starts_with (codes "xoxb-") token
            || starts_with (codes "xoxp-") token
            || starts_with (codes "xapp-") token)
          && leb 20 (byte_len token))
        (split secret_token_boundary content)
    then refuse high_entropy
    else if has_token "sk-" 30 content
    then refuse open_ai_key
    else if any (is_entropic entropic) (split not_alphanumeric content)
    then refuse high_entropy
    else pass
