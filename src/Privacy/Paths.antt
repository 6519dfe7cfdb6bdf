-- ===== src/Privacy/Paths.antt =====
-- `PrivacyRejection`, `telemetry_reason` and `privacy_filter_path`.
pub mod Refused
use aver.Prelude.{ℕ, String, Bool, true, false, List, [], ◌∷◌, ◌++◌, ◌||◌, nat_beq, if◌then◌else◌}
use aver.Text.{codes, starts_with, ends_with, contains, text_beq, split, any}

pub data PrivacyRejection : Type 0 where
  aws_access_key github_pat github_fine_grained_pat jwt open_ai_key : PrivacyRejection
  anthropic_key stripe_live_key private_key high_entropy secrets_path : PrivacyRejection
  env_path memory_ignore ssh_path key_path aws_credentials_path config_path : PrivacyRejection

-- `telemetry_reason`
unfoldable pub telemetry_reason : PrivacyRejection → String
telemetry_reason aws_access_key = "regex:aws"
telemetry_reason github_pat = "regex:github-pat"
telemetry_reason github_fine_grained_pat = "regex:github-fine-grained-pat"
telemetry_reason jwt = "regex:jwt"
telemetry_reason open_ai_key = "regex:openai"
telemetry_reason anthropic_key = "regex:anthropic"
telemetry_reason stripe_live_key = "regex:stripe-live"
telemetry_reason private_key = "regex:private-key"
telemetry_reason high_entropy = "entropy"
telemetry_reason secrets_path = "path:secrets-dir"
telemetry_reason env_path = "path:env"
telemetry_reason memory_ignore = "marker:memory-ignore"
telemetry_reason ssh_path = "path:ssh"
telemetry_reason key_path = "path:key-file"
telemetry_reason aws_credentials_path = "path:aws-credentials"
telemetry_reason config_path = "path:config"

-- `Result<(), PrivacyRejection>`
pub data Verdict : Type 0 where
  pass : Verdict
  refuse : PrivacyRejection → Verdict

-- `path.starts_with(d) || path.contains("/" + d)`
abbrev pub in_dir : String → List ℕ → Bool
in_dir d path = starts_with (codes d) path || contains (b'/' ∷ codes d) path

-- `path == f || path.ends_with("/" + f)`
abbrev pub is_file : String → List ℕ → Bool
is_file f path = text_beq path (codes f) || ends_with (b'/' ∷ codes f) path

-- The files of the first test.
abbrev pub secret_files : List String
secret_files =
    ".netrc" ∷ ".git-credentials" ∷ "auth.json" ∷ ".nuget/NuGet/NuGet.Config" ∷ ".m2/settings.xml"
    ∷ ".gradle/gradle.properties" ∷ ".bundle/config" ∷ ".vault-token" ∷ ".sentryclirc" ∷ ".npmrc"
    ∷ ".pnpmrc" ∷ ".yarnrc.yml" ∷ ".pypirc" ∷ ".gem/credentials" ∷ ".cargo/credentials.toml"
    ∷ ".docker/config.json" ∷ ".kube/config" ∷ ".azure/accessTokens.json"
    ∷ ".azure/msal_token_cache.json" ∷ ".terraform.d/credentials.tfrc.json"
    ∷ ".pulumi/credentials.json" ∷ ".oci/config" ∷ []

unfoldable pub is_secrets : List ℕ → Bool
unfolding any starts_with ends_with contains text_beq
is_secrets path =
    in_dir ".secrets.d/" path
    || starts_with (codes "~/.secrets.d/") path
    || in_dir ".age/" path
    || in_dir ".gnupg/" path
    || any (λ f. is_file f path) secret_files
    || ends_with (codes "application_default_credentials.json") path
    || ends_with (codes ".kdbx") path
    || ends_with (codes ".kdb") path

abbrev pub is_slash : ℕ → Bool
is_slash c = nat_beq c b'/'

unfoldable pub is_env_segment : List ℕ → Bool
unfolding text_beq starts_with
is_env_segment s =
    text_beq s (codes ".env") || text_beq s (codes ".envrc") || starts_with (codes ".env.") s

unfoldable pub has_env_segment : List ℕ → Bool
unfolding any split is_env_segment
has_env_segment path = any is_env_segment (split is_slash path)

unfoldable pub is_ssh : List ℕ → Bool
unfolding starts_with contains
is_ssh path = in_dir ".ssh/" path

unfoldable pub is_aws : List ℕ → Bool
unfolding starts_with ends_with contains text_beq
is_aws path =
    is_file ".aws/credentials" path || is_file ".aws/config" path || in_dir ".aws/sso/cache/" path

unfoldable pub is_config : List ℕ → Bool
unfolding starts_with contains
is_config path = in_dir ".config/" path

abbrev pub key_suffixes : List String
key_suffixes = ".pem" ∷ ".key" ∷ ".p12" ∷ ".pfx" ∷ ".ppk" ∷ ".jks" ∷ ".keystore" ∷ []

unfoldable pub is_key : List ℕ → Bool
unfolding any ends_with
is_key path = any (λ s. ends_with (codes s) path) key_suffixes

unfoldable pub privacy_filter_path : List ℕ → Verdict
unfolding is_secrets has_env_segment is_ssh is_aws is_config is_key
privacy_filter_path path =
    if is_secrets path
    then refuse secrets_path
    else if has_env_segment path
    then refuse env_path
    else if is_ssh path
    then refuse ssh_path
    else if is_aws path
    then refuse aws_credentials_path
    else if is_config path
    then refuse config_path
    else if is_key path
    then refuse key_path
    else pass
