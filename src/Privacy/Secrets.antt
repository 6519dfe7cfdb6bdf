-- ===== src/Privacy/Secrets.antt =====
-- `privacy_filter` and the kinds of tokens that it knows.
use aver.Prelude.{ℕ, Bool, true, ◌≡◌, List, ◌||◌, ◌&&◌, leb, String}
use aver.Text.{codes, byte_len, starts_with}
use aver.Privacy.Content.{is_token}

-- The credentials that are told by a prefix and a least length.
pub data TokenKind : Type 0 where
  github_classic github_oauth github_user github_fine_grained gitlab hugging_face linear npm :
      TokenKind
  tailscale_auth tailscale_api anthropic stripe_live slack_bot slack_user slack_app open_ai :
      TokenKind

abbrev pub prefix : TokenKind → String
prefix github_classic = "ghp_"
prefix github_oauth = "gho_"
prefix github_user = "ghu_"
prefix github_fine_grained = "github_pat_"
prefix gitlab = "glpat-"
prefix hugging_face = "hf_"
prefix linear = "lin_api_"
prefix npm = "npm_"
prefix tailscale_auth = "tskey-auth-"
prefix tailscale_api = "tskey-api-"
prefix anthropic = "sk-ant-"
prefix stripe_live = "sk_live_"
prefix slack_bot = "xoxb-"
prefix slack_user = "xoxp-"
prefix slack_app = "xapp-"
prefix open_ai = "sk-"

abbrev pub least_len : TokenKind → ℕ
least_len github_classic = 40
least_len github_fine_grained = 40
least_len gitlab = 20
least_len slack_bot = 20
least_len slack_user = 20
least_len slack_app = 20
least_len _ = 30

-- A token of the kind: its prefix, and long enough.
abbrev pub IsToken : TokenKind → List ℕ → Type 0
IsToken k tok =
    (starts_with (codes (prefix k)) tok ≡ true) × (leb (least_len k) (byte_len tok) ≡ true)

abbrev slack_token : List ℕ → Bool
slack_token tok =
    (starts_with (codes "xoxb-") tok
      || starts_with (codes "xoxp-") tok
      || starts_with (codes "xapp-") tok)
    && leb 20 (byte_len tok)

-- The test of the filter that meets a token of the kind.
abbrev test_of : TokenKind → List ℕ → Bool
test_of slack_bot tok = slack_token tok
test_of slack_user tok = slack_token tok
test_of slack_app tok = slack_token tok
test_of k tok = is_token (prefix k) (least_len k) tok
