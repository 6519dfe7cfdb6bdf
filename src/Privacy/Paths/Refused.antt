-- ===== src/Privacy/Paths/Refused.antt =====
-- `privacy_filter_path` on `.env` files, guarded directories and key files.
use aver.Prelude.{
  map, refl, ℕ, Bool, true, false, ◌≡◌, List, ◌∷◌, ◌++◌, ◌||◌, arith, String, if◌then◌else◌, [],
}
use aver.Text.{codes, starts_with, ends_with, any}
use aver.Text.Splitting.{
  IsOpen, Plain, IsClose, any-token, starts_with-append, contains-append, ends_with-append,
}
use aver.Privacy.Paths.{
  Verdict, pass, refuse, privacy_filter_path, is_secrets, is_ssh, is_aws, is_config, is_key,
  is_slash, is_env_segment, has_env_segment, in_dir, PrivacyRejection, is_file, secret_files,
  key_suffixes,
}

if_pass :
    (b : Bool) (r : PrivacyRejection) (v : Verdict)
    → (if b then refuse r else v) ≡ pass
    → (b ≡ false) × (v ≡ pass)
if_pass true r v h = ground arith
if_pass false r v h = (refl, h)

abbrev AllFalse : List Bool → Type 0
AllFalse [] = Unit
AllFalse (b ∷ bs) = (b ≡ false) × AllFalse bs

any-false : (q : String → Bool) (ss : List String) → any q ss ≡ false → AllFalse (map q ss)
unfolding any
any-false q [] h = tt
any-false q (s ∷ ss) h = (ground arith, any-false q ss (ground arith))

-- `||` over a list of tests, from the left.
abbrev or_from : Bool → List Bool → Bool
or_from b [] = b
or_from b (c ∷ cs) = or_from (b || c) cs

or_from-false : (b : Bool) (bs : List Bool) → or_from b bs ≡ false → AllFalse (b ∷ bs)
or_from-false b [] h = (h, tt)
or_from-false b (c ∷ cs) h =
    let rest = or_from-false (b || c) cs h in
    (ground (arith, rest.0), (ground (arith, rest.0), rest.1))

-- Every test of the filter fails.
abbrev Passed : List ℕ → Type 0
Passed path =
    (is_secrets path ≡ false)
    × (has_env_segment path ≡ false)
    × (is_ssh path ≡ false)
    × (is_aws path ≡ false)
    × (is_config path ≡ false)
    × (is_key path ≡ false)

passed : (path : List ℕ) → privacy_filter_path path ≡ pass → Passed path
unfolding privacy_filter_path
passed path h =
    let s = if_pass _ _ _ h in
    let e = if_pass _ _ _ s.1 in
    let d = if_pass _ _ _ e.1 in
    let a = if_pass _ _ _ d.1 in
    let c = if_pass _ _ _ a.1 in let k = if_pass _ _ _ c.1 in (s.0, e.0, d.0, a.0, c.0, k.0)

-- A path with a segment that is a dotenv name, wherever it stands, is refused.
privacy_filter_path_env :
    (left seg right : List ℕ)
    → IsOpen is_slash left
    → Plain is_slash seg
    → IsClose is_slash right
    → is_env_segment seg ≡ true
    → ¬ (privacy_filter_path (left ++ (seg ++ right)) ≡ pass)
unfolding has_env_segment
privacy_filter_path_env left seg right o h c t ok =
    let found = any-token is_slash is_env_segment left seg right o h c t in
    let missed = (passed (left ++ (seg ++ right)) ok).1 in cc

-- The directories whose files are refused.
pub data GuardedDir : Type 0 where
  secrets_d age gnupg ssh aws_sso_cache config : GuardedDir

abbrev pub dir_name : GuardedDir → String
dir_name secrets_d = ".secrets.d/"
dir_name age = ".age/"
dir_name gnupg = ".gnupg/"
dir_name ssh = ".ssh/"
dir_name aws_sso_cache = ".aws/sso/cache/"
dir_name config = ".config/"

abbrev later_tests : List ℕ → List Bool
later_tests path =
    starts_with (codes "~/.secrets.d/") path
    ∷ in_dir ".age/" path
    ∷ in_dir ".gnupg/" path
    ∷ any (λ f. is_file f path) secret_files
    ∷ ends_with (codes "application_default_credentials.json") path
    ∷ ends_with (codes ".kdbx") path
    ∷ ends_with (codes ".kdb") path
    ∷ []

secrets_tests_false :
    (path : List ℕ)
    → is_secrets path ≡ false
    → AllFalse (in_dir ".secrets.d/" path ∷ later_tests path)
unfolding is_secrets
secrets_tests_false path h = or_from-false (in_dir ".secrets.d/" path) (later_tests path) h

aws_test_false : (path : List ℕ) → is_aws path ≡ false → in_dir ".aws/sso/cache/" path ≡ false
unfolding is_aws
aws_test_false path h =
    (or_from-false (is_file ".aws/credentials" path)
      (is_file ".aws/config" path ∷ in_dir ".aws/sso/cache/" path ∷ []) h).1.1.0

dir_false : (d : GuardedDir) (path : List ℕ) → Passed path → in_dir (dir_name d) path ≡ false
unfolding is_ssh is_config
dir_false secrets_d path h = (secrets_tests_false path h.0).0
dir_false age path h = (secrets_tests_false path h.0).1.1.0
dir_false gnupg path h = (secrets_tests_false path h.0).1.1.1.0
dir_false ssh path h = h.2
dir_false aws_sso_cache path h = aws_test_false path h.3
dir_false config path h = h.4

refused_dir :
    (d : GuardedDir) (path : List ℕ)
    → in_dir (dir_name d) path ≡ true
    → ¬ (privacy_filter_path path ≡ pass)
refused_dir d path found ok = let missed = dir_false d path (passed path ok) in cc

in_dir_start :
    (d : GuardedDir) (right : List ℕ) → in_dir (dir_name d) (codes (dir_name d) ++ right) ≡ true
in_dir_start d right = ground (arith, starts_with-append (codes (dir_name d)) right)

in_dir_below :
    (d : GuardedDir) (left right : List ℕ)
    → in_dir (dir_name d) (left ++ ((b'/' ∷ codes (dir_name d)) ++ right)) ≡ true
in_dir_below d left right = ground (arith, contains-append left (b'/' ∷ codes (dir_name d)) right)

-- A path under a guarded directory, at the root or below another directory, is refused.
privacy_filter_path_dir :
    (d : GuardedDir) (left right : List ℕ)
    → ¬ (privacy_filter_path (codes (dir_name d) ++ right) ≡ pass)
      × ¬ (privacy_filter_path (left ++ ((b'/' ∷ codes (dir_name d)) ++ right)) ≡ pass)
privacy_filter_path_dir d left right =
    (refused_dir d _ (in_dir_start d right), refused_dir d _ (in_dir_below d left right))

-- The endings of key files.
pub data KeyFile : Type 0 where
  pem key p12 pfx ppk jks keystore kdbx kdb : KeyFile

abbrev pub ending : KeyFile → String
ending pem = ".pem"
ending key = ".key"
ending p12 = ".p12"
ending pfx = ".pfx"
ending ppk = ".ppk"
ending jks = ".jks"
ending keystore = ".keystore"
ending kdbx = ".kdbx"
ending kdb = ".kdb"

key_tests_false :
    (path : List ℕ)
    → is_key path ≡ false
    → AllFalse (map (λ s. ends_with (codes s) path) key_suffixes)
unfolding is_key
key_tests_false path h = any-false (λ s. ends_with (codes s) path) key_suffixes h

key_false : (k : KeyFile) (path : List ℕ) → Passed path → ends_with (codes (ending k)) path ≡ false
key_false pem path h = (key_tests_false path h.5).0
key_false key path h = (key_tests_false path h.5).1.0
key_false p12 path h = (key_tests_false path h.5).1.1.0
key_false pfx path h = (key_tests_false path h.5).1.1.1.0
key_false ppk path h = (key_tests_false path h.5).1.1.1.1.0
key_false jks path h = (key_tests_false path h.5).1.1.1.1.1.0
key_false keystore path h = (key_tests_false path h.5).1.1.1.1.1.1.0
key_false kdbx path h = (secrets_tests_false path h.0).1.1.1.1.1.1.0
key_false kdb path h = (secrets_tests_false path h.0).1.1.1.1.1.1.1.0

-- A path that ends like a key file is refused.
privacy_filter_path_key :
    (k : KeyFile) (left : List ℕ) → ¬ (privacy_filter_path (left ++ codes (ending k)) ≡ pass)
privacy_filter_path_key k left ok =
    let found = ends_with-append left (codes (ending k)) in
    let missed = key_false k _ (passed (left ++ codes (ending k)) ok) in cc
