-- ===== src/Tests/Gate.antt =====
-- The privacy gate and the wire strings at concrete texts.
use aver.Privacy.Paths.{pass, privacy_filter_path}
use aver.Prelude.{ℕ, Bool, false, List, ◌≡◌, refl}
use aver.Text.{codes}

abbrev calm : List ℕ → Bool
calm token = false

abbrev oauth_token : List ℕ
oauth_token = codes "gho_0123456789abcdefghijABCDEF"

env_dir_passes : privacy_filter_path (codes "docs/.environment/notes.md") ≡ pass
unfolding privacy_filter_path
env_dir_passes = refl
