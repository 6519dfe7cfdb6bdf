-- ===== src/Consent/Origin.antt =====
-- origin.rs: which requests of browsers pass.
use aver.Prelude.{
  option_eq, list_eq, nat_eq, ℕ, Bool, false, Option, none, some, List, [], ◌∷◌, ◌==◌, ◌&&◌, ◌||◌,
  if◌then◌else◌, ◌+◌,
}
use aver.Text.{codes, any, is_ascii_uppercase}
use aver.Auth.{Text, Url, Crates}
use aver.Consent.{Headers}

pub data OriginError : Type 0 where
  cross_site_fetch invalid_origin_header origin_not_allowed : OriginError

pub data Verdict : Type 0 where
  passes : Verdict
  refused : OriginError → Verdict

abbrev to_lower : ℕ → ℕ
to_lower c = if is_ascii_uppercase c then c + 32 else c

unfoldable pub lower : Text → Text
lower [] = []
lower (c ∷ s) = to_lower c ∷ lower s

-- `str::eq_ignore_ascii_case`
unfoldable pub eq_ignore_ascii_case : Text → Text → Bool
unfolding lower
eq_ignore_ascii_case s t = lower s == lower t

abbrev pub is_cross_site : Option Text → Bool
is_cross_site none = false
is_cross_site (some site) = eq_ignore_ascii_case site (codes "cross-site")

unfoldable pub origins_match : Url → Url → Bool
origins_match a b = (a.scheme == b.scheme) && (a.host_str == b.host_str) && (a.port == b.port)

abbrev pub has_non_cross_site_fetch_metadata : Option Text → Bool
has_non_cross_site_fetch_metadata none = false
has_non_cross_site_fetch_metadata (some site) =
    eq_ignore_ascii_case site (codes "same-origin")
    || eq_ignore_ascii_case site (codes "same-site")
    || eq_ignore_ascii_case site (codes "none")

abbrev pub matched : List Url → Option Url → Verdict
matched allowed none = refused invalid_origin_header
matched allowed (some origin) =
    if any (origins_match origin) allowed then passes else refused origin_not_allowed

abbrev pub check_origin : Crates → Option Text → List Url → Option (Option Text) → Verdict
check_origin c site allowed none = passes
check_origin c site allowed (some none) = refused invalid_origin_header
check_origin c site allowed (some (some origin)) =
    if eq_ignore_ascii_case origin (codes "null") && has_non_cross_site_fetch_metadata site
    then passes
    else matched allowed (c.parse_url origin)

unfoldable pub validate_browser_origin : Crates → Headers → List Url → Verdict
unfolding eq_ignore_ascii_case any origins_match
validate_browser_origin c headers allowed =
    if is_cross_site headers.sec_fetch_site
    then refused cross_site_fetch
    else check_origin c headers.sec_fetch_site allowed headers.origin
