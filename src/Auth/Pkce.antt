-- ===== src/Auth/Pkce.antt =====
-- crates/aver-server/src/oauth.rs: the PKCE check, with its comparison in constant time.
use aver.Prelude.{◌+◌, ℕ, Bool, List, [], ◌∷◌, ltb, nat_beq, length, if◌then◌else◌, ◌++◌, ◌&&◌}
use aver.Auth.{Text, Crates}
use Prim.Native.Nat.{bit_xor, bit_or, ◌/◌, ◌%◌}

-- `str::as_bytes`: the UTF-8 encoding.
unfoldable pub utf8 : ℕ → List ℕ
utf8 c =
    if ltb c 0x80
    then c ∷ []
    else if ltb c 0x800
    then (0xC0 + c / 64) ∷ (0x80 + c % 64) ∷ []
    else if ltb c 0x10000
    then (0xE0 + c / 4096) ∷ (0x80 + (c / 64) % 64) ∷ (0x80 + c % 64) ∷ []
    else (0xF0 + c / 262144)
      ∷ (0x80 + (c / 4096) % 64)
      ∷ (0x80 + (c / 64) % 64)
      ∷ (0x80 + c % 64)
      ∷ []

unfoldable pub as_bytes : Text → List ℕ
unfolding utf8
as_bytes [] = []
as_bytes (c ∷ s) = utf8 c ++ as_bytes s

-- The loop of `constant_time_eq`, over `a.iter().zip(b.iter())`.
unfoldable pub difference : ℕ → List ℕ → List ℕ → ℕ
difference diff (x ∷ xs) (y ∷ ys) = difference (bit_or diff (bit_xor x y)) xs ys
difference diff _ _ = diff

unfoldable pub constant_time_eq : List ℕ → List ℕ → Bool
unfolding difference
constant_time_eq a b = nat_beq (length a) (length b) && nat_beq (difference 0 a b) 0

unfoldable pub pkce_s256_challenge : Crates → Text → Text
pkce_s256_challenge crates verifier = crates.sha256_base64 verifier

unfoldable pub verify_pkce_s256 : Crates → Text → Text → Bool
unfolding as_bytes constant_time_eq pkce_s256_challenge
verify_pkce_s256 crates verifier challenge =
    constant_time_eq (as_bytes (pkce_s256_challenge crates verifier)) (as_bytes challenge)
