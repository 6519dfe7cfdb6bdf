-- ===== src/Auth/ConstantTime.antt =====
-- The comparison of oauth.rs that runs over all bytes.
use Prim.Native.Nat.{
  bit_xor-bitwise, bit_or-bitwise, bit_xor, bit_or, digits, differ, max, ◌/◌, ◌%◌,
}
use aver.Prelude.{ℕ, zero, suc, true, List, [], ◌∷◌, ◌≤◌, ◌≡◌, ◌↔◌, refl, sym, ap, arith, length}
use aver.Auth.{Text, Crates}
use aver.Auth.Pkce.{as_bytes, difference, constant_time_eq, pkce_s256_challenge, verify_pkce_s256}

differ-zero : (x y : ℕ) → differ x y ≡ 0 → x ≡ y
differ-zero zero y h = sym h
differ-zero (suc x) zero h = absurd (omega (arith, h))
differ-zero (suc x) (suc y) h = ap suc (differ-zero x y h)

differ_self : (x : ℕ) → differ x x ≡ 0
differ_self zero = refl
differ_self (suc x) = differ_self x

max-zero : (x y : ℕ) → max x y ≡ 0 → (x ≡ 0) × (y ≡ 0)
max-zero x y h = omega (arith, h)

xor-zero : (n a b : ℕ) → a ≤ n → digits (λ d. d) differ n a b ≡ 0 → a ≡ b
xor-zero zero a b le h = omega (arith, h)
xor-zero (suc n) zero b le h = sym h
xor-zero (suc n) (suc a) b le h =
    let halves = xor-zero n (suc a / 2) (b / 2) (omega arith) (omega (arith, h)) in
    let last = differ-zero (suc a % 2) (b % 2) (omega (arith, h)) in omega (arith, halves, last)

xor_self : (n a : ℕ) → a ≤ n → digits (λ d. d) differ n a a ≡ 0
xor_self zero a le = omega arith
xor_self (suc n) zero le = refl
xor_self (suc n) (suc a) le =
    omega (arith, xor_self n (suc a / 2) (omega arith), differ_self (suc a % 2))

or-zero : (n a b : ℕ) → a ≤ n → digits (λ d. d) max n a b ≡ 0 → (a ≡ 0) × (b ≡ 0)
or-zero zero a b le h = (omega arith, h)
or-zero (suc n) zero b le h = (refl, h)
or-zero (suc n) (suc a) b le h =
    let halves = or-zero n (suc a / 2) (b / 2) (omega arith) (omega (arith, h)) in
    let last = max-zero (suc a % 2) (b % 2) (omega (arith, h)) in
    absurd (omega (arith, halves.0, last.0))

bit_xor-zero : (a b : ℕ) → (bit_xor a b ≡ 0) ↔ (a ≡ b)
bit_xor-zero a b =
    rw (bit_xor-bitwise a b)
      (xor-zero a a b (omega arith), λ e. rw (sym e) (xor_self a a (omega arith)))

bit_or-zero : (a b : ℕ) → (bit_or a b ≡ 0) ↔ ((a ≡ 0) × (b ≡ 0))
bit_or-zero a b = rw (bit_or-bitwise a b) (or-zero a a b (omega arith), λ (x, y). rw (x, y) refl)

difference-zero :
    (diff : ℕ) (a b : List ℕ)
    → length a ≡ length b
    → (difference diff a b ≡ 0) ↔ ((diff ≡ 0) × (a ≡ b))
unfolding difference
difference-zero diff [] [] l = (λ h. (h, refl), λ h. h.0)
difference-zero diff [] (y ∷ b) l = absurd (omega (arith, l))
difference-zero diff (x ∷ a) [] l = absurd (omega (arith, l))
difference-zero diff (x ∷ a) (y ∷ b) l =
    let rest = difference-zero (bit_or diff (bit_xor x y)) a b (omega (arith, l)) in
    (
      λ h.
          let (d, e) = rest.0 h in
          let (z, x0) = (bit_or-zero diff (bit_xor x y)).0 d in
          (z, cc ((bit_xor-zero x y).0 x0, e)),
      λ (z, e). rest.1 (
        (bit_or-zero diff (bit_xor x y)).1 (z, (bit_xor-zero x y).1 (ground (arith, e))),
        ground (arith, e),
      ),
    )

-- The comparison that visits every byte says equal exactly for equal byte strings.
pub constant_time_eq_iff : (a b : List ℕ) → (constant_time_eq a b ≡ true) ↔ (a ≡ b)
unfolding constant_time_eq
constant_time_eq_iff a b = (
  λ h. ((difference-zero 0 a b (ground (arith, h))).0 (ground (arith, h))).1,
  λ e.
      let same : length a ≡ length b = ap length e in
      let none_differ = (difference-zero 0 a b same).1 (refl, e) in
      ground (arith, none_differ, same),
)

-- The PKCE check passes exactly when the stored challenge is, byte for byte, the encoded digest of the
-- verifier.
pub verify_pkce_s256_iff :
    (c : Crates) (verifier challenge : Text)
    → (verify_pkce_s256 c verifier challenge ≡ true)
      ↔ (as_bytes (c.sha256_base64 verifier) ≡ as_bytes challenge)
unfolding verify_pkce_s256 pkce_s256_challenge
verify_pkce_s256_iff c verifier challenge =
    constant_time_eq_iff (as_bytes (c.sha256_base64 verifier)) (as_bytes challenge)
