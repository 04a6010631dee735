-- ===== src/Prelude/Bits.antt =====
-- `|` of disjoint bits and `&` with the masks of a byte, as arithmetic.
use Prim.Native.Nat.{
  ℕ, zero, suc, ◌+◌, ◌*◌, ◌/◌, ◌%◌, ◌^◌, ◌≤◌, ◌<◌, max, bit_and, bit_or, digits, bit_or-bitwise,
}
use mathlib.Core.Path.{◌≡◌, refl, ap, ◌∙◌}
use mathlib.Core.Bool.{Bool, true, ◌&&◌}
use native.Mathlib.Nat.{pow-suc}
use native.Mathlib.Omega.{arith}
use biei.Prelude.Tests.{◌==◌, ==_iff}

every_below : ℕ → (ℕ → Bool) → Bool
every_below zero p = true
every_below (suc n) p = p n && every_below n p

of_every_below : (n : ℕ) (p : ℕ → Bool) (x : ℕ) → every_below n p ≡ true → x < n → p x ≡ true
unfolding every_below
of_every_below zero p x h lt = absurd (omega arith)
of_every_below (suc n) p x h lt = ground (arith, of_every_below n p x)

payload_table : every_below 256 (λ b. bit_and b 0x7f == b % 128) ≡ true
unfolding every_below
payload_table = refl

more_table : every_below 256 (λ b. bit_and b 0x80 == b / 128 * 128) ≡ true
unfolding every_below
more_table = refl

pub bit_and_payload : (b : ℕ) → b < 256 → bit_and b 0x7f ≡ b % 128
bit_and_payload b h = (==_iff _ (b % 128)).0 (of_every_below 256 _ b payload_table h)

pub bit_and_more : (b : ℕ) → b < 256 → bit_and b 0x80 ≡ b / 128 * 128
bit_and_more b h = (==_iff _ (b / 128 * 128)).0 (of_every_below 256 _ b more_table h)

-- The digits of `a`, which has at most `k` of them, below those of `q`.
or_disjoint :
    (k n a q : ℕ) → a ≤ n → a < 2 ^ k → digits (λ b. b) max n a (q * 2 ^ k) ≡ a + q * 2 ^ k
or_disjoint k zero zero q enough fits = omega arith
or_disjoint k zero (suc a) q enough fits = absurd (omega arith)
or_disjoint k (suc n) zero q enough fits = omega arith
or_disjoint zero (suc n) (suc a) q enough fits = absurd (omega arith)
or_disjoint (suc k) (suc n) (suc a) q enough fits =
    let double : q * 2 ^ suc k ≡ 2 * (q * 2 ^ k) =
      omega (arith, ap (λ (t : ℕ). q * t) (pow-suc 2 k)) in
    let half : q * 2 ^ suc k / 2 ≡ q * 2 ^ k = omega arith in
    rw half
      (omega (arith, or_disjoint k n (suc a / 2) q (omega arith) (omega (arith, pow-suc 2 k))))

-- `a | (q << k)` is a sum when `a` has at most `k` bits.
pub bit_or-shifted : (a q k : ℕ) → a < 2 ^ k → bit_or a (q * 2 ^ k) ≡ a + q * 2 ^ k
bit_or-shifted a q k fits = bit_or-bitwise a (q * 2 ^ k) ∙ or_disjoint k a a q (omega arith) fits
