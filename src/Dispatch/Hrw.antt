-- ===== src/Dispatch/Hrw.antt =====
-- crates/biei-core/src/hrw.rs, with `splitmix64_finalize` of crates/mmpf-common/src/rng.rs. The
-- bytes of a string are those that `as_bytes` of the standard library gives.
use Prim.Native.Nat.{bit_xor}
use Prim.Native.String.{String}
use biei.Prelude.{ℕ, ◌*◌, ◌/◌, ◌^◌, ◌%◌, List, [], ◌∷◌}
use biei.Workers.Profile.{RenderMode, static_image, tile_image, Scale, x1, x2, WorkerProfile}

-- `u64::wrapping_mul`.
abbrev pub wrapping_mul : ℕ → ℕ → ℕ
wrapping_mul a b = a * b % 2 ^ 64

abbrev shifted_xor : ℕ → ℕ → ℕ
shifted_xor value shift = bit_xor value (value / 2 ^ shift)

unfoldable pub splitmix64_finalize : ℕ → ℕ
splitmix64_finalize value =
    let first = wrapping_mul (shifted_xor value 30) 0xbf58476d1ce4e5b9 in
    let second = wrapping_mul (shifted_xor first 27) 0x94d049bb133111eb in shifted_xor second 31

unfoldable pub fnv1a_continue : ℕ → List ℕ → ℕ
fnv1a_continue h [] = h
fnv1a_continue h (b ∷ bytes) = fnv1a_continue (wrapping_mul (bit_xor h b) 0x100000001b3) bytes

abbrev pub fnv1a : List ℕ → ℕ
fnv1a bytes = fnv1a_continue 0xcbf29ce484222325 bytes

abbrev pub mode_byte : RenderMode → ℕ
mode_byte static_image = 115
mode_byte tile_image = 116

abbrev pub scale_byte : Scale → ℕ
scale_byte x1 = 49
scale_byte x2 = 50

unfoldable pub fnv1a_profile : (String → List ℕ) → WorkerProfile → ℕ
fnv1a_profile as_bytes profile =
    let style = fnv1a (as_bytes profile.style.id) in
    let mode =
      fnv1a_continue (fnv1a_continue style (0 ∷ [])) (mode_byte profile.render_mode ∷ []) in
    fnv1a_continue (fnv1a_continue mode (0 ∷ [])) (scale_byte profile.scale ∷ [])

-- The version of the style is no part of the weight.
unfoldable pub hrw_weight : (String → List ℕ) → WorkerProfile → String → ℕ
hrw_weight as_bytes profile node =
    let h = wrapping_mul (fnv1a_profile as_bytes profile) 0x9e3779b97f4a7c15 in
    splitmix64_finalize (bit_xor h (wrapping_mul (fnv1a (as_bytes node)) 0xbf58476d1ce4e5b9))
