-- ===== src/Skl/Packed.antt =====
-- The packed place of a value.
use badger_rs.Common.{ℕ, ◌+◌, ◌*◌, ◌/◌, ◌%◌, ◌^◌, ◌<◌}
use badger_rs.Common.{◌≡◌, refl, arith}
use badger_rs.Skl.{encode_value, decode_value}

-- Unpacking a packed offset and size, which fit 32 and 16 bits, gives them back, and the word fits
-- 64 bits.
pub decode-encode_value :
    (offset size : ℕ)
    → offset < 2 ^ 32
    → size < 2 ^ 16
    → (decode_value (encode_value offset size) ≡ (offset, size))
      × (encode_value offset size < 2 ^ 64)
unfolding decode_value encode_value
decode-encode_value offset size h k =
    let low : (size * 2 ^ 32 + offset) % 2 ^ 32 ≡ offset = omega (arith, h) in
    let high : (size * 2 ^ 32 + offset) / 2 ^ 32 % 2 ^ 16 ≡ size = omega (arith, h, k) in
    (rw (low, high) refl, omega (arith, h, k))
