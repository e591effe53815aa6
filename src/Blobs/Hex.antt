-- ===== src/Blobs/Hex.antt =====
-- Identifiers in hexadecimal (aeon-store/src/store.rs).
use aeon_flow.Base.{
  ℕ, ◌+◌, ◌*◌, ◌/◌, ◌%◌, ◌<◌, ◌≡◌, refl, ==_iff, true, false, some, [], ◌∷◌, arith, ◌==◌, length,
  AreBytes, ok,
}
use aeon_flow.Blobs.{
  Cid, hex_digit, hex_cid, from_digit, from_str_radix, parse_chunks, parse_cid_hex,
}

from_digit-hex_digit : (d : ℕ) → d < 16 → from_digit (hex_digit d) ≡ some d
from_digit-hex_digit d l = ground arith

hex_digit_sign : (d : ℕ) → (hex_digit d == 43) ≡ false
hex_digit_sign d = ground arith

from_str_radix-hex :
    (b : ℕ) → b < 256 → from_str_radix (hex_digit (b / 16)) (hex_digit (b % 16)) ≡ some b
from_str_radix-hex b l =
    let whole : 16 * (b / 16) + b % 16 ≡ b = omega arith in
    rw (
      hex_digit_sign (b / 16),
      from_digit-hex_digit (b / 16) (omega arith),
      from_digit-hex_digit (b % 16) (omega arith),
      whole,
    )

length-hex_cid : (cid : Cid) → length (hex_cid cid) ≡ 2 * length cid
unfolding hex_cid
length-hex_cid [] = omega arith
length-hex_cid (b ∷ bs) = omega (arith, length-hex_cid bs)

parse_chunks-hex_cid : (cid : Cid) → AreBytes cid → parse_chunks (hex_cid cid) ≡ ok cid
unfolding hex_cid parse_chunks
parse_chunks-hex_cid [] a = refl
parse_chunks-hex_cid (b ∷ bs) a = rw (from_str_radix-hex b a.0, parse_chunks-hex_cid bs a.1)

-- An identifier of 32 bytes reads back from its 64 digits.
pub parse_cid_hex-hex_cid :
    (cid : Cid) → length cid ≡ 32 → AreBytes cid → parse_cid_hex (hex_cid cid) ≡ ok cid
unfolding parse_cid_hex
parse_cid_hex-hex_cid cid l a =
    let n : (length (hex_cid cid) == 64) ≡ true =
      (==_iff _ _).1 (omega (arith, length-hex_cid cid)) in
    rw n (parse_chunks-hex_cid cid a)
