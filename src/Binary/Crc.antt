-- ===== src/Binary/Crc.antt =====
-- hash/crc32: ChecksumIEEE, bit by bit, with the reversed polynomial 0xedb88320.
use hcdb.Prelude.{
  ℕ, zero, suc, ◌/◌, ◌%◌, ◌^◌, ◌<◌, ◌≡◌, refl, arith, [], ◌∷◌, bit_xor, ◌==◌, if◌then◌else◌,
}
use hcdb.Binary.{Bytes}

abbrev polynomial : ℕ
polynomial = 0xedb88320

-- n steps of the shift register.
shift_register : ℕ → ℕ → ℕ
shift_register zero c = c
shift_register (suc n) c =
    shift_register n (if c % 2 == 1 then bit_xor (c / 2) polynomial else c / 2)

crc_update : ℕ → Bytes → ℕ
unfolding shift_register
crc_update c [] = c
crc_update c (b ∷ bs) = crc_update (shift_register 8 (bit_xor c b)) bs

-- A uint32.
pub checksum_ieee : Bytes → ℕ
unfolding crc_update
checksum_ieee bs = bit_xor (crc_update 0xffff_ffff bs) 0xffff_ffff % 2 ^ 32

pub checksum_ieee-lt : (bs : Bytes) → checksum_ieee bs < 2 ^ 32
unfolding checksum_ieee
checksum_ieee-lt bs = omega arith

-- The check value of the algorithm, on the text 123456789.
check_value : checksum_ieee (49 ∷ 50 ∷ 51 ∷ 52 ∷ 53 ∷ 54 ∷ 55 ∷ 56 ∷ 57 ∷ []) ≡ 0xcbf43926
unfolding checksum_ieee
check_value = refl
