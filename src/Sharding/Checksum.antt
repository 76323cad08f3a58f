-- ===== src/Sharding/Checksum.antt =====
-- hash/crc32's ChecksumIEEE, which orm/internal/sharding/strategy.go hashes keys with.
use Prim.Native.Nat.{ℕ, zero, suc, ◌+◌, ◌*◌, ◌/◌, ◌%◌}
use fyer_webframe.Base.{[], ◌∷◌, ◌==◌, if◌then◌else◌}
use fyer_webframe.Base.Text.{Text}

-- The exclusive or of the lowest bits.
unfoldable pub xor_bits : ℕ → ℕ → ℕ → ℕ
xor_bits zero a b = 0
xor_bits (suc w) a b = (a + b) % 2 + 2 * xor_bits w (a / 2) (b / 2)

-- One bit goes through the reversed polynomial.
abbrev crc_step : ℕ → ℕ
crc_step c = if c % 2 == 1 then xor_bits 32 (c / 2) 3988292384 else c / 2

unfoldable pub crc_steps : ℕ → ℕ → ℕ
crc_steps zero c = c
crc_steps (suc n) c = crc_steps n (crc_step c)

unfoldable pub crc_bytes : Text → ℕ → ℕ
crc_bytes [] c = c
crc_bytes (b ∷ bs) c = crc_bytes bs (crc_steps 8 (xor_bits 32 c b))

-- ChecksumIEEE
unfoldable pub checksum : Text → ℕ
checksum bs = xor_bits 32 (crc_bytes bs 4294967295) 4294967295
