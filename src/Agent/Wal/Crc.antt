-- ===== src/Agent/Wal/Crc.antt =====
-- hash/crc32 with the table of Castagnoli, as internal/agent/wal.go uses it.
use Prim.Native.Nat.{bit_xor}
use traffic_forwarding_panel.Prelude.{
  ℕ, zero, suc, ◌-◌, ◌/◌, ◌%◌, ◌^◌, ◌<◌, ◌≡◌, refl, [], ◌∷◌, arith, ◌==◌, if◌then◌else◌,
}
use traffic_forwarding_panel.Prelude.Bytes.{Bytes}

-- One entry of the table: `n` bits of a remainder are shifted out.
unfoldable pub shift_out : ℕ → ℕ → ℕ
shift_out zero crc = crc
shift_out (suc n) crc = shift_out n (if crc % 2 == 1 then bit_xor (crc / 2) 0x82f63b78 else crc / 2)

unfoldable pub feed : ℕ → Bytes → ℕ
feed crc [] = crc
feed crc (b ∷ bs) = feed (bit_xor (shift_out 8 (bit_xor (crc % 256) b)) (crc / 256)) bs

abbrev pub complement : ℕ → ℕ
complement crc = 2 ^ 32 - 1 - crc

-- `crc32.Update`
unfoldable pub update : ℕ → Bytes → ℕ
update crc bs = complement (feed (complement crc) bs)

-- `crc32.Checksum`
unfoldable pub checksum : Bytes → ℕ
checksum bs = update 0 bs

pub update-lt : (crc : ℕ) (bs : Bytes) → update crc bs < 2 ^ 32
unfolding update
update-lt crc bs = omega arith

pub checksum-lt : (bs : Bytes) → checksum bs < 2 ^ 32
unfolding checksum
checksum-lt bs = update-lt 0 bs

-- The check value of CRC-32C, of the text "123456789".
check_value : checksum (49 ∷ 50 ∷ 51 ∷ 52 ∷ 53 ∷ 54 ∷ 55 ∷ 56 ∷ 57 ∷ []) ≡ 0xe3069283
unfolding checksum update feed shift_out
check_value = refl
