-- ===== src/Escl/Uuid.antt =====
-- `GenerateUUID`. The 32 random bytes are an argument.
use virtual_usb_printer.Common.{
  ℕ, suc, ◌+◌, ◌-◌, ◌%◌, Bool, ◌||◌, [], ◌∷◌, leb, ◌==◌, if◌then◌else◌, Bytes,
}

-- `val` of the round `i`. The variant keeps two random bits: bit 2 is cleared and bit 3 set.
unfoldable pub digit_value : ℕ → ℕ → ℕ
digit_value i byte =
    let val = byte % 16 in if i == 12 then 4 else if i == 16 then val % 4 + 8 else val

unfoldable pub hex_digit : ℕ → ℕ
hex_digit val = if leb val 9 then b'0' + val else b'a' + (val - 10)

abbrev starts_group : ℕ → Bool
starts_group i = i == 8 || (i == 12 || (i == 16 || i == 20))

-- The loop from the round `i` on.
unfoldable pub uuid_from : ℕ → Bytes → Bytes
unfolding digit_value hex_digit
uuid_from i [] = []
uuid_from i (byte ∷ bytes) =
    let rest = uuid_from (suc i) bytes in
    let digit = hex_digit (digit_value i byte) in
    if starts_group i then b'-' ∷ digit ∷ rest else digit ∷ rest

unfoldable pub generate_uuid : Bytes → Bytes
unfolding uuid_from
generate_uuid bytes = uuid_from 0 bytes
