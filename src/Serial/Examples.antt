-- ===== src/Serial/Examples.antt =====
-- The serial port at concrete arguments.
use deer.Base.{ℕ, ◌≡◌, refl, arith, false, List, [], ◌∷◌}
use deer.Trace.{outb}
use deer.Serial.{
  serial_init, send, serial_putc, serial_puts, hex, serial_put_hex8, serial_put_hex64,
}
use deer.Serial.Laws.{sent, ready, hex_value, put_hex64-roundtrip}

-- The first character sets the port up.
first :
    (serial_puts (b'A' ∷ 10 ∷ []) (record { is_initialized = false; trace = [] })).trace
    ≡ outb 0x3F8 10
      ∷ outb 0x3F8 13
      ∷ outb 0x3F8 b'A'
      ∷ outb 0x3FC 0x0B
      ∷ outb 0x3FA 0xC7
      ∷ outb 0x3FB 3
      ∷ outb 0x3F9 0
      ∷ outb 0x3F8 1
      ∷ outb 0x3FB 0x80
      ∷ outb 0x3F9 0
      ∷ []
unfolding serial_init send serial_putc serial_puts
first = refl

byte : serial_put_hex8 0x3F (ready []) ≡ ready (sent (b'0' ∷ b'x' ∷ b'3' ∷ b'F' ∷ []) [])
unfolding serial_put_hex8 serial_init send serial_putc serial_puts hex sent
byte = refl

put_hex64-roundtrip_example :
    (str : List ℕ) × (serial_put_hex64 0xBEEF (ready []) ≡ ready (sent (b'0' ∷ b'x' ∷ str) []))
    × (hex_value 0 str ≡ 0xBEEF)
put_hex64-roundtrip_example = put_hex64-roundtrip 0xBEEF [] (omega arith)
