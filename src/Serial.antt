-- ===== src/Serial.antt =====
-- kernel/src/drivers/serial.c: what the driver writes to the ports of COM1, newest first. The wait
-- for the line status only reads, and stands for the time at which it returns.
pub mod Laws
mod Examples
use deer.Base.{
  ℕ, zero, suc, ◌+◌, ◌-◌, ◌*◌, ◌/◌, ◌%◌, ◌^◌, ◌==◌, if◌then◌else◌, List, [], ◌∷◌, ltb, Bool, true,
  bit_and, u8,
}
use deer.Trace.{Trace, outb}

pub record Serial : Type 0 where
  pub is_initialized : Bool
  pub trace : Trace

abbrev pub serial_port : ℕ
serial_port = 0x3F8

unfoldable pub serial_init : Serial → Serial
serial_init s = if s.is_initialized then s else record {
  is_initialized = true;
  trace =
      outb (serial_port + 4) 0x0B
      ∷ outb (serial_port + 2) 0xC7
      ∷ outb (serial_port + 3) 0x03
      ∷ outb (serial_port + 1) 0x00
      ∷ outb serial_port 0x01
      ∷ outb (serial_port + 3) 0x80
      ∷ outb (serial_port + 1) 0x00
      ∷ s.trace;
}

-- `serial_putc` of a character that is no line feed, `\r` among them.
unfoldable pub send : (c : ℕ) → Serial → Serial
unfolding serial_init
send c s = record {
  is_initialized = (serial_init s).is_initialized;
  trace = outb serial_port c ∷ (serial_init s).trace;
}

unfoldable pub serial_putc : (c : ℕ) → Serial → Serial
unfolding send
serial_putc c s = if c == 10 then send c (send 13 s) else send c s

unfoldable pub serial_puts : List ℕ → Serial → Serial
unfolding serial_putc
serial_puts [] s = s
serial_puts (c ∷ str) s = serial_puts str (serial_putc c s)

-- `hex[digit]`
pub hex : (digit : ℕ) → ℕ
hex digit = if ltb digit 10 then b'0' + digit else b'A' + (digit - 10)

-- `for (int i = 60; i >= 0; i -= 4)`, with `left` digits to go.
pub put_digits : (left v : ℕ) → Serial → Serial
unfolding serial_putc hex
put_digits zero v s = s
put_digits (suc left) v s =
    put_digits left v (serial_putc (hex (bit_and (v / 2 ^ (4 * left)) 0xF)) s)

pub serial_put_hex64 : (v : ℕ) → Serial → Serial
unfolding serial_puts put_digits
serial_put_hex64 v s = put_digits 16 v (serial_puts (b'0' ∷ b'x' ∷ []) s)

pub serial_put_hex8 : (v : ℕ) → Serial → Serial
unfolding serial_puts serial_putc hex
serial_put_hex8 v s =
    serial_putc (hex (bit_and v 0xF))
      (serial_putc (hex (bit_and (v / 2 ^ 4) 0xF)) (serial_puts (b'0' ∷ b'x' ∷ []) s))
