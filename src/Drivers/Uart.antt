-- ===== src/Drivers/Uart.antt =====
-- The UART: src/drivers/uart.cpp. What the program prints is the list of the bytes that it puts into
-- the transmit FIFO; the waits for room there, the watchdog and the registers are hardware. A string
-- is the list of its characters before the end mark.
pub mod Receive
pub mod Decimal
mod Tests
use osito_k.Base.{
  ℕ, zero, suc, ◌+◌, ◌-◌, ◌*◌, ◌/◌, ◌%◌, ◌^◌, Bool, true, false, not, ◌||◌, Option, none, some,
  List, [], ◌∷◌, ◌++◌, Array, update, window, ltb, ◌==◌, if◌then◌else◌,
}

abbrev pub uart_rx_buf_size : ℕ
uart_rx_buf_size = 64

pub record Uart : Type 0 where
  pub rx_buf : Array ℕ
  pub rx_head : ℕ
  pub rx_tail : ℕ

-- `status & (UART_RXFIFO_FULL_INT | UART_RXFIFO_TOUT_INT)`: the bits 0 and 8.
abbrev pub is_receive : ℕ → Bool
is_receive status = (status % 2 == 1) || (status / 256 % 2 == 1)

-- A byte from the FIFO goes into the ring, or is dropped.
unfoldable pub receive : Uart → ℕ → Uart
receive u byte =
    let next_head = (u.rx_head + 1) % uart_rx_buf_size in
    if next_head == u.rx_tail
    then u
    else record u { rx_buf = update u.rx_buf u.rx_head byte; rx_head = next_head }

-- The bytes that stand in the FIFO, the oldest first.
unfoldable pub receive_all : Uart → List ℕ → Uart
receive_all u [] = u
receive_all u (byte ∷ fifo) = receive_all (receive u byte) fifo

unfoldable pub uart_isr_handler : Uart → ℕ → List ℕ → Uart
uart_isr_handler u status fifo = if is_receive status then receive_all u fifo else u

-- `none` stands for -1.
unfoldable pub uart_getc : Uart → Uart × Option ℕ
uart_getc u =
    if u.rx_head == u.rx_tail
    then (u, none)
    else (record u { rx_tail = (u.rx_tail + 1) % uart_rx_buf_size }, some (u.rx_buf u.rx_tail))

unfoldable pub uart_rx_available : Uart → Bool
uart_rx_available u = not (u.rx_head == u.rx_tail)

abbrev pub uart_putc : ℕ → List ℕ
uart_putc c = c ∷ []

unfoldable pub uart_puts : List ℕ → List ℕ
uart_puts [] = []
uart_puts (c ∷ s) = (if c == 10 then uart_putc 13 else []) ++ uart_putc c ++ uart_puts s

-- The digits of `val`, the last one first, from `buf[i]` on; the number of rounds is 10, since
-- `val` is below 2 ^ 32. The second part is the `i` behind the digits.
unfoldable pub dec_loop : ℕ → Array ℕ → ℕ → ℕ → Array ℕ × ℕ
dec_loop zero buf i val = (buf, i)
dec_loop (suc n) buf i val =
    let rest = dec_loop n (update buf i (48 + val % 10)) (i + 1) (val / 10) in
    if ltb 0 val then rest else (buf, i)

-- `while (i > 0) uart_putc(buf[--i])`
unfoldable pub put_back : Array ℕ → ℕ → List ℕ
put_back buf zero = []
put_back buf (suc i) = buf i ∷ put_back buf i

-- `buf` is what stands in the local array before.
unfoldable pub uart_put_dec : Array ℕ → ℕ → List ℕ
uart_put_dec buf val =
    let r = dec_loop 10 buf 0 val in if val == 0 then uart_putc 48 else put_back r.0 r.1

-- The characters of `hex`.
abbrev pub hex : ℕ → ℕ
hex d = if ltb d 10 then 48 + d else 87 + d

-- The last `n` hexadecimal digits of `val`.
unfoldable pub hex_loop : ℕ → ℕ → List ℕ
hex_loop zero val = []
hex_loop (suc n) val = hex (val / 2 ^ (4 * n) % 16) ∷ hex_loop n val

unfoldable pub uart_put_hex : ℕ → List ℕ
uart_put_hex val = 48 ∷ 120 ∷ hex_loop 8 val

unfoldable pub uart_write_raw : Array ℕ → ℕ → List ℕ
uart_write_raw buf len = window buf 0 len
