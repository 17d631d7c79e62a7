-- ===== src/Drivers/Uart/Tests.antt =====
-- Runs of the UART, on a ring with two bytes that goes round its end.
use osito_k.Base.{ℕ, ◌≡◌, refl, List, [], ◌∷◌, Array, All, ◌==◌, if◌then◌else◌, arith}
use osito_k.Drivers.Ring.{filled}
use osito_k.Drivers.Uart.{
  Uart, uart_rx_buf_size, is_receive, uart_isr_handler, uart_put_dec, uart_put_hex, uart_puts,
  put_back, dec_loop, hex_loop,
}
use osito_k.Drivers.Uart.Receive.{IsQueue, uart_isr_handler_lem}
use osito_k.Drivers.Uart.Decimal.{IsDigit, decimal, uart_put_dec_lem}

abbrev two : Uart
two = record { rx_buf = λ i. if i == 63 then 65 else 66; rx_head = 1; rx_tail = 63 }

abbrev waiting : List ℕ
waiting = 65 ∷ 66 ∷ []

two-IsQueue : IsQueue two waiting
two-IsQueue = record { inside = omega arith; room = omega arith; end = refl; shown = refl }

abbrev zeros : Array ℕ
zeros i = 0

prints : uart_put_dec zeros 1048 ≡ 49 ∷ 48 ∷ 52 ∷ 56 ∷ []
unfolding uart_put_dec put_back dec_loop
prints = refl

prints_hex : uart_put_hex 48879 ≡ 48 ∷ 120 ∷ 48 ∷ 48 ∷ 48 ∷ 48 ∷ 98 ∷ 101 ∷ 101 ∷ 102 ∷ []
unfolding uart_put_hex hex_loop
prints_hex = refl

prints_line : uart_puts (79 ∷ 10 ∷ []) ≡ 79 ∷ 13 ∷ 10 ∷ []
unfolding uart_puts
prints_line = refl

uart_isr_handler_lem_example :
    IsQueue
      (uart_isr_handler two 256 (67 ∷ 68 ∷ []))
      (if is_receive 256 then filled uart_rx_buf_size waiting (67 ∷ 68 ∷ []) else waiting)
uart_isr_handler_lem_example = uart_isr_handler_lem two waiting 256 (67 ∷ 68 ∷ []) two-IsQueue

uart_put_dec_lem_example :
    All IsDigit (uart_put_dec zeros 1048) × (decimal 0 (uart_put_dec zeros 1048) ≡ 1048)
uart_put_dec_lem_example = uart_put_dec_lem zeros 1048 (omega arith)
