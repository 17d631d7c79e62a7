-- ===== src/Drivers/Uart/Receive.antt =====
-- The receive ring as a queue of bytes.
use osito_k.Base.{
  ℕ, ◌+◌, ◌%◌, ◌<◌, ◌≡◌, ◌⊎◌, inl, inr, refl, sym, ◌∙◌, subst, true, false, none, some, List, [],
  ◌∷◌, ◌++◌, length, ◌==◌, if◌then◌else◌, Bool-cases, arith,
}
use osito_k.Drivers.Ring.{
  IsRing, IsRing-full, IsRing-push, IsRing-empty, IsRing-pop, filled, filled-full, filled-room,
  filled-nothing,
}
use osito_k.Drivers.Uart.{
  Uart, uart_rx_buf_size, is_receive, receive, receive_all, uart_isr_handler, uart_getc,
  uart_rx_available,
}

-- The bytes that wait to be read.
abbrev pub IsQueue : Uart → List ℕ → Type 0
IsQueue u q = IsRing uart_rx_buf_size u.rx_buf u.rx_head u.rx_tail q

receive_lem :
    (u : Uart) (q : List ℕ) (byte : ℕ)
    → IsQueue u q
    → (IsQueue (receive u byte) q × (length q + 1 ≡ uart_rx_buf_size))
      ⊎ (IsQueue (receive u byte) (q ++ byte ∷ []) × (length q + 1 < uart_rx_buf_size))
unfolding receive
receive_lem u q byte v = elim (Bool-cases ((u.rx_head + 1) % uart_rx_buf_size == u.rx_tail)) [
  | inl y ↦
      inl (rw y v, IsRing-full uart_rx_buf_size u.rx_buf u.rx_head u.rx_tail q v (ground arith))
  | inr n ↦
      let pushed =
        IsRing-push uart_rx_buf_size u.rx_buf u.rx_head u.rx_tail q byte v (λ e. ground arith) in
      inr (rw n pushed.1, pushed.0)
]

receive_all_lem :
    (u : Uart) (q fifo : List ℕ)
    → IsQueue u q
    → IsQueue (receive_all u fifo) (filled uart_rx_buf_size q fifo)
unfolding receive_all
receive_all_lem u q [] v = subst (IsQueue u) (sym (filled-nothing uart_rx_buf_size q)) v
receive_all_lem u q (byte ∷ fifo) v = elim (receive_lem u q byte v) [
  | inl (w, full) ↦
      subst (IsQueue (receive_all (receive u byte) fifo))
        (filled-full uart_rx_buf_size q fifo full
          ∙ sym (filled-full uart_rx_buf_size q (byte ∷ fifo) full))
        (receive_all_lem (receive u byte) q fifo w)
  | inr (w, room) ↦
      subst (IsQueue (receive_all (receive u byte) fifo))
        (sym (filled-room uart_rx_buf_size q byte fifo room))
        (receive_all_lem (receive u byte) (q ++ byte ∷ []) fifo w)
]

-- When `uart_isr_handler` runs on a ring that holds `q`: if a receive interrupt is pending, the ring
-- holds `q` and behind it, in their order, as many of the bytes from the FIFO as there is room for
-- with 63 in all, and the later ones are dropped; otherwise it holds `q`.
pub uart_isr_handler_lem :
    (u : Uart) (q : List ℕ) (status : ℕ) (fifo : List ℕ)
    → IsQueue u q
    → IsQueue
        (uart_isr_handler u status fifo)
        (if is_receive status then filled uart_rx_buf_size q fifo else q)
unfolding uart_isr_handler
uart_isr_handler_lem u q status fifo v = elim (Bool-cases (is_receive status)) [
  | inl y ↦ rw y (receive_all_lem u q fifo v)
  | inr n ↦ rw n v
]

-- `uart_getc` on a ring that holds `q`: if `q` is empty, it reports so and changes nothing, and
-- `uart_rx_available` says no; otherwise `uart_rx_available` says yes, and `uart_getc` returns the
-- oldest byte and leaves the others.
pub uart_getc_lem :
    (u : Uart) (q : List ℕ)
    → IsQueue u q
    → ((q ≡ []) × (uart_getc u ≡ (u, none)) × (uart_rx_available u ≡ false))
      ⊎ ((byte : ℕ) × (rest : List ℕ) × ((q ≡ byte ∷ rest)
            × ((uart_getc u).1 ≡ some byte)
            × IsQueue (uart_getc u).0 rest
            × (uart_rx_available u ≡ true)))
unfolding uart_getc uart_rx_available
uart_getc_lem u q v = elim (Bool-cases (u.rx_head == u.rx_tail)) [
  | inl y ↦ inl (
      rw y
        (IsRing-empty uart_rx_buf_size u.rx_buf u.rx_head u.rx_tail q v (ground arith), refl, refl))
  | inr n ↦
      let (rest, e, w) =
        IsRing-pop uart_rx_buf_size u.rx_buf u.rx_head u.rx_tail q v (λ e. ground arith) in
      inr (u.rx_buf u.rx_tail, rest, rw n (e, refl, w, refl))
]
