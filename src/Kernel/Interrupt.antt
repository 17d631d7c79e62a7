-- ===== src/Kernel/Interrupt.antt =====
-- `os_exception_handler` of src/kernel/timer_tick.c: the dispatch over the pending interrupts. The
-- cause, the pending interrupts, the UART's status and the bytes in its FIFO are arguments, since they
-- are read from the hardware. The system is the software timers with the rest as their `world`. That
-- an interrupt is acknowledged to the hardware is left out.
pub mod Handled
mod Tests
use osito_k.Base.{
  ℕ, ◌+◌, ◌*◌, ◌/◌, ◌%◌, ◌^◌, Bool, true, false, not, ◌&&◌, ◌||◌, List, ◌==◌, if◌then◌else◌,
}
use osito_k.Kernel.Task.{Kernel}
use osito_k.Kernel.Sched.{schedule}
use osito_k.Kernel.Tick.{tick_tasks}
use osito_k.Kernel.SwTimer.{Timers, swtimer_tick}
use osito_k.Drivers.Uart.{Uart, uart_isr_handler}

pub record World : Type 0 where
  pub kernel : Kernel
  pub uart : Uart

abbrev pub level1_interrupt : ℕ
level1_interrupt = 4

abbrev pub inum_uart : ℕ
inum_uart = 5

abbrev pub inum_soft : ℕ
inum_soft = 7

abbrev pub inum_timer_frc1 : ℕ
inum_timer_frc1 = 9

-- `intr & (1 << n)`
abbrev pub is_pending : ℕ → ℕ → Bool
is_pending intr n = intr / 2 ^ n % 2 == 1

unfoldable pub uart_interrupt : Timers World → ℕ → List ℕ → Timers World
uart_interrupt s status fifo = record s {
  world = record s.world { uart = uart_isr_handler s.world.uart status fifo };
}

unfoldable pub reschedule : Timers World → Timers World
reschedule s = record s { world = record s.world { kernel = schedule s.world.kernel } }

module _ (call : ℕ → ℕ → Timers World → Timers World) (rounds : ℕ) where
  -- The timer interrupt.
  unfoldable pub frc1_tick : Timers World → Timers World
  frc1_tick s =
      let k = tick_tasks s.world.kernel in
      swtimer_tick call rounds
        (record s { tick_count = k.tick_count; world = record s.world { kernel = k } })

  unfoldable pub os_exception_handler : ℕ → ℕ → ℕ → List ℕ → Timers World → Timers World
  os_exception_handler exccause intr status fifo s =
      let timer = is_pending intr inum_timer_frc1 in
      let ticked = if timer then frc1_tick s else s in
      let received =
        if is_pending intr inum_uart then uart_interrupt ticked status fifo else ticked in
      if not (exccause == level1_interrupt)
      then s
      else if timer || is_pending intr inum_soft
      then reschedule received
      else received
