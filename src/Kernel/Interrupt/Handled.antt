-- ===== src/Kernel/Interrupt/Handled.antt =====
-- What holds after an interrupt.
use osito_k.Base.{
  ℕ, ◌+◌, ◌%◌, ◌≤◌, ◌≡◌, inl, inr, refl, sym, ap, ◌∙◌, Bool, true, false, ◌&&◌, List, [], ◌∷◌,
  length, ◌==◌, if◌then◌else◌, Bool-cases,
}
use osito_k.Kernel.Task.{u32}
use osito_k.Kernel.Invariant.{IsKernel, IsLive}
use osito_k.Kernel.Sched.Keeps.{schedule-IsLive}
use osito_k.Kernel.Sched.Priority.{schedule-Scheduled}
use osito_k.Kernel.Tick.{tick_tasks}
use osito_k.Kernel.Tick.Wake.{tick_tasks-IsKernel, tick_tasks-tick_count}
use osito_k.Kernel.SwTimer.{Timers, has_expired}
use osito_k.Kernel.SwTimer.Registry.{IsRegistry}
use osito_k.Kernel.SwTimer.Settled.{call, kept, called}
use osito_k.Kernel.SwTimer.Sweep.{swtimer_tick-Swept}
use osito_k.Drivers.Ring.{filled}
use osito_k.Drivers.Uart.{uart_rx_buf_size, is_receive}
use osito_k.Drivers.Uart.Receive.{IsQueue, uart_isr_handler_lem}
use osito_k.Kernel.Interrupt.{
  World, level1_interrupt, inum_uart, inum_soft, inum_timer_frc1, is_pending, frc1_tick,
  uart_interrupt, reschedule, os_exception_handler,
}

-- What the handler relies on: a callback keeps the task table in order, and leaves the tick count and
-- the receive ring alone. That it leaves the software timers alone is in its type.
pub record IsCallback (act : ℕ → ℕ → World → World) : Type 0 where
  pub keeps_table : (cb arg : ℕ) (w : World) → IsKernel w.kernel → IsKernel (act cb arg w).kernel
  pub keeps_ticks :
      (cb arg : ℕ) (w : World) → (act cb arg w).kernel.tick_count ≡ w.kernel.tick_count
  pub keeps_uart : (cb arg : ℕ) (w : World) → (act cb arg w).uart ≡ w.uart

-- The system between two interrupts: the timers of `l` are registered, the bytes `q` wait to be read,
-- and the two names of the tick count agree.
pub record IsSystem (s : Timers World) (l q : List ℕ) : Type 0 where
  pub live : IsLive s.world.kernel
  pub registry : IsRegistry s l
  pub queue : IsQueue s.world.uart q
  pub synced : s.tick_count ≡ s.world.kernel.tick_count

-- The same without a task that runs.
record IsBetween (s : Timers World) (l q : List ℕ) (ticks : ℕ) : Type 0 where
  table : IsKernel s.world.kernel
  registry : IsRegistry s l
  queue : IsQueue s.world.uart q
  synced : s.tick_count ≡ s.world.kernel.tick_count
  counted : s.tick_count ≡ ticks

abbrev SameList : Timers World → Timers World → Type 0
SameList s s' = (s'.timer_list ≡ s.timer_list) × (s'.timer_count ≡ s.timer_count)

registered : {s s' : Timers World} {l : List ℕ} → IsRegistry s l → SameList s s' → IsRegistry s' l
registered r (a, b) = record {
  shown = rw (a, b) r.shown;
  distinct = r.distinct;
  bounded = r.bounded;
}

-- The timers that the tick looks at.
abbrev pub counted_tick : Timers World → Timers World
counted_tick s =
    let k = tick_tasks s.world.kernel in
    record s { tick_count = k.tick_count; world = record s.world { kernel = k } }

-- The bytes that wait after an interrupt.
abbrev pub queue_after : List ℕ → ℕ → ℕ → List ℕ → List ℕ
queue_after q intr status fifo =
    if is_pending intr inum_uart && is_receive status then filled uart_rx_buf_size q fifo else q

module _ (act : ℕ → ℕ → World → World) (good : IsCallback act) where
  record IsRun (w w' : World) : Type 0 where
    table : IsKernel w.kernel → IsKernel w'.kernel
    ticks : w'.kernel.tick_count ≡ w.kernel.tick_count
    same_uart : w'.uart ≡ w.uart

  called-IsRun : (s : Timers World) (w : World) (l : List ℕ) → IsRun w (called act s w l)
  called-IsRun s w [] = record { table = λ k. k; ticks = refl; same_uart = refl }
  called-IsRun s w (t ∷ l) =
      let cb = (s.timers t).callback in
      let arg = (s.timers t).arg in
      let ih = called-IsRun s (act cb arg w) l in
      let after : IsRun w (called act s (act cb arg w) l) = record {
        table = λ k. ih.table (good.keeps_table cb arg w k);
        ticks = ih.ticks ∙ good.keeps_ticks cb arg w;
        same_uart = ih.same_uart ∙ good.keeps_uart cb arg w;
      } in
      elim (Bool-cases (has_expired s t)) [
        | inr no_fire ↦ rw no_fire (called-IsRun s w l)
        | inl fires ↦ rw fires after
      ]

  frc1_tick-IsBetween :
      (rounds : ℕ) (s : Timers World) (l q : List ℕ)
      → IsSystem s l q
      → length l ≤ rounds
      → IsBetween
          (frc1_tick (call act) rounds s)
          (kept act (counted_tick s) l)
          q
          ((s.tick_count + 1) % u32)
  unfolding frc1_tick
  frc1_tick-IsBetween rounds s l q v le =
      let start = counted_tick s in
      let r = v.registry in
      let (reg, world_is, _, _, tick) =
        swtimer_tick-Swept act rounds start l (registered {s = s} {s' = start} r (refl, refl)) le in
      let run = called-IsRun start start.world l in
      let live = v.live in
      let t = tick_tasks-tick_count s.world.kernel in
      record {
        table = rw world_is (run.table (tick_tasks-IsKernel live.kernel));
        registry = reg;
        queue = rw (world_is, run.same_uart) v.queue;
        synced = tick ∙ rw world_is (sym run.ticks);
        counted = tick ∙ t ∙ ap (λ n. (n + 1) % u32) (sym v.synced);
      }

  schedule-IsSystem :
      (s : Timers World) (l q : List ℕ) (ticks : ℕ)
      → IsBetween s l q ticks
      → IsSystem (reschedule s) l q × ((reschedule s).tick_count ≡ ticks)
  unfolding reschedule
  schedule-IsSystem s l q ticks v = (
    record {
      live = schedule-IsLive v.table;
      registry = registered {s = s} {s' = reschedule s} v.registry (refl, refl);
      queue = v.queue;
      synced = v.synced ∙ sym (schedule-Scheduled v.table).same_tick;
    },
    v.counted,
  )

  uart_interrupt-IsBetween :
      (s : Timers World) (l q : List ℕ) (ticks intr status : ℕ) (fifo : List ℕ)
      → IsBetween s l q ticks
      → IsBetween
          (if is_pending intr inum_uart then uart_interrupt s status fifo else s)
          l
          (queue_after q intr status fifo)
          ticks
  unfolding uart_interrupt
  uart_interrupt-IsBetween s l q ticks intr status fifo v =
      let received : IsBetween (uart_interrupt s status fifo) l
          (if is_receive status then filled uart_rx_buf_size q fifo else q) ticks =
        record {
          table = v.table;
          registry = registered {s = s} {s' = uart_interrupt s status fifo} v.registry (refl, refl);
          queue = uart_isr_handler_lem s.world.uart q status fifo v.queue;
          synced = v.synced;
          counted = v.counted;
        } in
      elim (Bool-cases (is_pending intr inum_uart)) [ inl y ↦ rw y received | inr n ↦ rw n v ]

  soft-IsSystem :
      (s s' : Timers World) (l q : List ℕ) (soft : Bool)
      → IsBetween s' l q s.tick_count
      → IsLive s'.world.kernel
      → let s'' = if soft then reschedule s' else s' in
        IsSystem s'' l q × (s''.tick_count ≡ s.tick_count)
  soft-IsSystem s s' l q true v live = schedule-IsSystem s' l q s.tick_count v
  soft-IsSystem s s' l q false v live =
      (record { live = live; registry = v.registry; queue = v.queue; synced = v.synced }, v.counted)

  received-IsLive :
      (s : Timers World) (intr status : ℕ) (fifo : List ℕ)
      → IsLive s.world.kernel
      → IsLive (if is_pending intr inum_uart then uart_interrupt s status fifo else s).world.kernel
  unfolding uart_interrupt
  received-IsLive s intr status fifo live = elim (Bool-cases (is_pending intr inum_uart)) [
    | inl y ↦ rw y live
    | inr n ↦ rw n live
  ]

  -- `os_exception_handler` in a system in order, with callbacks that neither start nor stop nor write
  -- a software timer, keep the task table in order, and leave the tick count and the UART alone, and
  -- at least one round for each registered timer: the system is in order again, with a task that
  -- runs. An exception that is not an interrupt changes
  -- nothing. After the timer's interrupt the tick count is one more, modulo 2 ^ 32, and those timers
  -- are registered that the tick keeps; after the UART's the bytes that fit are in the receive queue,
  -- behind those that waited; otherwise these are as they were.
  pub os_exception_handler_lem :
      (rounds : ℕ) (s : Timers World) (l q : List ℕ) (exccause intr status : ℕ) (fifo : List ℕ)
      → IsSystem s l q
      → length l ≤ rounds
      → let s' = os_exception_handler (call act) rounds exccause intr status fifo s in
        let handled = exccause == level1_interrupt in
        let timer = handled && is_pending intr inum_timer_frc1 in
        IsSystem s'
          (if timer then kept act (counted_tick s) l else l)
          (if handled then queue_after q intr status fifo else q)
        × (s'.tick_count ≡ (if timer then (s.tick_count + 1) % u32 else s.tick_count))
        × (handled ≡ false → s' ≡ s)
  unfolding os_exception_handler
  os_exception_handler_lem rounds s l q exccause intr status fifo v le =
      elim (Bool-cases (exccause == level1_interrupt)) [
        | inr other ↦ rw other (v, refl, λ e. refl)
        | inl y ↦ rw y (elim (Bool-cases (is_pending intr inum_timer_frc1)) [
          | inl t ↦
              let (system, ticks) = schedule-IsSystem _ _ _ _ (
                uart_interrupt-IsBetween _ _ _ _ intr status fifo
                  (frc1_tick-IsBetween rounds s l q v le)) in
              rw t (system, ticks, λ e. cc e)
          | inr t ↦
              let (system, ticks) =
                soft-IsSystem s _ l (queue_after q intr status fifo) (is_pending intr inum_soft)
                  (uart_interrupt-IsBetween s l q s.tick_count intr status fifo (record {
                    table = v.live.kernel;
                    registry = v.registry;
                    queue = v.queue;
                    synced = v.synced;
                    counted = refl;
                  }))
                  (received-IsLive s intr status fifo v.live) in
              rw t (system, ticks, λ e. cc e)
        ])
      ]
