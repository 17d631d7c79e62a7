-- ===== src/Kernel/Interrupt/Tests.antt =====
-- An interrupt in a system of one task, one timer and a byte that waits.
use osito_k.Base.{false, ℕ, ◌+◌, ◌%◌, ◌≡◌, refl, true, [], ◌∷◌, ◌&&◌, ◌==◌, if◌then◌else◌, arith}
use osito_k.Kernel.Task.{Kernel, u32}
use osito_k.Kernel.Invariant.{IsLive}
use osito_k.Kernel.Sched.{schedule}
use osito_k.Kernel.Sched.Keeps.{schedule-IsLive}
use osito_k.Kernel.Create.{zero_tcb, sched_init, task_create}
use osito_k.Kernel.Create.Slot.{sched_init-IsKernel, task_create-Created}
use osito_k.Kernel.SwTimer.{Timers}
use osito_k.Kernel.SwTimer.Settled.{call, kept}
use osito_k.Drivers.Uart.{Uart}
use osito_k.Kernel.Interrupt.{
  World, level1_interrupt, inum_timer_frc1, is_pending, os_exception_handler,
}
use osito_k.Kernel.Interrupt.Handled.{
  IsCallback, IsSystem, counted_tick, queue_after, os_exception_handler_lem,
}

abbrev inited : Kernel
inited = sched_init 0x3ffe9000 0x40100100 0x3ffe8000 (record {
  task_pool = λ _. zero_tcb;
  current_task = 0;
  tick_count = 100;
  last_scheduled = 0;
  stack = λ _. 0xa5;
})

abbrev kernel : Kernel
kernel = schedule (task_create 0x3ffe9000 0x40100200 inited 0x3ffe8010 0x40201000 7 3).0

kernel-IsLive : IsLive kernel
kernel-IsLive =
    schedule-IsLive
      (task_create-Created 0x3ffe9000 0x40100200 inited 0x3ffe8010 0x40201000 7 3
        (sched_init-IsKernel 0x3ffe9000 0x40100100 0x3ffe8000 _)).0

abbrev uart : Uart
uart = record { rx_buf = λ i. 66; rx_head = 1; rx_tail = 0 }

-- Timer 3 is registered, for the next tick, and goes off once.
abbrev system : Timers World
system = record {
  timers = λ t. record {
    callback = 0;
    arg = 0;
    interval = 5;
    expire_tick = 101;
    mode = 0;
    active = true;
  };
  timer_list = λ _. 3;
  timer_count = 1;
  tick_count = 100;
  world = record { kernel = kernel; uart = uart };
}

-- The callback stores a byte for the tasks.
abbrev act : ℕ → ℕ → World → World
act cb arg w = record w {
  kernel = record w.kernel { stack = λ a. if a == 64 then arg else w.kernel.stack a };
}

act-IsCallback : IsCallback act
act-IsCallback = record {
  keeps_table = λ cb arg w v. record {
    current_in = v.current_in;
    last_in = v.last_in;
    idle_runnable = v.idle_runnable;
    idle_priority = v.idle_priority;
    one_running = v.one_running;
    ids = v.ids;
    awake = v.awake;
  };
  keeps_ticks = λ cb arg w. refl;
  keeps_uart = λ cb arg w. refl;
}

system-IsSystem : IsSystem system (3 ∷ []) (66 ∷ [])
unfolding schedule task_create sched_init
system-IsSystem = record {
  live = kernel-IsLive;
  registry = record { shown = refl; distinct = (tt, tt); bounded = omega arith };
  queue = record { inside = omega arith; room = omega arith; end = refl; shown = refl };
  synced = refl;
}

-- The interrupts of the timer and of the UART are pending at once.
abbrev after : Timers World
after = os_exception_handler (call act) 8 4 544 256 (67 ∷ []) system

os_exception_handler_lem_example :
    let handled = 4 == level1_interrupt in
    let timer = handled && is_pending 544 inum_timer_frc1 in
    IsSystem after
      (if timer then kept act (counted_tick system) (3 ∷ []) else 3 ∷ [])
      (if handled then queue_after (66 ∷ []) 544 256 (67 ∷ []) else 66 ∷ [])
    × (after.tick_count ≡ (if timer then (100 + 1) % u32 else 100))
    × (handled ≡ false → after ≡ system)
os_exception_handler_lem_example =
    os_exception_handler_lem act act-IsCallback 8 system (3 ∷ []) (66 ∷ []) 4 544 256 (67 ∷ [])
      system-IsSystem (omega arith)
