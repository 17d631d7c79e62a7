-- ===== src/Lib.antt =====
-- The kernel OsitoK for the ESP8266: its scheduler, its interrupts, its synchronisation, its
-- allocators, its file system, its drivers for the UART, the joystick and the screen, its fixed-point
-- arithmetic and its wireframe graphics.
--
-- The parts and their files:
-- - Kernel/Task, Kernel/Sched, Kernel/Create: the task table, `schedule`, and the calls that make,
--   start, delay and end a task (kernel/sched.cpp, kernel/task.h). A `Kernel` record holds the table,
--   the current task, the tick count, `last_scheduled` and the stacks. Switching to a task is a field
--   of that record, since the switch itself is assembly. Kernel/Invariant says when a table is in
--   order.
-- - Kernel/Tick: what the timer interrupt does with the tasks (kernel/timer_tick.c).
-- - Kernel/Interrupt: `os_exception_handler` of that file, which joins the tick, the software timers,
--   the UART and the scheduler. The cause, the pending interrupts and the UART's registers are
--   arguments.
-- - Kernel/Sem, Kernel/Mutex: semaphores and mutexes (kernel/sem.cpp). They put the caller to sleep
--   through the task table and call `schedule` through `task_yield`.
-- - Kernel/Mq: message queues (kernel/mq.cpp), built of two semaphores and a ring in memory. A call
--   that blocks is cut into its critical sections, and Kernel/Mq/Steps has every order of them.
-- - Kernel/SwTimer: the registry of software timers (kernel/timer_sw.cpp), with the callbacks as a
--   parameter that may change the timers. Kernel/SwTimer/Settled says what a tick does to a timer when
--   they do not, and Kernel/SwTimer/Sweep that `swtimer_tick` does so.
-- - Mem/Pool, Mem/Heap: the pool of 32-byte blocks and the first-fit heap (mem/pool_alloc.cpp,
--   mem/heap.cpp). Memory is a function from an address to the word that stands there.
--   Mem/Pool/Clients and Mem/Heap/Clients have any sequence of calls by tasks that keep to what they
--   hold.
-- - Fs: the file system (fs/ositofs.cpp). The ROM routines for the flash are the interface `Spi` of
--   Fs/Flash, with what is documented of them as `IsSpi`; the tests fill it with a flash in memory.
--   Fs/Calls has the calls on whole files, Fs/Update those that change one, and Fs/Upload the transfer
--   over the UART, whose polls are a list. Fs/Disk has any sequence of calls. A name
--   is `IsName` of Fs/Table/Strings; Fs/Calls/RoundTrip shows what becomes of one that begins with
--   the byte 0xff.
-- - Drivers/Uart, Drivers/Input: the ring that the UART interrupt fills, what the program prints, and
--   the events of the joystick (drivers/uart.cpp, drivers/input.cpp). Both rings are read through
--   Drivers/Ring.
-- - Drivers/Video: the framebuffer, with its pixels, lines and characters (drivers/video.cpp,
--   drivers/font.cpp).
-- - Gfx: the wireframe renderer and the ships (gfx/wire3d.cpp, gfx/ships.cpp). It draws with
--   Drivers/Video what Math projects.
-- - Game: the flight demo (game/game.cpp), which draws with Gfx and Drivers/Video.
-- - Math: fixed-point numbers, vectors and matrices (math/fixedpoint.cpp, math/matrix3.cpp).
-- - Base: names of the library that all parts use, tests and lists over the native numbers, arrays.
--
-- Numbers: a C integer is the natural number of its bit pattern, with the remainder by its range
-- written out. A test on a signed number is a test on the bit pattern.
--
-- Rounds of loops: a walk over the heap has 2048 rounds, and no block of its 8192 bytes is shorter
-- than 4; Mem/Heap/Rounds shows that no walk is cut short. The comparison of two names has as many
-- rounds as Fs/Table says, and Fs/Table/Strings that they suffice for a stored name.
-- The digits of a 32-bit number are at most 10. The root
-- starts at the 24th even power of two, and both its loops have 24 rounds; Math/Fixed/Root shows that
-- they suffice. The rounds of `swtimer_tick` are an argument, since a callback may restart its timer.
--
-- The loops of a line have as many rounds as the source counts. The upload ends with the list of polls.
--
-- Not modelled: boot code, the context switch, registers and waiting for the hardware, the zForth
-- interpreter with its host, the shell, and the tools for the host computer. Of the graphics,
-- the loops that show moving pictures are left out, of the file system the listing.
pub mod Base
pub mod Kernel
pub mod Mem
pub mod Fs
pub mod Drivers
pub mod Gfx
pub mod Game
pub mod Math
