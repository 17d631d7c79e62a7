-- ===== src/Kernel/SwTimer.antt =====
-- Software timers: src/kernel/timer_sw.cpp and timer_sw.h. A timer is named by its address. The
-- callbacks are code of the clients, so what they do is a parameter; `world` is the state that they
-- work on.
pub mod Registry
pub mod Settled
pub mod Round
pub mod Sweep
mod Tests
use osito_k.Base.{
  ℕ, zero, suc, ◌+◌, ◌-◌, ◌%◌, ◌^◌, Bool, true, false, not, ◌&&◌, Option, none, some, Array, update,
  ltb, ◌==◌, if◌then◌else◌, first_index,
}
use osito_k.Kernel.Task.{u32}
use osito_k.Kernel.Tick.{is_past}
use osito_k.Kernel.Sem.{shift_down}

abbrev pub swtimer_max : ℕ
swtimer_max = 8

abbrev pub swtimer_oneshot : ℕ
swtimer_oneshot = 0

abbrev pub swtimer_periodic : ℕ
swtimer_periodic = 1

-- `swtimer_t`
pub record SwTimer : Type 0 where
  pub callback : ℕ
  pub arg : ℕ
  pub interval : ℕ
  pub expire_tick : ℕ
  pub mode : ℕ
  pub active : Bool

pub record Timers (W : Type 0) : Type 0 where
  pub timers : Array SwTimer
  pub timer_list : Array ℕ
  pub timer_count : ℕ
  pub tick_count : ℕ
  pub world : W

module _ {W : Type 0} where
  unfoldable pub swtimer_init : Timers W → ℕ → ℕ → ℕ → Timers W
  swtimer_init s t cb arg = record s {
    timers = update s.timers t (record {
      callback = cb;
      arg = arg;
      interval = 0;
      expire_tick = 0;
      mode = swtimer_oneshot;
      active = false;
    });
  }

  -- The search of `swtimer_register` and `swtimer_unregister`.
  unfoldable pub find_timer : Timers W → ℕ → Option ℕ
  find_timer s t = first_index s.timer_count (λ i. s.timer_list i == t) 0

  unfoldable pub register_found : Timers W → ℕ → Option ℕ → Timers W
  register_found s t (some i) = s
  register_found s t none =
      if ltb s.timer_count swtimer_max
      then record s {
        timer_list = update s.timer_list s.timer_count t;
        timer_count = s.timer_count + 1;
      }
      else s

  unfoldable pub swtimer_register : Timers W → ℕ → Timers W
  swtimer_register s t = register_found s t (find_timer s t)

  -- The timers behind the one at `i` move down.
  unfoldable pub unregister_found : Timers W → Option ℕ → Timers W
  unregister_found s none = s
  unregister_found s (some i) = record s {
    timer_list = shift_down (s.timer_count - 1 - i) (i + 1) s.timer_list;
    timer_count = s.timer_count - 1;
  }

  unfoldable pub swtimer_unregister : Timers W → ℕ → Timers W
  swtimer_unregister s t = unregister_found s (find_timer s t)

  unfoldable pub swtimer_start : Timers W → ℕ → ℕ → ℕ → Timers W
  swtimer_start s t ticks mode =
      swtimer_register
        (record s {
          timers = update s.timers t (record (s.timers t) {
            interval = ticks;
            mode = mode;
            expire_tick = (s.tick_count + ticks) % u32;
            active = true;
          });
        })
        t

  -- `t->active = 0`
  abbrev pub deactivate : Timers W → ℕ → Timers W
  deactivate s t = record s { timers = update s.timers t (record (s.timers t) { active = false }) }

  unfoldable pub swtimer_stop : Timers W → ℕ → Timers W
  swtimer_stop s t = swtimer_unregister (deactivate s t) t

  -- `t->expire_tick = tick_count + t->interval`
  abbrev pub reload : Timers W → ℕ → Timers W
  reload s t = record s {
    timers =
        update s.timers t
          (record (s.timers t) { expire_tick = (s.tick_count + (s.timers t).interval) % u32 });
  }

  abbrev pub has_expired : Timers W → ℕ → Bool
  has_expired s t = (s.timers t).active && is_past s.tick_count (s.timers t).expire_tick

  module _ (call : ℕ → ℕ → Timers W → Timers W) where
    -- A timer that has expired: its callback runs, and it is reloaded or removed. The second part is
    -- the index to go on with.
    unfoldable pub fire : Timers W → ℕ → ℕ → Timers W × ℕ
    fire s t i =
        let s' = call (s.timers t).callback (s.timers t).arg s in
        if (s'.timers t).mode == swtimer_periodic
        then (reload s' t, i + 1)
        else (swtimer_unregister (deactivate s' t) t, i)

    unfoldable pub tick_round : Timers W → ℕ → Timers W × ℕ
    tick_round s i =
        if has_expired s (s.timer_list i) then fire s (s.timer_list i) i else (s, i + 1)

    unfoldable pub tick_loop : ℕ → Timers W → ℕ → Timers W
    tick_loop zero s i = s
    tick_loop (suc n) s i =
        let rest = tick_loop n (tick_round s i).0 (tick_round s i).1 in
        if ltb i s.timer_count then rest else s

    -- With at most `rounds` rounds of the loop.
    unfoldable pub swtimer_tick : ℕ → Timers W → Timers W
    swtimer_tick rounds s = tick_loop rounds s 0

  unfoldable pub swtimer_active_count : Timers W → ℕ
  swtimer_active_count s = s.timer_count
