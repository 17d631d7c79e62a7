-- ===== src/Kernel/SwTimer/Tests.antt =====
-- Runs of the software timers, on a registry that holds the timers 3, 5 and 7.
use osito_k.Base.{
  ℕ, zero, suc, ◌≡◌, refl, true, false, List, [], ◌∷◌, All, Has, Array, ◌%◌, ◌+◌, ◌≢◌, arith,
}
use osito_k.Kernel.Task.{u32}
use osito_k.Kernel.SwTimer.{SwTimer, Timers, swtimer_start, swtimer_tick}
use osito_k.Kernel.SwTimer.Settled.{call, settled, kept, called}
use osito_k.Kernel.SwTimer.Sweep.{swtimer_tick-Swept}
use osito_k.Kernel.SwTimer.Registry.{IsRegistry, Enlisted, swtimer_start_lem}

abbrev quiet : SwTimer
quiet = record { callback = 0; arg = 0; interval = 0; expire_tick = 0; mode = 0; active = false }

abbrev listed : Array ℕ
listed zero = 3
listed (suc zero) = 5
listed (suc (suc n)) = 7

abbrev three : Timers ℕ
three = record {
  timers = λ t. quiet;
  timer_list = listed;
  timer_count = 3;
  tick_count = 100;
  world = 0;
}

three-IsRegistry : IsRegistry three (3 ∷ 5 ∷ 7 ∷ [])
three-IsRegistry = record {
  shown = refl;
  distinct = (
    ((λ e. omega (arith, e)), ((λ e. omega (arith, e)), tt)),
    (((λ e. omega (arith, e)), tt), (tt, tt)),
  );
  bounded = omega arith;
}

-- Timer 9 is new to the registry.
abbrev started : Timers ℕ
started = swtimer_start three 9 20 1

swtimer_start_lem_example :
    ((l' : List ℕ) × IsRegistry started l' × Enlisted 9 (3 ∷ 5 ∷ 7 ∷ []) l')
    × (started.timers 9
        ≡ record quiet { interval = 20; mode = 1; expire_tick = (100 + 20) % u32; active = true })
    × ((u : ℕ) → 9 ≢ u → started.timers u ≡ quiet)
swtimer_start_lem_example = swtimer_start_lem three 9 20 1 three-IsRegistry

-- The callbacks add their argument to a total. All three timers go off.
abbrev adds : ℕ → ℕ → ℕ → ℕ
adds cb arg total = total + arg

abbrev due : Timers ℕ
due = record three {
  timers =
      λ t. record quiet { arg = t; interval = 10; expire_tick = 99; mode = t % 7; active = true };
}

abbrev swept : Timers ℕ
swept = swtimer_tick (call adds) 8 due

swtimer_tick-Swept_example :
    IsRegistry swept (kept adds due (3 ∷ 5 ∷ 7 ∷ []))
    × (swept.world ≡ called adds due 0 (3 ∷ 5 ∷ 7 ∷ []))
    × ((u : ℕ) → Has u (3 ∷ 5 ∷ 7 ∷ []) → swept.timers u ≡ settled adds due u)
    × ((u : ℕ) → All (λ x. x ≢ u) (3 ∷ 5 ∷ 7 ∷ []) → swept.timers u ≡ due.timers u)
    × (swept.tick_count ≡ 100)
swtimer_tick-Swept_example =
    swtimer_tick-Swept adds 8 due (3 ∷ 5 ∷ 7 ∷ [])
      (record {
        shown = refl;
        distinct = three-IsRegistry.distinct;
        bounded = three-IsRegistry.bounded;
      })
      (omega arith)
