-- ===== src/Kernel/SwTimer/Settled.antt =====
-- What a tick does to a timer, to the list of the registered ones, and to the rest of the system.
use osito_k.Base.{ℕ, ◌+◌, ◌%◌, Bool, false, not, ◌&&◌, List, [], ◌∷◌, ◌==◌, if◌then◌else◌}
use osito_k.Kernel.Task.{u32}
use osito_k.Kernel.SwTimer.{SwTimer, Timers, swtimer_periodic, has_expired}

-- It is for the next period.
abbrev pub is_periodic : {W : Type 0} → Timers W → ℕ → Bool
is_periodic s t = (s.timers t).mode == swtimer_periodic

module _ {W : Type 0} (act : ℕ → ℕ → W → W) where
  -- A callback that works on the rest of the system alone.
  abbrev pub call : ℕ → ℕ → Timers W → Timers W
  call cb arg s = record s { world = act cb arg s.world }

  abbrev pub settled : Timers W → ℕ → SwTimer
  settled s t =
      if has_expired s t
      then (if is_periodic s t
          then record (s.timers t) { expire_tick = (s.tick_count + (s.timers t).interval) % u32 }
          else record (s.timers t) { active = false })
      else s.timers t

  -- The timers of the list that stay registered, and the rest of the system after the callbacks, in
  -- the list's order.
  abbrev pub kept : Timers W → List ℕ → List ℕ
  kept s [] = []
  kept s (t ∷ l) = if has_expired s t && not (is_periodic s t) then kept s l else t ∷ kept s l

  abbrev pub called : Timers W → W → List ℕ → W
  called s w [] = w
  called s w (t ∷ l) =
      called s (if has_expired s t then act (s.timers t).callback (s.timers t).arg w else w) l
