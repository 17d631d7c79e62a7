-- ===== src/Kernel/SwTimer/Sweep.antt =====
-- What a tick does to the registered timers, when the callbacks leave the timers alone.
use osito_k.Base.{
  ℕ, zero, suc, ◌≤◌, ◌≡◌, ◌≢◌, inl, inr, refl, ap, ◌∙◌, subst, true, false, List, [], ◌∷◌, ◌++◌,
  length, length-window, length-append, All, Has, ltb, arith,
}
use osito_k.Kernel.SwTimer.{Timers, tick_round, tick_loop, swtimer_tick}
use osito_k.Kernel.SwTimer.Registry.{IsRegistry}
use osito_k.Kernel.SwTimer.Settled.{call, settled, kept, called}
use osito_k.Kernel.SwTimer.Round.{IsAhead, at_index, others_differ, round_lem}

module _ {W : Type 0} (act : ℕ → ℕ → W → W) where
  -- `s'` is `s` after the timers of `l` have been looked at, in front of which `pre` stand.
  record Swept (s s' : Timers W) (pre l : List ℕ) (original : Timers W) : Type 0 where
    registry : IsRegistry s' (pre ++ kept act original l)
    world_after : s'.world ≡ called act original s.world l
    inside : (u : ℕ) → Has u l → s'.timers u ≡ settled act original u
    outside : (u : ℕ) → All (λ x. x ≢ u) l → s'.timers u ≡ s.timers u
    same_tick : s'.tick_count ≡ s.tick_count

  front_count :
      (s : Timers W) (pre : List ℕ)
      → IsRegistry s (pre ++ [])
      → ltb (length pre) s.timer_count ≡ false
  front_count s pre r =
      let e = ap length r.shown in
      let n = length-window s.timer_list 0 s.timer_count in
      let a = length-append pre [] in
      let c : s.timer_count ≡ length pre = omega (arith, e, n, a) in ground arith

  tick_loop-Swept :
      (n : ℕ) (s original : Timers W) (pre l : List ℕ)
      → length l ≤ n
      → IsAhead act s original pre l
      → Swept s (tick_loop (call act) n s (length pre)) pre l original
  unfolding tick_loop
  tick_loop-Swept zero s original pre [] le v = record {
    registry = v.registry;
    world_after = refl;
    inside = λ u m. absurd m;
    outside = λ u h. refl;
    same_tick = refl;
  }
  tick_loop-Swept zero s original pre (t ∷ rest) le v = absurd (omega arith)
  tick_loop-Swept (suc n) s original pre [] le v = rw (front_count s pre v.registry) (record {
    registry = v.registry;
    world_after = refl;
    inside = λ u m. absurd m;
    outside = λ u h. refl;
    same_tick = refl;
  })
  tick_loop-Swept (suc n) s original pre (t ∷ rest) le v =
      let (s', i) = tick_round (call act) s (length pre) in
      let r = round_lem act s original pre t rest v in
      let swept = tick_loop-Swept n s' original r.front rest (omega arith) r.ahead in
      let more : ltb (length pre) s.timer_count ≡ true =
        (let (_, lt) = at_index act s original pre t rest v in ground arith) in
      let differ = others_differ act s original pre t rest v in
      rw (more, r.goes_on)
        (record {
          registry = subst (IsRegistry _) r.keeps swept.registry;
          world_after = swept.world_after ∙ ap (λ w. called act original w rest) r.world_after;
          inside = λ u m. elim m [
            | inl e ↦ rw (← e) (swept.outside t differ ∙ r.settles)
            | inr m' ↦ swept.inside u m'
          ];
          outside = λ u h. swept.outside u h.1 ∙ r.others u h.0;
          same_tick = swept.same_tick ∙ r.tick_stays;
        })

-- `swtimer_tick` on a registry in order, with callbacks that leave the timers alone, and at least one
-- round for each registered timer: the callback of each timer that has expired runs once, in the order
-- of the registry. Such a timer is reloaded from the present tick if it is periodic; otherwise it is
-- inactive and leaves the registry, in which the others keep their order. No other timer changes.
pub swtimer_tick-Swept :
    {W : Type 0} (act : ℕ → ℕ → W → W) (rounds : ℕ) (s : Timers W) (l : List ℕ)
    → IsRegistry s l
    → length l ≤ rounds
    → let s' = swtimer_tick (call act) rounds s in
      IsRegistry s' (kept act s l)
      × (s'.world ≡ called act s s.world l)
      × ((u : ℕ) → Has u l → s'.timers u ≡ settled act s u)
      × ((u : ℕ) → All (λ x. x ≢ u) l → s'.timers u ≡ s.timers u)
      × (s'.tick_count ≡ s.tick_count)
unfolding swtimer_tick
swtimer_tick-Swept act rounds s l v le =
    let swept =
      tick_loop-Swept act rounds s s [] l le
        (record { registry = v; same_tick = refl; same_timers = λ u m. refl }) in
    (swept.registry, swept.world_after, swept.inside, swept.outside, swept.same_tick)
