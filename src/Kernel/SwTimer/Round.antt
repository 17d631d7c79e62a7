-- ===== src/Kernel/SwTimer/Round.antt =====
-- One round of the loop of `swtimer_tick`.
use osito_k.Base.{
  ℕ, zero, suc, ◌+◌, ◌%◌, ◌≤◌, ◌<◌, ◌≡◌, ◌≢◌, inl, inr, refl, sym, ap, ap₂, ◌∙◌, subst, true, false,
  not, ◌&&◌, List, [], ◌∷◌, ◌++◌, Array, update_self, update_ne, window, length, length-append, All,
  All-Has, Has, Distinct, erase, erase-append, ◌==◌, if◌then◌else◌, Bool-cases, arith,
}
use mathlib.Core.List.{append_assoc}
use osito_k.Kernel.Tick.{is_past}
use osito_k.Kernel.Task.{u32}
use osito_k.Kernel.SwTimer.{
  SwTimer, Timers, swtimer_max, swtimer_periodic, swtimer_unregister, find_timer, deactivate,
  reload, has_expired, fire, tick_round,
}
use osito_k.Kernel.SwTimer.Registry.{
  IsRegistry, swtimer_unregister-IsRegistry, unregister-timers, unregister-tick, unregister-world,
}
use osito_k.Kernel.SwTimer.Settled.{call, is_periodic, settled, kept}

window_at :
    (w : Array ℕ) (i n : ℕ) (pre : List ℕ) (t : ℕ) (rest : List ℕ)
    → window w i n ≡ pre ++ t ∷ rest
    → (w (i + length pre) ≡ t) × (length pre < n)
window_at w i zero [] t rest e = cc e
window_at w i zero (x ∷ pre) t rest e = cc e
window_at w i (suc n) [] t rest e = let q : i + 0 ≡ i = omega arith in (rw q (cc e), omega arith)
window_at w i (suc n) (x ∷ pre) t rest e =
    let (h, lt) = window_at w (i + 1) n pre t rest (cc e) in
    let q : i + 1 + length pre ≡ i + suc (length pre) = omega arith in (rw q at h, omega arith)

Distinct-middle :
    (pre : List ℕ) (t : ℕ) (rest : List ℕ)
    → Distinct (pre ++ t ∷ rest)
    → All (λ x. x ≢ t) pre × All (λ x. x ≢ t) rest
Distinct-middle [] t rest d = (tt, d.0)
Distinct-middle (x ∷ pre) t rest d =
    let (before, behind) = Distinct-middle pre t rest d.1 in
    ((λ e. middle pre d.0 (sym e), before), behind)
  where
    middle : (xs : List ℕ) → All (λ y. y ≢ x) (xs ++ t ∷ rest) → t ≢ x
    middle [] h = h.0
    middle (y ∷ ys) h = middle ys h.1

module _ {W : Type 0} (act : ℕ → ℕ → W → W) where
  -- Nothing has happened yet to the timers of the list.
  pub record IsAhead (s original : Timers W) (pre l : List ℕ) : Type 0 where
    pub registry : IsRegistry s (pre ++ l)
    pub same_tick : s.tick_count ≡ original.tick_count
    pub same_timers : (u : ℕ) → Has u l → s.timers u ≡ original.timers u

  module _ (s original : Timers W) (pre : List ℕ) (t : ℕ) (rest : List ℕ)
      (v : IsAhead s original pre (t ∷ rest)) where
    pub at_index : (s.timer_list (length pre) ≡ t) × (length pre < s.timer_count)
    at_index =
        let r = v.registry in
        let (h, lt) = window_at s.timer_list 0 s.timer_count pre t rest r.shown in
        let z : 0 + length pre ≡ length pre = omega arith in (rw z at h, lt)

    same_t : s.timers t ≡ original.timers t
    same_t = v.same_timers t (inl refl)

    same_expired : has_expired s t ≡ has_expired original t
    same_expired = ap₂ (λ (x : SwTimer) n. x.active && is_past n x.expire_tick) same_t v.same_tick

    same_periodic : is_periodic s t ≡ is_periodic original t
    same_periodic = ap (λ (x : SwTimer). x.mode == swtimer_periodic) same_t

    pub others_differ : All (λ x. x ≢ t) rest
    others_differ = let r = v.registry in (Distinct-middle pre t rest r.distinct).1

    -- The timer at the index is passed: `s'` has changed that timer at most, and keeps it.
    passed :
        (s' : Timers W)
        → s'.timer_list ≡ s.timer_list
        → s'.timer_count ≡ s.timer_count
        → s'.tick_count ≡ s.tick_count
        → ((u : ℕ) → t ≢ u → s'.timers u ≡ s.timers u)
        → IsAhead s' original (pre ++ t ∷ []) rest
    passed s' same_list same_count tick others =
        let r = v.registry in
        let again : pre ++ t ∷ rest ≡ (pre ++ t ∷ []) ++ rest =
          sym (append_assoc pre (t ∷ []) rest) in
        record {
          registry = record {
            shown = rw (same_list, same_count) (r.shown ∙ again);
            distinct = subst Distinct again r.distinct;
            bounded = subst (λ l. length l ≤ swtimer_max) again r.bounded;
          };
          same_tick = tick ∙ v.same_tick;
          same_timers = λ u m.
              let ne : t ≢ u = λ e. All-Has (λ x. x ≢ t) u rest others_differ m (sym e) in
              others u ne ∙ v.same_timers u (inr m);
        }

    -- What a round has done, from `s` to `s'`, and where the next one goes on.
    pub record Round (s' : Timers W) (i : ℕ) : Type 0 where
      pub front : List ℕ
      pub ahead : IsAhead s' original front rest
      pub goes_on : i ≡ length front
      pub keeps : front ++ kept act original rest ≡ pre ++ kept act original (t ∷ rest)
      pub world_after : s'.world ≡ (
          if has_expired original t
          then act (original.timers t).callback (original.timers t).arg s.world
          else s.world)
      pub settles : s'.timers t ≡ settled act original t
      pub others : (u : ℕ) → t ≢ u → s'.timers u ≡ s.timers u
      pub tick_stays : s'.tick_count ≡ s.tick_count

    length-front : length (pre ++ t ∷ []) ≡ length pre + 1
    length-front = length-append pre (t ∷ [])

    front_keeps :
        (has_expired original t && not (is_periodic original t)) ≡ false
        → (pre ++ t ∷ []) ++ kept act original rest ≡ pre ++ kept act original (t ∷ rest)
    front_keeps stays = rw stays (append_assoc pre (t ∷ []) (kept act original rest))

    not_fired : has_expired original t ≡ false → Round s (length pre + 1)
    not_fired no_fire = record {
      front = pre ++ t ∷ [];
      ahead = passed s refl refl refl (λ u ne. refl);
      goes_on = sym length-front;
      keeps = front_keeps (rw no_fire refl);
      world_after = rw no_fire refl;
      settles = rw no_fire same_t;
      others = λ u ne. refl;
      tick_stays = refl;
    }

    abbrev ran : Timers W
    ran = call act (s.timers t).callback (s.timers t).arg s

    fired_world :
        act (s.timers t).callback (s.timers t).arg s.world
        ≡ act (original.timers t).callback (original.timers t).arg s.world
    fired_world = ap (λ (x : SwTimer). act x.callback x.arg s.world) same_t

    reloaded :
        has_expired original t ≡ true
        → is_periodic original t ≡ true
        → Round (reload ran t) (length pre + 1)
    reloaded fires again = record {
      front = pre ++ t ∷ [];
      ahead = passed (reload ran t) refl refl refl (λ u ne. update_ne s.timers t u _ ne);
      goes_on = sym length-front;
      keeps = front_keeps (rw (fires, again) refl);
      world_after = rw fires fired_world;
      settles =
          rw (fires, again)
            (update_self s.timers t _
              ∙ ap₂ (λ (x : SwTimer) n. record x { expire_tick = (n + x.interval) % u32 }) same_t
                  v.same_tick);
      others = λ u ne. update_ne s.timers t u _ ne;
      tick_stays = refl;
    }

    abbrev stopped : Timers W
    stopped = deactivate ran t

    removed-timers : (swtimer_unregister stopped t).timers ≡ stopped.timers
    unfolding swtimer_unregister
    removed-timers = unregister-timers stopped (find_timer stopped t)

    removed-tick : (swtimer_unregister stopped t).tick_count ≡ s.tick_count
    unfolding swtimer_unregister
    removed-tick = unregister-tick stopped (find_timer stopped t)

    removed-world : (swtimer_unregister stopped t).world ≡ ran.world
    unfolding swtimer_unregister
    removed-world = unregister-world stopped (find_timer stopped t)

    removed :
        has_expired original t ≡ true
        → is_periodic original t ≡ false
        → Round (swtimer_unregister stopped t) (length pre)
    removed fires once = record {
      front = pre;
      ahead = record {
        registry = subst (IsRegistry (swtimer_unregister stopped t)) gone unregistered;
        same_tick = removed-tick ∙ v.same_tick;
        same_timers = λ u m.
            let ne : t ≢ u = λ e. All-Has (λ x. x ≢ t) u rest others_differ m (sym e) in
            ap (λ f. f u) removed-timers ∙ update_ne s.timers t u _ ne ∙ v.same_timers u (inr m);
      };
      goes_on = refl;
      keeps = rw (fires, once) refl;
      world_after = rw fires (removed-world ∙ fired_world);
      settles =
          rw (fires, once)
            (ap (λ f. f t) removed-timers
              ∙ update_self s.timers t _
              ∙ ap (λ (x : SwTimer). record x { active = false }) same_t);
      others = λ u ne. ap (λ f. f u) removed-timers ∙ update_ne s.timers t u _ ne;
      tick_stays = removed-tick;
    }
      where
        unregistered : IsRegistry (swtimer_unregister stopped t) (erase t (pre ++ t ∷ rest))
        unregistered =
            let r = v.registry in
            swtimer_unregister-IsRegistry stopped t
              (record { shown = r.shown; distinct = r.distinct; bounded = r.bounded })

        gone : erase t (pre ++ t ∷ rest) ≡ pre ++ rest
        gone =
            let r = v.registry in erase-append t pre rest (Distinct-middle pre t rest r.distinct).0

    pub round_lem :
        Round (tick_round (call act) s (length pre)).0 (tick_round (call act) s (length pre)).1
    unfolding tick_round fire
    round_lem = elim (Bool-cases (has_expired s t)) [
      | inr no_fire ↦ rw (at_index.0, no_fire) (not_fired (sym same_expired ∙ no_fire))
      | inl fires ↦ elim (Bool-cases (is_periodic s t)) [
        | inl again ↦
            rw (at_index.0, fires, again)
              (reloaded (sym same_expired ∙ fires) (sym same_periodic ∙ again))
        | inr once ↦
            rw (at_index.0, fires, once)
              (removed (sym same_expired ∙ fires) (sym same_periodic ∙ once))
      ]
    ]
