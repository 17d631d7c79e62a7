-- ===== src/Kernel/Create/Slot.antt =====
-- `sched_init` and `task_create`: the table that they leave.
use native.Mathlib.Decide.{ℕ_discrete}
use osito_k.Base.{
  ℕ, zero, suc, ◌+◌, ◌≤◌, ◌<◌, ◌≡◌, ◌≢◌, refl, inl, inr, true, false, Option, none, some, Array,
  arith, Bool-cases,
}
use osito_k.Kernel.Task.{Tcb, Kernel, ready, is_free, max_tasks, task_stack_size}
use osito_k.Kernel.Invariant.{IsKernel}
use osito_k.Kernel.Create.{
  frame_of, first_frame, stack_base_of, fill_slot, free_slot, create_in, sched_init, task_create,
  ctx_size, ctx_a1, ctx_a2, ctx_a3, ctx_ps, ctx_epc1,
}
use osito_k.Kernel.Create.Frame.{IsPlaced, InStack, frame_top, first_frame_lem, first_frame_others}

-- Whatever stood there before, the table that `sched_init` leaves is in order.
pub sched_init-IsKernel :
    (stack_pool idle_func idle_name : ℕ) (k : Kernel)
    → IsKernel (sched_init stack_pool idle_func idle_name k)
unfolding sched_init
sched_init-IsKernel b f n k = record {
  current_in = omega arith;
  last_in = omega arith;
  idle_runnable = refl;
  idle_priority = refl;
  one_running = λ i hi. ground arith;
  ids = λ i hi. ground arith;
  awake = λ i hi. ground arith;
}

-- `free_slot` finds the lowest free slot of its range.
abbrev pub FirstFree : Array Tcb → ℕ → ℕ → Option ℕ → Type 0
FirstFree pool lo hi none = (j : ℕ) → lo ≤ j → j < hi → is_free (pool j).state ≡ false
FirstFree pool lo hi (some s) =
    (lo ≤ s)
    × (s < hi)
    × (is_free (pool s).state ≡ true)
    × ((j : ℕ) → lo ≤ j → j < s → is_free (pool j).state ≡ false)

free_slot-FirstFree :
    (pool : Array Tcb) (n i hi : ℕ) → i + n ≡ hi → FirstFree pool i hi (free_slot pool n i)
unfolding free_slot
free_slot-FirstFree pool zero i hi e = λ j lo h. absurd (omega arith)
free_slot-FirstFree pool (suc n) i hi e = elim (Bool-cases (is_free (pool i).state)) [
  | inl t ↦ rw t (omega arith, omega arith, t, λ j lo h. absurd (omega arith))
  | inr f ↦
      rw f
        (later (free_slot pool n (i + 1)) (free_slot-FirstFree pool n (i + 1) hi (omega arith)) f)
]
  where
    here_or_later :
        (j : ℕ)
        → i ≤ j
        → is_free (pool i).state ≡ false
        → (i + 1 ≤ j → is_free (pool j).state ≡ false)
        → is_free (pool j).state ≡ false
    here_or_later j lo f rest = elim (ℕ_discrete i j) [
      | yes e ↦ rw (← e) f
      | no ne ↦ rest (omega arith)
    ]

    later :
        (r : Option ℕ)
        → FirstFree pool (i + 1) hi r
        → is_free (pool i).state ≡ false
        → FirstFree pool i hi r
    later none all f = λ j lo h. here_or_later j lo f (λ lo'. all j lo' h)
    later (some s) (lo, h, t, all) f =
        (omega arith, h, t, λ j lo' h'. here_or_later j lo' f (λ lo''. all j lo'' h'))

-- What `task_create` did. On success: the new task stands ready in the lowest free slot but 0, and
-- the other blocks are as they were. On failure: no slot but 0 is free, and nothing changed.
abbrev pub Created : Kernel → Kernel → ℕ → Option ℕ → Type 0
Created k k' priority none =
    (k' ≡ k) × ((j : ℕ) → 1 ≤ j → j < max_tasks → is_free (k.task_pool j).state ≡ false)
Created k k' priority (some slot) =
    FirstFree k.task_pool 1 max_tasks (some slot)
    × ((k'.task_pool slot).state ≡ ready)
    × ((k'.task_pool slot).id ≡ slot)
    × ((k'.task_pool slot).priority ≡ priority)
    × ((k'.task_pool slot).ticks_run ≡ 0)
    × ((j : ℕ) → j ≢ slot → k'.task_pool j ≡ k.task_pool j)

module _ (stack_pool trampoline : ℕ) (k : Kernel) (name func arg priority : ℕ) where
  abbrev create : Kernel × Option ℕ
  create = task_create stack_pool trampoline k name func arg priority

  first_free : FirstFree k.task_pool 1 max_tasks (free_slot k.task_pool 7 1)
  first_free = free_slot-FirstFree k.task_pool 7 1 8 (omega arith)

  fill_slot-IsKernel :
      (s : ℕ)
      → IsKernel k
      → 1 ≤ s
      → s < max_tasks
      → is_free (k.task_pool s).state ≡ true
      → IsKernel (fill_slot stack_pool trampoline k s name func arg priority)
  unfolding fill_slot
  fill_slot-IsKernel s v lo hi fr = record {
    current_in = v.current_in;
    last_in = v.last_in;
    idle_runnable = ground (arith, v.idle_runnable);
    idle_priority = ground arith;
    one_running = λ i hi. ground (arith, v.one_running i);
    ids = λ i hi. ground (arith, v.ids i);
    awake = λ i hi. ground (arith, v.awake i, v.awake s);
  }

  fill_slot-Created :
      (s : ℕ)
      → FirstFree k.task_pool 1 max_tasks (some s)
      → Created k (fill_slot stack_pool trampoline k s name func arg priority) priority (some s)
  unfolding fill_slot
  fill_slot-Created s ff =
      (ff, ground arith, ground arith, ground arith, ground arith, λ j ne. ground arith)

  create_in-Created :
      IsKernel k
      → (r : Option ℕ) → FirstFree k.task_pool 1 max_tasks r
      → let out = create_in stack_pool trampoline k name func arg priority r in
        IsKernel out.0 × Created k out.0 priority out.1
  unfolding create_in
  create_in-Created v none all = (v, (refl, all))
  create_in-Created v (some s) ff = (fill_slot-IsKernel s v ff.0 ff.1 ff.2, fill_slot-Created s ff)

  -- On a table in order `task_create` leaves one in order. If a slot but 0 is free, the new task
  -- stands ready in the lowest, with that id and the priority given, and no other block changed;
  -- otherwise the result is -1 and nothing changed.
  pub task_create-Created : IsKernel k → IsKernel create.0 × Created k create.0 priority create.1
  unfolding task_create
  task_create-Created v = create_in-Created v (free_slot k.task_pool 7 1) first_free

-- The frame at the saved stack pointer of `slot` ends where the stack of the slot does, and returns to the trampoline with the function and its argument in a2 and a3 and the stack pointer
-- behind the frame; the other stacks hold what they held.
pub record StartsIn (stack_pool trampoline func arg slot : ℕ) (k k' : Kernel) : Type 0 where
  pub top : (k'.task_pool slot).sp + ctx_size ≡ stack_base_of stack_pool slot + task_stack_size
  pub entry : k'.stack ((k'.task_pool slot).sp + ctx_epc1) ≡ trampoline
  pub function : k'.stack ((k'.task_pool slot).sp + ctx_a2) ≡ func
  pub argument : k'.stack ((k'.task_pool slot).sp + ctx_a3) ≡ arg
  pub pointer :
      k'.stack ((k'.task_pool slot).sp + ctx_a1) ≡ stack_base_of stack_pool slot + task_stack_size
  pub processor_state : k'.stack ((k'.task_pool slot).sp + ctx_ps) ≡ 0x30
  pub others :
      (other a : ℕ)
      → other < max_tasks
      → other ≢ slot
      → InStack stack_pool other a
      → k'.stack a ≡ k.stack a

module _ (stack_pool trampoline : ℕ) (placed : IsPlaced stack_pool) (k : Kernel)
    (name func arg priority : ℕ) where
  fill_slot-sp :
      (s : ℕ)
      → ((fill_slot stack_pool trampoline k s name func arg priority).task_pool s).sp
        ≡ frame_of (stack_base_of stack_pool s)
  unfolding fill_slot
  fill_slot-sp s = ground arith

  fill_slot-stack :
      (s : ℕ)
      → (fill_slot stack_pool trampoline k s name func arg priority).stack
        ≡ first_frame trampoline k.stack (frame_of (stack_base_of stack_pool s)) func arg
  unfolding fill_slot
  fill_slot-stack s = refl

  fill_slot-StartsIn :
      (s : ℕ)
      → s < max_tasks
      → StartsIn stack_pool trampoline func arg s k
          (fill_slot stack_pool trampoline k s name func arg priority)
  fill_slot-StartsIn s hi =
      let (e, f, a, p, ps) = first_frame_lem stack_pool s placed hi trampoline k.stack func arg in
      record {
        top = rw (fill_slot-sp s) (frame_top stack_pool s placed hi);
        entry = rw (fill_slot-sp s, fill_slot-stack s) e;
        function = rw (fill_slot-sp s, fill_slot-stack s) f;
        argument = rw (fill_slot-sp s, fill_slot-stack s) a;
        pointer = rw (fill_slot-sp s, fill_slot-stack s) p;
        processor_state = rw (fill_slot-sp s, fill_slot-stack s) ps;
        others = λ other x ho ne h.
            rw (fill_slot-stack s) (
              first_frame_others stack_pool s placed hi trampoline k.stack func arg other x ho ne
                h);
      }

  create_in-StartsIn :
      (r : Option ℕ) (slot : ℕ)
      → FirstFree k.task_pool 1 max_tasks r
      → (create_in stack_pool trampoline k name func arg priority r).1 ≡ some slot
      → StartsIn stack_pool trampoline func arg slot k
          (create_in stack_pool trampoline k name func arg priority r).0
  unfolding create_in
  create_in-StartsIn none slot ff e = cc
  create_in-StartsIn (some s) slot ff e =
      let p : s ≡ slot = cc in rw (← p) (fill_slot-StartsIn s ff.1)

  -- If the stacks are placed below 2 ^ 32 on a multiple of 16: a task that `task_create` made has
  -- its saved stack pointer at a frame that ends where the stack of its slot ends; the frame returns to the trampoline with the
  -- function and its argument in a2 and a3; and the stacks of the other slots hold what they held.
  pub task_create-StartsIn :
      (slot : ℕ)
      → (task_create stack_pool trampoline k name func arg priority).1 ≡ some slot
      → StartsIn stack_pool trampoline func arg slot k
          (task_create stack_pool trampoline k name func arg priority).0
  unfolding task_create
  task_create-StartsIn slot e =
      create_in-StartsIn (free_slot k.task_pool 7 1) slot
        (free_slot-FirstFree k.task_pool 7 1 8 (omega arith)) e
