-- ===== src/Kernel/Create/Frame.antt =====
-- Where the first frame of a task lies, and what it holds.
use osito_k.Base.{ℕ, ◌+◌, ◌*◌, ◌%◌, ◌≤◌, ◌<◌, ◌≡◌, ◌≢◌, ◌⊎◌, arith}
use osito_k.Kernel.Task.{max_tasks, task_stack_size, u32}
use osito_k.Kernel.Create.{
  frame_of, first_frame, stack_base_of, ctx_size, ctx_a1, ctx_a2, ctx_a3, ctx_ps, ctx_epc1,
}

-- The linker's promise: the stacks are aligned to 16 bytes and end below 2 ^ 32.
pub record IsPlaced (stack_pool : ℕ) : Type 0 where
  pub aligned : stack_pool % 16 ≡ 0
  pub fits : stack_pool + max_tasks * task_stack_size < u32

-- Address `a` lies in the stack of `slot`.
abbrev pub InStack : ℕ → ℕ → ℕ → Type 0
InStack stack_pool slot a =
    (stack_base_of stack_pool slot ≤ a) × (a < stack_base_of stack_pool slot + task_stack_size)

module _ (stack_pool slot : ℕ) (placed : IsPlaced stack_pool) (inside : slot < max_tasks) where
  -- The frame ends where the stack does.
  pub frame_top :
      frame_of (stack_base_of stack_pool slot) + ctx_size
      ≡ stack_base_of stack_pool slot + task_stack_size
  unfolding frame_of
  frame_top = omega arith

  abbrev pub sp : ℕ
  sp = frame_of (stack_base_of stack_pool slot)

  apart :
      (other a : ℕ)
      → other < max_tasks
      → other ≢ slot
      → InStack stack_pool other a
      → sp + ctx_size ≡ stack_base_of stack_pool slot + task_stack_size
      → (a < sp) ⊎ (sp + ctx_size ≤ a)
  apart other a ho ne h top = omega arith

  -- The first frame holds what the trampoline and `rfe` need, and lies inside the task's own stack.
  pub first_frame_lem :
      (trampoline : ℕ) (mem : ℕ → ℕ) (func arg : ℕ)
      → let frame = first_frame trampoline mem sp func arg in
        (frame (sp + ctx_epc1) ≡ trampoline)
        × (frame (sp + ctx_a2) ≡ func)
        × (frame (sp + ctx_a3) ≡ arg)
        × (frame (sp + ctx_a1) ≡ stack_base_of stack_pool slot + task_stack_size)
        × (frame (sp + ctx_ps) ≡ 0x30)
  unfolding first_frame
  first_frame_lem t mem func arg =
      (ground arith, ground arith, ground arith, ground (arith, frame_top), ground arith)

  pub first_frame_outside :
      (trampoline : ℕ) (mem : ℕ → ℕ) (func arg a : ℕ)
      → (a < sp) ⊎ (sp + ctx_size ≤ a)
      → first_frame trampoline mem sp func arg a ≡ mem a
  unfolding first_frame
  first_frame_outside t mem func arg a h = ground arith

  -- The stacks of the others stay as they were.
  pub first_frame_others :
      (trampoline : ℕ) (mem : ℕ → ℕ) (func arg other a : ℕ)
      → other < max_tasks
      → other ≢ slot
      → InStack stack_pool other a
      → first_frame trampoline mem sp func arg a ≡ mem a
  first_frame_others t mem func arg other a ho ne h =
      first_frame_outside t mem func arg a (apart other a ho ne h frame_top)
