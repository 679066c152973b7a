-- ===== src/Stacks/Tests.antt =====
-- Runs of the stack's functions, and the theorems at them.
use ocamil.Prelude.{◌+◌, ◌≡◌, refl, arith}
use ocamil.Stacks.{
  StackSizes, sized, stack_overflow, init_stack, realloc_stack, ensure_stack_capacity,
  change_max_stack_size,
}
use ocamil.Stacks.Growth.{Grows, realloc_stack-Grows}

abbrev sizes : StackSizes
sizes = record { size = 4; max_stack_size = 100 }

init_stack_run : init_stack 100 ≡ record { size = 4096; max_stack_size = 100 }
unfolding init_stack
init_stack_run = refl

realloc_stack_run : realloc_stack 4 30 sizes ≡ sized 64
unfolding realloc_stack
realloc_stack_run = refl

realloc_stack_full : realloc_stack 4 300 sizes ≡ stack_overflow
unfolding realloc_stack
realloc_stack_full = refl

ensure_stack_capacity_run : ensure_stack_capacity 2 2 sizes ≡ sized 4
unfolding ensure_stack_capacity
ensure_stack_capacity_run = refl

change_max_stack_size_run : change_max_stack_size 4 7 sizes ≡ record sizes { max_stack_size = 260 }
unfolding change_max_stack_size
change_max_stack_size_run = refl

realloc_stack-Grows_example : Grows 100 (4 + 30) 4 (realloc_stack 4 30 sizes)
realloc_stack-Grows_example = realloc_stack-Grows 4 30 sizes (omega arith)
