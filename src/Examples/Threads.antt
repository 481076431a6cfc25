-- ===== src/Examples/Threads.antt =====
-- The scheduler's theorems at `sched_example`.
use rumpuser_baremetal.Base.{
  ℕ, zero, suc, ◌≡◌, refl, true, false, ◌&&◌, none, some, List, [], ◌∷◌, ◌++◌, pos, has, Distinct,
  arith, inr, replicate,
}
use rumpuser_baremetal.Heap.{bump}
use rumpuser_baremetal.Subr.Strncpy.{IsText}
use rumpuser_baremetal.Queue.Lists.{position}
use rumpuser_baremetal.Sched.{
  Sched, is_runnable, scan, pick, sched, run_next, thread_stacksize, expire,
}
use rumpuser_baremetal.Sched.Pick.{
  scan-first_ready, first_ready, chosen, pick-IsChoice, IsChoice, Waited,
}
use rumpuser_baremetal.Sched.Returns.{pick_returns}
use rumpuser_baremetal.Sched.Fair.{scan_fair}
use rumpuser_baremetal.Sched.Wf.{IsWf}
use rumpuser_baremetal.Sched.Threads.{create, join_enter}
use rumpuser_baremetal.Sched.Create.{IsCreated, create_own-IsCreated, create-join}
use rumpuser_baremetal.Examples.Data.{queue, heap, sched_example, rounds_example}

three_apart : Distinct (1 ∷ 2 ∷ 3 ∷ [])
three_apart = (refl, (refl, (refl, tt)))

two_apart : Distinct (7 ∷ 8 ∷ [])
two_apart = (refl, (refl, tt))

threads_apart : (u : ℕ) → (has u (1 ∷ 2 ∷ 3 ∷ []) && has u (7 ∷ 8 ∷ [])) ≡ false
threads_apart u = ground arith

sched_example-IsWf : IsWf sched_example
sched_example-IsWf = record {
  threads = three_apart;
  zombies = two_apart;
  apart = threads_apart;
  here = refl;
}

abbrev next_example : Sched
next_example = (scan (pos 9) (1 ∷ 2 ∷ 3 ∷ []) sched_example).1

scan_runs : scan (pos 9) (1 ∷ 2 ∷ 3 ∷ []) sched_example ≡ (some 1, next_example)
unfolding scan expire
scan_runs = refl

pick_runs : pick rounds_example sched_example ≡ some (1, next_example)
unfolding pick scan expire
pick_runs = refl

sched_runs : sched rounds_example sched_example ≡ some (run_next 1 next_example)
unfolding sched pick scan expire
sched_runs = refl

scan-first_ready_example :
    scan (pos 9) (2 ∷ 3 ∷ []) sched_example
    ≡ chosen (pos 9) sched_example (first_ready (pos 9) sched_example (2 ∷ 3 ∷ []))
scan-first_ready_example = scan-first_ready (pos 9) (2 ∷ 3 ∷ []) sched_example

pick-IsChoice_example : (s₁ : Sched) × Waited sched_example s₁ × IsChoice s₁ next_example 1
pick-IsChoice_example =
    pick-IsChoice rounds_example sched_example next_example 1 three_apart pick_runs

pick_returns_example : (u : ℕ) × (s' : Sched) × (pick rounds_example sched_example ≡ some (u, s'))
pick_returns_example = pick_returns (pos 5) 2 rounds_example sched_example refl refl (inr refl) refl

scan_fair_example :
    (suc (position 3 next_example.threads) ≡ position 3 (1 ∷ 2 ∷ 3 ∷ []))
    × (is_runnable 3 next_example ≡ true)
    × (has 3 next_example.threads ≡ true)
    × Distinct next_example.threads
scan_fair_example =
    scan_fair (pos 9) sched_example next_example 3 1 three_apart refl refl scan_runs (omega arith)

abbrev short_name : List ℕ
short_name = b'i' ∷ b'd' ∷ b'l' ∷ b'e' ∷ []

short_name-IsText : IsText short_name
short_name-IsText = (
  omega arith,
  omega arith,
  (omega arith, omega arith, (omega arith, omega arith, (omega arith, omega arith, tt))),
)

abbrev long_name : List ℕ
long_name = replicate 16 b'x'

replicate-IsText : (n : ℕ) → IsText (replicate n b'x')
replicate-IsText zero = tt
replicate-IsText (suc n) = (omega arith, omega arith, replicate-IsText n)

-- The addresses that the allocator of the examples gives to the thread and to its stack.
abbrev made_thread : ℕ
made_thread = bump sched_example.heap

abbrev made_stack : ℕ
made_stack = bump (made_thread ∷ sched_example.heap)

create_own-IsCreated_example :
    (s' : Sched) × (create (short_name ++ 0 ∷ []) 0 0 0x4000 5 0 0 sched_example
      ≡ some (made_thread, s'))
    × IsCreated sched_example s' made_thread short_name 0x4000 5 made_stack thread_stacksize false
    × (s'.heap ≡ made_stack ∷ made_thread ∷ sched_example.heap)
create_own-IsCreated_example =
    create_own-IsCreated short_name [] 0 0 0x4000 5 sched_example made_thread made_stack
      (made_thread ∷ sched_example.heap) (made_stack ∷ made_thread ∷ sched_example.heap)
      short_name-IsText (omega arith) refl refl refl (omega arith) (omega arith)

create-join_example :
    (s' : Sched) × (create (short_name ++ 0 ∷ []) 0 1 0x4000 5 0 0 sched_example
      ≡ some (made_thread, s'))
    × (s'.threads ≡ made_thread ∷ 1 ∷ 2 ∷ 3 ∷ [])
    × (is_runnable made_thread s' ≡ true)
    × (join_enter made_thread s' ≡ none)
create-join_example =
    create-join short_name [] 0 1 0x4000 5 sched_example made_thread made_stack
      (made_thread ∷ sched_example.heap) (made_stack ∷ made_thread ∷ sched_example.heap)
      short_name-IsText (omega arith) refl refl refl
