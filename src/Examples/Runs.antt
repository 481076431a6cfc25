-- ===== src/Examples/Runs.antt =====
-- Thread 1 enters a mutex, 2 and 3 wait for it, and 1 leaves it.
use rumpuser_baremetal.Base.{ℕ, ◌+◌, ◌≡◌, refl, true, false, some, [], ◌∷◌, arith, pos, has}
use rumpuser_baremetal.Examples.Data.{queue as tailq, heap, fiber_example}
use rumpuser_baremetal.Fiber.{Fiber, wait_begin, wakeup_one, take_waiter}
use rumpuser_baremetal.Fiber.Mutex.{Mtx, tryenter, enter_turn, exit}
use rumpuser_baremetal.Fiber.Mutex.Run.{
  System, runs, queue, turn, left, tries, leaves, elsewhere, Reach, start, later,
}
use rumpuser_baremetal.Fiber.Mutex.Excludes.{Reach-excludes, Reach-Woken}

abbrev lwp_of : ℕ → ℕ
lwp_of t = 40 + t

abbrev waiter_of : ℕ → ℕ
waiter_of t = 10 + t

lwp_apart : (t u : ℕ) → lwp_of t ≡ lwp_of u → t ≡ u
lwp_apart t u e = omega arith

waiter_apart : (t u : ℕ) → waiter_of t ≡ waiter_of u → t ≡ u
waiter_apart t u e = omega arith

-- Thread `t` goes on where another one ran.
abbrev switched : ℕ → System → System
switched t s = record s { fiber = record s.fiber { sched = record s.fiber.sched { current = t } } }

switched-Reach :
    (t : ℕ) (s : System) → Reach lwp_of waiter_of s → Reach lwp_of waiter_of (switched t s)
switched-Reach t s r =
    later r
      (elsewhere (record { lwps = λ t. refl; waiters = λ t h. refl; stays = λ t. ground arith }))

abbrev new_system : System
new_system = record {
  mtx = record { waiters = []; v = 0; flags = 0; o = 0 };
  fiber = fiber_example;
  depth = λ _. 0;
  waiting = λ _. false;
}

new_system-Reach : Reach lwp_of waiter_of new_system
new_system-Reach = start (record {
  lwps = λ t. refl;
  free = refl;
  empty = refl;
  depths = λ t. refl;
  waiting = λ t. refl;
})

abbrev one_in : System
one_in = turn lwp_of waiter_of 1 (pos 0) new_system

one_in-Reach : Reach lwp_of waiter_of one_in
one_in-Reach = later new_system-Reach (tries (pos 0) refl)

abbrev two_waits : System
two_waits = turn lwp_of waiter_of 2 (pos 0) (switched 2 one_in)

two_waits-Reach : Reach lwp_of waiter_of two_waits
unfolding enter_turn tryenter
two_waits-Reach = later (switched-Reach 2 one_in one_in-Reach) (tries (pos 0) refl)

abbrev three_waits : System
three_waits = turn lwp_of waiter_of 3 (pos 0) (switched 3 two_waits)

three_waits-Reach : Reach lwp_of waiter_of three_waits
unfolding enter_turn tryenter wait_begin
three_waits-Reach = later (switched-Reach 3 two_waits two_waits-Reach) (tries (pos 0) refl)

abbrev one_again : System
one_again = switched 1 three_waits

one_again-Reach : Reach lwp_of waiter_of one_again
one_again-Reach = switched-Reach 1 three_waits three_waits-Reach

one_is_in : one_again.depth 1 ≡ 1
unfolding enter_turn tryenter wait_begin
one_is_in = refl

left_by_one :
    (p : Mtx × Fiber) × (exit one_again.mtx one_again.fiber ≡ some p)
    × (tailq.items p.0.waiters ≡ 13 ∷ [])
    × (p.0.v ≡ 0)
unfolding enter_turn tryenter wait_begin exit wakeup_one take_waiter
left_by_one = (_, refl, refl, refl)

abbrev one_out : System
one_out = left lwp_of waiter_of 1 left_by_one.0.0 left_by_one.0.1 one_again

one_out-Reach : Reach lwp_of waiter_of one_out
unfolding enter_turn tryenter wait_begin
one_out-Reach = later one_again-Reach (leaves refl (omega arith) left_by_one.1)

Reach-excludes_example :
    let one : ℕ = 1 in (one ≡ one) × (one_again.mtx.o ≡ 41) × (one_again.mtx.v ≡ one_again.depth 1)
Reach-excludes_example =
    Reach-excludes lwp_of waiter_of lwp_apart waiter_apart one_again 1 1 one_again-Reach
      (omega (arith, one_is_in)) (omega (arith, one_is_in))

Reach-Woken_example :
    (t : ℕ) × (one_out.waiting t ≡ true)
    × (has (waiter_of t) (queue one_out) ≡ false)
    × (runs one_out t ≡ true)
Reach-Woken_example =
    Reach-Woken lwp_of waiter_of lwp_apart waiter_apart one_out one_out-Reach left_by_one.3
      (rw left_by_one.2 (ground arith))
