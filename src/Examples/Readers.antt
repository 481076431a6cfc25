-- ===== src/Examples/Readers.antt =====
-- Thread 1 enters a read-write lock as a writer, 2 waits to read, 3 waits to write, and 1 leaves.
use rumpuser_baremetal.Base.{ℕ, ◌+◌, ◌≡◌, refl, Bool, true, false, some, none, [], arith, pos, has}
use rumpuser_baremetal.Examples.Data.{queue as tailq, heap, fiber_example}
use rumpuser_baremetal.Fiber.{Fiber, wait_begin, wakeup_one, take_waiter}
use rumpuser_baremetal.Fiber.Rw.{Rw, tryenter, enter_turn, left as left_by, exit}
use rumpuser_baremetal.Fiber.Rw.Run.{
  System, queue, runs, turn, tries, leaves, elsewhere, Reach, start, later,
}
use rumpuser_baremetal.Fiber.Rw.Safe.{Reach-writer_woken}

abbrev waiter_of : ℕ → ℕ
waiter_of t = 10 + t

waiter_apart : (t u : ℕ) → waiter_of t ≡ waiter_of u → t ≡ u
waiter_apart t u e = omega arith

-- Thread `t` goes on where another one ran.
abbrev switched : ℕ → System → System
switched t s = record s { fiber = record s.fiber { sched = record s.fiber.sched { current = t } } }

switched-Reach : (t : ℕ) (s : System) → Reach waiter_of s → Reach waiter_of (switched t s)
switched-Reach t s r =
    later r (elsewhere (record { waiters = λ t h. refl; stays = λ t. ground arith }))

abbrev new_system : System
new_system = record {
  rw_lock = record { rwait = []; wwait = []; v = pos 0; o = 0 };
  fiber = fiber_example;
  waiting = λ _. false;
  reads = λ _. false;
}

no_queue : (b : Bool) → queue b new_system.rw_lock ≡ []
no_queue true = refl
no_queue false = refl

new_system-Reach : Reach waiter_of new_system
new_system-Reach = start (record { empty = no_queue; waiting = λ t. refl })

abbrev one_in : System
one_in = turn waiter_of 1 false (pos 0) new_system

one_in-Reach : Reach waiter_of one_in
one_in-Reach = later new_system-Reach (tries (pos 0) false refl (omega arith))

abbrev two_waits : System
two_waits = turn waiter_of 2 true (pos 0) (switched 2 one_in)

two_waits-Reach : Reach waiter_of two_waits
unfolding enter_turn tryenter
two_waits-Reach =
    later (switched-Reach 2 one_in one_in-Reach) (tries (pos 0) true refl (omega arith))

abbrev three_waits : System
three_waits = turn waiter_of 3 false (pos 0) (switched 3 two_waits)

three_waits-Reach : Reach waiter_of three_waits
unfolding enter_turn tryenter wait_begin
three_waits-Reach =
    later (switched-Reach 3 two_waits two_waits-Reach) (tries (pos 0) false refl (omega arith))

-- What 1 leaves: the second writer is woken.
abbrev after : Rw × Fiber
after =
    let s = switched 1 three_waits in
    elim (exit s.rw_lock s.fiber) [ none ↦ (s.rw_lock, s.fiber) | some x ↦ x ]

abbrev one_left : System
one_left = record (switched 1 three_waits) { rw_lock = after.0; fiber = after.1 }

one_left-Reach : Reach waiter_of one_left
unfolding enter_turn tryenter wait_begin exit left_by wakeup_one take_waiter
one_left-Reach = later (switched-Reach 1 three_waits three_waits-Reach) (leaves refl)

Reach-writer_woken_example :
    (t : ℕ) × (one_left.waiting t ≡ true)
    × (one_left.reads t ≡ false)
    × (has (waiter_of t) one_left.rw_lock.wwait ≡ false)
    × (runs one_left t ≡ true)
unfolding enter_turn tryenter wait_begin exit left_by wakeup_one take_waiter
Reach-writer_woken_example =
    Reach-writer_woken waiter_of waiter_apart one_left true one_left-Reach refl (λ e. cc)
