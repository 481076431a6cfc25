-- ===== src/Examples/Exits.antt =====
-- Two threads, of which one exits.
use rumpuser_baremetal.Base.{ℕ, ◌+◌, ◌≡◌, refl, ◌≢◌, true, false, some, none, [], ◌∷◌, arith}
use rumpuser_baremetal.Examples.Data.{queue as tailq, heap, sched_example, rounds_example}
use rumpuser_baremetal.Sched.{Sched, Thread, sched, pick, scan, expire, run_next, switch, reap}
use rumpuser_baremetal.Sched.Threads.{exit_turn}
use rumpuser_baremetal.Sched.Wf.{IsWf, RunsListed}
use rumpuser_baremetal.Sched.Memory.{IsOwned}
use rumpuser_baremetal.Sched.Run.{Program, Reach, start, later, leaves, exits, listed}
use rumpuser_baremetal.Sched.Run.Safe.{Reach-IsOwned, Reach-left}

abbrev waiter_of : ℕ → ℕ
waiter_of t = 10 + t

waiter_apart : (t u : ℕ) → waiter_of t ≡ waiter_of u → t ≡ u
waiter_apart t u e = omega arith

-- Two threads that can run, on stacks of their own.
abbrev joined_thread : ℕ → Thread
joined_thread t =
    let b = sched_example.thread 1 in
    record b { stackbase = 100 + t; flags = record b.flags { runnable = true; mustjoin = false } }

abbrev new_sched : Sched
new_sched = record {
  threads = 1 ∷ 2 ∷ [];
  zombies = [];
  joinwq = [];
  current = 1;
  thread = joined_thread;
  waiter = λ _. (0, 0);
  heap = 1 ∷ 2 ∷ 101 ∷ 102 ∷ [];
  memory = λ _. 0;
  hook = 0;
}

abbrev new_program : Program
new_program = record {
  sched = new_sched;
  wants = λ _. 0;
  exiting = λ _. false;
  left = λ _. false;
  to_join = λ t. false;
  met = λ _. false;
}

new_program-IsOwned : IsOwned new_sched
new_program-IsOwned = record {
  blocks = λ u h. ground (arith, h);
  stacks = λ u h e. ground (arith, h);
  apart = λ u v h g e. ground (arith, h, g);
  stacks_apart = λ u v h g e f same. omega arith;
}

new_program-Reach : Reach waiter_of new_program
new_program-Reach = start (record {
  wf = record {
    threads = (refl, (refl, tt));
    zombies = tt;
    apart = λ u. ground arith;
    here = refl;
  };
  memory = new_program-IsOwned;
  runs = (refl, refl);
  joinwq = refl;
  wants = λ t. refl;
  exiting = λ t. refl;
  left = λ t. refl;
  to_join = λ t. refl;
  met = λ t. refl;
  unmet = λ t. refl;
})

-- The state when `bmk_sched` comes back.
abbrev goes : Sched → Sched
goes s = elim (sched rounds_example s) [ none ↦ s | some s' ↦ s' ]

-- Thread 1 exits at once.
abbrev has_left : Program
has_left = exits 1 false (goes (exit_turn new_sched)) new_program

has_left-Reach : Reach waiter_of has_left
unfolding sched pick scan expire run_next switch reap exit_turn
has_left-Reach = later new_program-Reach (leaves rounds_example refl refl)

Reach-IsOwned_example : IsWf has_left.sched × RunsListed has_left.sched × IsOwned has_left.sched
Reach-IsOwned_example = Reach-IsOwned waiter_of waiter_apart has_left has_left-Reach

Reach-left_example :
    (1 ≢ has_left.sched.current) × (listed 1 has_left.sched ≡ false) × (has_left.exiting 1 ≡ true)
Reach-left_example = Reach-left waiter_of waiter_apart has_left 1 has_left-Reach refl
