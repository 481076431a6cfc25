-- ===== src/Examples/Data.antt =====
-- States that the examples share: lists for the queues, growing addresses for the allocator.
use rumpuser_baremetal.Base.{
  ℕ, ◌+◌, Bool, true, false, List, [], ◌∷◌, ◌==◌, if◌then◌else◌, ℤ, pos, negsuc,
}
use rumpuser_baremetal.Queue.{Tailq, list_tailq}
use rumpuser_baremetal.Heap.{Alloc, list_alloc}
use rumpuser_baremetal.Sched.{Sched, Thread, Round, no_flags, zeroed}
use rumpuser_baremetal.Fiber.{Fiber}

instance abbrev pub queue : Tailq
queue = list_tailq

instance abbrev pub heap : Alloc
heap = list_alloc

abbrev pub thread_of : Bool → ℤ → Thread
thread_of r w = record zeroed { flags = record no_flags { runnable = r }; wakeup_time = w }

-- Thread 1 runs, 2 sleeps until time 5, 3 can run; 1 is the lwp 41, 2 the lwp 42, 3 the lwp 43.
abbrev pub threads_example : ℕ → Thread
threads_example t =
    let b = thread_of (if t == 2 then false else true) (if t == 2 then pos 5 else negsuc 0) in
    record b { tls = λ w. 40 + t; stackbase = 100 + t }

abbrev pub sched_example : Sched
sched_example = record {
  threads = 1 ∷ 2 ∷ 3 ∷ [];
  zombies = 7 ∷ 8 ∷ [];
  joinwq = [];
  current = 1;
  thread = threads_example;
  waiter = λ _. (0, 0);
  heap = 7 ∷ 107 ∷ 9 ∷ [];
  memory = λ _. 0;
  hook = 0;
}

abbrev pub rounds_example : List Round
rounds_example = record { now = pos 9; woken = [] } ∷ []

-- The waiters 11 and 12, of the threads 2 and 3, on a queue.
abbrev pub fiber_example : Fiber
fiber_example = record {
  sched = sched_example;
  waiter = λ w. record { who = if w == 11 then 2 else 3; onlist = true };
}
