-- ===== src/Fiber/Mutex/Run.antt =====
-- The runs of one mutex: threads that enter it, wait for it and leave it, with what the program
-- does elsewhere in between.
use rumpuser_baremetal.Base.{
  ℕ, ◌+◌, ◌-◌, ◌≡◌, ◌≢◌, Bool, true, false, not, ◌&&◌, ◌||◌, some, List, [], ◌==◌, if◌then◌else◌,
  has, Distinct, ℤ, ◌⊎◌,
}
use rumpuser_baremetal.Queue.{Tailq}
use rumpuser_baremetal.Heap.{Alloc}
use rumpuser_baremetal.Sched.{is_runnable}
use rumpuser_baremetal.Fiber.{Fiber, wait_end}
use rumpuser_baremetal.Fiber.Mutex.{Mtx, enter_turn, exit}

module _ ⦃tq : Tailq⦄ ⦃al : Alloc⦄ where
  -- The mutex and the rest; how often each thread has entered and not left, and which threads are in a
  -- wait of `rumpuser_mutex_enter`.
  pub record System : Type 0 where
    pub mtx : Mtx
    pub fiber : Fiber
    pub depth : ℕ → ℕ
    pub waiting : ℕ → Bool

  abbrev pub runs : System → ℕ → Bool
  runs s t = is_runnable t s.fiber.sched

  abbrev pub queue : System → List ℕ
  queue s = tq.items s.mtx.waiters

  -- Each thread has its lwp, and the waiter on its stack.
  module _ (lwp own : ℕ → ℕ) where
    -- A turn of the loop, by the thread that runs.
    abbrev pub settle : ℕ → Bool × Mtx × Fiber → System → System
    settle t (entered, m, f) s = record s {
      mtx = m;
      fiber = f;
      depth = λ u. if entered && u == t then s.depth t + 1 else s.depth u;
      waiting = λ u. if u == t then not entered else s.waiting u;
    }

    abbrev pub turn : ℕ → ℤ → System → System
    turn t now s = settle t (enter_turn (own t) now s.mtx s.fiber) s

    -- Its wait is over.
    abbrev pub resumed : ℕ → System → System
    resumed t s = record s {
      mtx = record s.mtx { waiters = (wait_end (own t) s.mtx.waiters s.fiber).0 };
      waiting = λ u. if u == t then false else s.waiting u;
    }

    abbrev pub left : ℕ → Mtx → Fiber → System → System
    left t m f s = record s {
      mtx = m;
      fiber = f;
      depth = λ u. if u == t then s.depth t - 1 else s.depth u;
    }

    -- What the rest of the program keeps: the lwps, the waiters of those who wait, and that a
    -- thread which waits and can run stays so until it runs. `bmk_sched` and other locks are of
    -- this kind.
    pub record IsElsewhere (s : System) (f : Fiber) : Type 0 where
      pub lwps : (t : ℕ) → (f.sched.thread t).tls 0 ≡ (s.fiber.sched.thread t).tls 0
      pub waiters : (t : ℕ) → s.waiting t ≡ true → f.waiter (own t) ≡ s.fiber.waiter (own t)
      pub stays : (t : ℕ) → (not (s.waiting t && runs s t) || is_runnable t f.sched) ≡ true

    pub data Step : System → System → Type 0 where
      tries :
          {s : System} (now : ℤ)
          → s.waiting s.fiber.sched.current ≡ false
          → Step s (turn s.fiber.sched.current now s)
      resumes :
          {s : System} (now : ℤ)
          → s.waiting s.fiber.sched.current ≡ true
          → Step s (turn s.fiber.sched.current now (resumed s.fiber.sched.current s))
      leaves :
          {s : System} {m : Mtx} {f : Fiber}
          → s.waiting s.fiber.sched.current ≡ false
          → s.depth s.fiber.sched.current ≢ 0
          → exit s.mtx s.fiber ≡ some (m, f)
          → Step s (left s.fiber.sched.current m f s)
      elsewhere : {s : System} {f : Fiber} → IsElsewhere s f → Step s (record s { fiber = f })

    -- A mutex that nobody has entered, of threads whose lwps are as given.
    pub record IsNew (s : System) : Type 0 where
      pub lwps : (t : ℕ) → (s.fiber.sched.thread t).tls 0 ≡ lwp t
      pub free : s.mtx.v ≡ 0
      pub empty : queue s ≡ []
      pub depths : (t : ℕ) → s.depth t ≡ 0
      pub waiting : (t : ℕ) → s.waiting t ≡ false

    pub data Reach : System → Type 0 where
      start : {s : System} → IsNew s → Reach s
      later : {s s' : System} → Reach s → Step s s' → Reach s'

    -- What every step keeps. The waiters in the queue are those of threads that wait; a thread that
    -- waits and is not in the queue can run.
    pub record Inv (s : System) : Type 0 where
      pub lwps : (t : ℕ) → (s.fiber.sched.thread t).tls 0 ≡ lwp t
      pub depths : (t : ℕ) → s.depth t ≡ (if s.mtx.o == lwp t then s.mtx.v else 0)
      pub apart : Distinct (queue s)
      pub queued : (w : ℕ) → has w (queue s) ≡ true → (t : ℕ) × (w ≡ own t) × (s.waiting t ≡ true)
      pub who : (t : ℕ) → s.waiting t ≡ true → (s.fiber.waiter (own t)).who ≡ t
      pub onlist :
          (t : ℕ) → s.waiting t ≡ true → (s.fiber.waiter (own t)).onlist ≡ has (own t) (queue s)
      pub ready : (t : ℕ) → s.waiting t ≡ true → (has (own t) (queue s) || runs s t) ≡ true

    -- A free mutex with waiters in its queue has one that was woken and has not run yet.
    abbrev pub Woken : System → Type 0
    Woken s =
        s.mtx.v ≡ 0
        → (queue s ≡ []) ⊎ ((t : ℕ) × (s.waiting t ≡ true) × (has (own t) (queue s) ≡ false))
