-- ===== src/Fiber/Rw/Run.antt =====
-- The runs of one read-write lock (rumpfiber.c): threads that enter it as readers or writers, wait for
-- it and leave it, with what the program does elsewhere in between.
use rumpuser_baremetal.Base.{
  ℕ, ◌≡◌, ◌≢◌, Bool, true, false, not, ◌&&◌, ◌||◌, some, List, [], ◌==◌, if◌then◌else◌, has,
  Distinct, ℤ, ◌⊎◌,
}
use rumpuser_baremetal.Queue.{Tailq}
use rumpuser_baremetal.Heap.{Alloc}
use rumpuser_baremetal.Sched.{is_runnable}
use rumpuser_baremetal.Fiber.{Fiber, curlwp, wait_end}
use rumpuser_baremetal.Fiber.Rw.{Rw, Mode, reader, writer, enter_turn, exit, downgrade, tryupgrade}

module _ ⦃tq : Tailq⦄ ⦃al : Alloc⦄ where
  -- The lock and the rest; which threads are in a wait of `rumpuser_rw_enter`, and which of them want to
  -- read.
  pub record System : Type 0 where
    pub rw_lock : Rw
    pub fiber : Fiber
    pub waiting : ℕ → Bool
    pub reads : ℕ → Bool

  abbrev pub mode : Bool → Mode
  mode true = reader
  mode false = writer

  abbrev pub head : Bool → Rw → tq.Head
  head true r = r.rwait
  head false r = r.wwait

  abbrev pub put : Bool → tq.Head → Rw → Rw
  put true q r = record r { rwait = q }
  put false q r = record r { wwait = q }

  abbrev pub queue : Bool → Rw → List ℕ
  queue b r = tq.items (head b r)

  abbrev pub runs : System → ℕ → Bool
  runs s t = is_runnable t s.fiber.sched

  -- Each thread has the waiter on its stack.
  module _ (own : ℕ → ℕ) where
    -- A turn of the loop by the running thread `t`.
    abbrev pub settle : (t : ℕ) (b : Bool) → Bool × Rw × Fiber → System → System
    settle t b (entered, r, f) s = record s {
      rw_lock = r;
      fiber = f;
      waiting = λ u. if u == t then not entered else s.waiting u;
      reads = λ u. if u == t then b else s.reads u;
    }

    abbrev pub turn : (t : ℕ) (b : Bool) → ℤ → System → System
    turn t b now s = settle t b (enter_turn (own t) now (mode b) s.rw_lock s.fiber) s

    -- Its wait is over.
    abbrev pub resumed : ℕ → System → System
    resumed t s = record s {
      rw_lock = put (s.reads t) (wait_end (own t) (head (s.reads t) s.rw_lock) s.fiber).0 s.rw_lock;
      waiting = λ u. if u == t then false else s.waiting u;
    }

    -- What the rest of the program keeps: the waiters of those who wait, and that a thread which waits
    -- and can run stays so until it runs.
    pub record IsElsewhere (s : System) (f : Fiber) : Type 0 where
      pub waiters : (t : ℕ) → s.waiting t ≡ true → f.waiter (own t) ≡ s.fiber.waiter (own t)
      pub stays : (t : ℕ) → (not (s.waiting t && runs s t) || is_runnable t f.sched) ≡ true

    -- A step of the running thread. Whoever enters has an lwp that is not NULL.
    pub data Step : System → System → Type 0 where
      tries :
          {s : System} (now : ℤ) (b : Bool)
          → s.waiting s.fiber.sched.current ≡ false
          → curlwp s.fiber ≢ 0
          → Step s (turn s.fiber.sched.current b now s)
      resumes :
          {s : System} (now : ℤ)
          → s.waiting s.fiber.sched.current ≡ true
          → curlwp s.fiber ≢ 0
          → Step s (
              turn s.fiber.sched.current
                (s.reads s.fiber.sched.current)
                now
                (resumed s.fiber.sched.current s))
      leaves :
          {s : System} {r : Rw} {f : Fiber}
          → exit s.rw_lock s.fiber ≡ some (r, f)
          → Step s (record s { rw_lock = r; fiber = f })
      downgrades :
          {s : System} {r : Rw}
          → downgrade s.rw_lock s.fiber ≡ some r
          → Step s (record s { rw_lock = r })
      upgrades :
          {s : System}
          → curlwp s.fiber ≢ 0
          → Step s (record s { rw_lock = (tryupgrade s.rw_lock s.fiber).1 })
      elsewhere : {s : System} {f : Fiber} → IsElsewhere s f → Step s (record s { fiber = f })

    -- A lock for which nobody waits.
    pub record IsNew (s : System) : Type 0 where
      pub empty : (b : Bool) → queue b s.rw_lock ≡ []
      pub waiting : (t : ℕ) → s.waiting t ≡ false

    pub data Reach : System → Type 0 where
      start : {s : System} → IsNew s → Reach s
      later : {s s' : System} → Reach s → Step s s' → Reach s'

    -- What every step keeps. The waiters in a queue are those of threads that wait, as readers or as
    -- writers; a thread that waits and is not in its queue can run.
    pub record Inv (s : System) : Type 0 where
      pub apart : (b : Bool) → Distinct (queue b s.rw_lock)
      pub queued :
          (b : Bool) (w : ℕ)
          → has w (queue b s.rw_lock) ≡ true
          → (t : ℕ) × (w ≡ own t) × (s.waiting t ≡ true) × (s.reads t ≡ b)
      pub who : (t : ℕ) → s.waiting t ≡ true → (s.fiber.waiter (own t)).who ≡ t
      pub onlist :
          (t : ℕ)
          → s.waiting t ≡ true
          → (s.fiber.waiter (own t)).onlist ≡ has (own t) (queue (s.reads t) s.rw_lock)
      pub ready :
          (t : ℕ)
          → s.waiting t ≡ true
          → (has (own t) (queue (s.reads t) s.rw_lock) || runs s t) ≡ true

    -- A lock without a writer for which somebody waits in a queue has a writer that was woken and has
    -- not run yet.
    abbrev pub Woken : System → Type 0
    Woken s =
        s.rw_lock.o ≡ 0
        → ((b : Bool) → queue b s.rw_lock ≡ [])
          ⊎ ((t : ℕ) × (s.waiting t ≡ true)
              × (s.reads t ≡ false)
              × (has (own t) (queue false s.rw_lock) ≡ false))
