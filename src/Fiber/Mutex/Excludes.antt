-- ===== src/Fiber/Mutex/Excludes.antt =====
-- Mutual exclusion of a mutex, and no lost wakeups, in every state that its runs reach.
use rumpuser_baremetal.Base.{
  ℕ, ◌≡◌, refl, ◌≢◌, true, false, some, [], has, arith, ap, ◌∙◌, inl, inr,
}
use rumpuser_baremetal.Queue.{Tailq}
use rumpuser_baremetal.Heap.{Alloc}
use rumpuser_baremetal.Fiber.{Fiber, Waiter}
use rumpuser_baremetal.Fiber.Mutex.{Mtx, exit}
use rumpuser_baremetal.Fiber.Mutex.Keeps.{turn-Inv, resumed-Inv}
use rumpuser_baremetal.Fiber.Mutex.Leaves.{has_it, leaves-Inv, exit_cases}
use rumpuser_baremetal.Fiber.Mutex.Run.{
  System, runs, queue, resumed, IsElsewhere, Step, tries, resumes, leaves, elsewhere, IsNew, Reach,
  start, later, Inv, Woken,
}

module _ ⦃tq : Tailq⦄ ⦃al : Alloc⦄ where
  module _ (lwp own : ℕ → ℕ) (lwp_apart : (t u : ℕ) → lwp t ≡ lwp u → t ≡ u)
      (own_apart : (t u : ℕ) → own t ≡ own u → t ≡ u) where
    new-Inv : (s : System) → IsNew lwp own s → Inv lwp own s
    new-Inv s n = record {
      lwps = n.lwps;
      depths = λ t. ground (arith, n.depths t, n.free);
      apart = rw n.empty tt;
      queued = λ w h. absurd (none_queued w h);
      who = λ t h. ground (arith, n.waiting t, h);
      onlist = λ t h. ground (arith, n.waiting t, h);
      ready = λ t h. ground (arith, n.waiting t, h);
    }
      where
        none_queued : (w : ℕ) → has w (queue s) ≢ true
        none_queued w h = let out : has w (queue s) ≡ false = rw n.empty refl in ground arith

    elsewhere-Inv :
        (s : System) (f : Fiber)
        → Inv lwp own s
        → IsElsewhere lwp own s f
        → Inv lwp own (record s { fiber = f })
    elsewhere-Inv s f i k = record {
      lwps = λ t. k.lwps t ∙ i.lwps t;
      depths = i.depths;
      apart = i.apart;
      queued = i.queued;
      who = λ t h. ap (λ (w : Waiter). w.who) (k.waiters t h) ∙ i.who t h;
      onlist = λ t h. ap (λ (w : Waiter). w.onlist) (k.waiters t h) ∙ i.onlist t h;
      ready = λ t h. ground (arith, k.stays t, i.ready t, h);
    }

    Step-Inv :
        (s s' : System)
        → Step lwp own s s'
        → Inv lwp own s × Woken lwp own s
        → Inv lwp own s' × Woken lwp own s'
    Step-Inv s _ (tries now loose) (i, w) =
        let (i', taken) = turn-Inv lwp own lwp_apart own_apart now s i loose in
        (i', λ z. absurd (taken z))
    Step-Inv s _ (resumes now waits) (i, w) =
        let t = s.fiber.sched.current in
        let (i', taken) =
          turn-Inv lwp own lwp_apart own_apart now (resumed lwp own t s)
            (resumed-Inv lwp own lwp_apart own_apart s i waits) (ground arith) in
        (i', λ z. absurd (taken z))
    Step-Inv s _ (leaves {m = m} {f = f} loose deep e) (i, w) =
        leaves-Inv lwp own lwp_apart own_apart s m f i deep e
    Step-Inv s _ (elsewhere {f = f} k) (i, w) = (elsewhere-Inv s f i k, w)

    Reach-Inv : (s : System) → Reach lwp own s → Inv lwp own s × Woken lwp own s
    Reach-Inv s (start n) = (new-Inv s n, λ z. inl n.empty)
    Reach-Inv s (later {s = s₀} r step) = Step-Inv s₀ s step (Reach-Inv s₀ r)

    -- Mutual exclusion, for threads whose lwps differ from one another, as do their waiters: in every
    -- state that they reach by entering, waiting for and leaving a mutex, however their steps follow
    -- one another, only one thread has entered it and not left, the mutex is its lwp's, and its count
    -- is how often that thread has entered more than left.
    pub Reach-excludes :
        (s : System) (t u : ℕ)
        → Reach lwp own s
        → s.depth t ≢ 0
        → s.depth u ≢ 0
        → (t ≡ u) × (s.mtx.o ≡ lwp t) × (s.mtx.v ≡ s.depth t)
    Reach-excludes s t u r ht hu =
        let (i, _) = Reach-Inv s r in
        let (mine, count) = has_it lwp own lwp_apart own_apart s t i ht in
        let (mine', _) = has_it lwp own lwp_apart own_apart s u i hu in
        (lwp_apart t u (ground arith), ground arith, count)

    -- No wakeup is lost: in every state that threads with different lwps and different waiters reach, if
    -- the mutex is free and its queue is not empty, there is a thread that waits for it, is out of the
    -- queue, and can run.
    pub Reach-Woken :
        (s : System)
        → Reach lwp own s
        → s.mtx.v ≡ 0
        → queue s ≢ []
        → (t : ℕ) × (s.waiting t ≡ true) × (has (own t) (queue s) ≡ false) × (runs s t ≡ true)
    Reach-Woken s r free some_queued =
        let (i, woken) = Reach-Inv s r in
        elim (woken free) [
          | inl empty ↦ absurd (some_queued empty)
          | inr (t, waits, out) ↦ (t, waits, out, ground (arith, i.ready t, waits, out))
        ]

    -- A thread that has entered and not left may leave: the assertion of `rumpuser_mutex_exit` holds.
    pub Reach-exit :
        (s : System) (t : ℕ)
        → Reach lwp own s
        → s.depth t ≢ 0
        → (p : Mtx × Fiber) × (exit s.mtx s.fiber ≡ some p)
    Reach-exit s t r h =
        let (i, _) = Reach-Inv s r in
        let (_, count) = has_it lwp own lwp_apart own_apart s t i h in
        elim (exit_cases s.mtx s.fiber) [
          | inl (free, _) ↦ absurd (h (ground arith))
          | inr (inl (_, e)) ↦ (_, e)
          | inr (inr (_, _, e)) ↦ (_, e)
        ]
