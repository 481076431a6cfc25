-- ===== src/Fiber/Mutex.antt =====
-- The mutexes of rumpfiber.c. A lock is a value of its own; the waiters stand in `Fiber`. The owner
-- is the address of an lwp, 0 for NULL. The count is an `int` that never falls below 0; its
-- overflow, which C leaves undefined, is not modelled.
pub mod Run
pub mod Keeps
pub mod Leaves
pub mod Excludes
use rumpuser_baremetal.Base.{
  ℕ, zero, suc, ◌+◌, ◌-◌, ◌<◌, ◌≡◌, refl, ◌≢◌, Bool, true, false, not, ◌&&◌, Option, none, some, [],
  ◌∷◌, ◌++◌, ◌==◌, if◌then◌else◌, ◌>>=◌, has, arith, ap, ◌∙◌, ℤ, is_empty, Bool-cases, ◌⊎◌, inl,
  inr,
}
use rumpuser_baremetal.Queue.{Tailq}
use rumpuser_baremetal.Heap.{Alloc}
use rumpuser_baremetal.Sched.{is_runnable}
use rumpuser_baremetal.Fiber.Wakeup.{Wakes, wakeup_one-Wakes}
use rumpuser_baremetal.Fiber.{Fiber, curlwp, ebusy, wait_begin, wakeup_one}

module _ ⦃tq : Tailq⦄ ⦃al : Alloc⦄ where
  pub record Mtx : Type 0 where
    pub waiters : tq.Head
    pub v : ℕ
    pub flags : ℕ
    pub o : ℕ

  -- `rumpuser_mutex_init`, behind the allocation.
  unfoldable pub init : ℕ → Mtx
  init flags = record { waiters = tq.init; v = 0; flags = flags; o = 0 }

  unfoldable pub tryenter : Mtx → Fiber → ℕ × Mtx
  tryenter m s =
      let l = curlwp s in
      if not (m.v == 0) && not (m.o == l) then (ebusy, m) else (0, record m { v = m.v + 1; o = l })

  -- `rumpuser_mutex_enter_nowrap` panics, `none`, where the lock is taken.
  unfoldable pub enter_nowrap : Mtx → Fiber → Option Mtx
  unfolding tryenter
  enter_nowrap m s = let (rv, m') = tryenter m s in if rv == 0 then some m' else none

  -- One turn of the loop of `rumpuser_mutex_enter`: either the lock is entered, or the thread waits;
  -- `true` says that it entered. When it goes on behind `bmk_sched`, it takes another turn behind
  -- `wait_end`.
  unfoldable pub enter_turn : (w : ℕ) (now : ℤ) → Mtx → Fiber → Bool × Mtx × Fiber
  unfolding tryenter wait_begin
  enter_turn w now m s =
      let (rv, m') = tryenter m s in
      let (wh, s') = wait_begin w now 0 m.waiters s in
      if rv == 0 then (true, m', s) else (false, record m { waiters = wh }, s')

  -- `rumpuser_mutex_exit`; the assertion fails on a lock that is not taken.
  unfoldable pub exit : Mtx → Fiber → Option (Mtx × Fiber)
  exit m s =
      let (wh, s') = wakeup_one m.waiters s in
      if m.v == 0
      then none
      else if m.v - 1 == 0
      then some (record m { v = 0; o = 0; waiters = wh }, s')
      else some (record m { v = m.v - 1 }, s)

  -- `rumpuser_mutex_destroy` up to the release of the memory.
  unfoldable pub destroy : Mtx → Option (Unit {0})
  destroy m = if is_empty (tq.items m.waiters) && m.o == 0 then some tt else none

  unfoldable pub owner : Mtx → ℕ
  owner m = m.o

  -- What a lock stands for: nobody, or an lwp and how often it has entered.
  pub data Lock : Type 0 where
    free : Lock
    held : (l depth : ℕ) → Lock

  abbrev pub lock : Mtx → Lock
  lock m = if m.v == 0 then free else held m.o m.v

  -- Entering and leaving such a lock.
  abbrev pub acquire : ℕ → Lock → Option Lock
  acquire l free = some (held l 1)
  acquire l (held o n) = if o == l then some (held o (n + 1)) else none

  abbrev pub release : Lock → Option Lock
  release free = none
  release (held o n) = some (if n == 1 then free else held o (n - 1))

  -- Trying to enter does what entering the lock means for the lwp that runs: where that lwp may not
  -- have it, the result is EBUSY and nothing changes; else the result is 0, the lock is the lwp's, and
  -- the waiters stay.
  pub tryenter-acquire :
      (m : Mtx) (s : Fiber)
      → ((acquire (curlwp s) (lock m) ≡ none) × (tryenter m s ≡ (ebusy, m)))
        ⊎ ((acquire (curlwp s) (lock m) ≡ some (lock (tryenter m s).1))
            × ((tryenter m s).0 ≡ 0)
            × ((tryenter m s).1.o ≡ curlwp s)
            × ((tryenter m s).1.waiters ≡ m.waiters))
  unfolding tryenter
  tryenter-acquire m s = elim (Bool-cases (m.v == 0)) [
    | inl e ↦ inr (ground arith, ground arith, ground arith, ground arith)
    | inr n ↦ elim (Bool-cases (m.o == curlwp s)) [
      | inl mine ↦ inr (ground arith, ground arith, ground arith, ground arith)
      | inr other ↦ inl (ground arith, ground arith)
    ]
  ]

  -- Leaving does what leaving the lock means, and fails its assertion on a free lock. The last exit
  -- frees the lock, takes the waiter that has waited longest off the queue and lets its thread run; an
  -- exit before that wakes nobody.
  pub exit-release :
      (m : Mtx) (s : Fiber)
      → ((m.v ≡ 0) × (release (lock m) ≡ none) × (exit m s ≡ none))
        ⊎ ((m' : Mtx) × (s' : Fiber) × (exit m s ≡ some (m', s'))
            × (release (lock m) ≡ some (lock m'))
            × (((m.v ≡ 1) × Wakes m.waiters s m'.waiters s')
                ⊎ ((1 < m.v) × (m'.waiters ≡ m.waiters) × (s' ≡ s))))
  unfolding exit
  exit-release m s = elim (Bool-cases (m.v == 0)) [
    | inl e ↦ inl (ground arith, ground arith, ground arith)
    | inr n ↦ elim (Bool-cases (m.v == 1)) [
      | inl last ↦ inr (
        record m { v = 0; o = 0; waiters = (wakeup_one m.waiters s).0 },
        (wakeup_one m.waiters s).1,
        ground arith,
        ground arith,
        inl (ground arith, wakeup_one-Wakes m.waiters s),
      )
      | inr deep ↦
          inr (
            record m { v = m.v - 1 },
            s,
            ground arith,
            ground arith,
            inr (ground arith, refl, refl),
          )
    ]
  ]

  -- Mutual exclusion: while one lwp has the lock, a thread of another lwp that tries to enter, with a
  -- waiter that is not in the queue, does not get it: it waits at the end of the queue and cannot run.
  pub enter_turn-waits :
      (w : ℕ) (now : ℤ) (m : Mtx) (s : Fiber)
      → m.v ≢ 0
      → m.o ≢ curlwp s
      → has w (tq.items m.waiters) ≡ false
      → let (entered, m', s') = enter_turn w now m s in
        (entered ≡ false)
        × (lock m' ≡ lock m)
        × (tq.items m'.waiters ≡ tq.items m.waiters ++ w ∷ [])
        × (is_runnable s.sched.current s'.sched ≡ false)
  unfolding enter_turn
  enter_turn-waits w now m s taken other out = (
    ground arith,
    ground arith,
    ground (arith, tq.items-insert_tail w m.waiters out),
    ground arith,
  )

  pub enters : ℕ → Mtx → Fiber → Option Mtx
  enters zero m s = some m
  enters (suc n) m s = enter_nowrap m s >>= λ m'. enters n m' s

  pub exits : ℕ → Mtx → Fiber → Option (Mtx × Fiber)
  exits zero m s = some (m, s)
  exits (suc n) m s = exit m s >>= λ (m', s'). exits n m' s'

  enters-eq :
      (n : ℕ) (m : Mtx) (s : Fiber)
      → m.o ≡ curlwp s
      → enters n m s ≡ some (record m { v = m.v + n })
  unfolding enters enter_nowrap
  enters-eq zero m s mine = ap (λ (k : ℕ). some (record m { v = k })) (omega arith)
  enters-eq (suc n) m s mine =
      let again : tryenter m s ≡ (0, record m { v = m.v + 1 }) = unfold tryenter in ground arith in
      rw again (
        enters-eq n (record m { v = m.v + 1 }) s mine
        ∙ ap (λ (k : ℕ). some (record m { v = k })) (omega arith))

  enters-free :
      (n : ℕ) (m : Mtx) (s : Fiber)
      → m.v ≡ 0
      → enters (suc n) m s ≡ some (record m { v = 1 + n; o = curlwp s })
  unfolding enters enter_nowrap
  enters-free n m s e =
      let first : tryenter m s ≡ (0, record m { v = 1; o = curlwp s }) =
        unfold tryenter in ground arith in
      rw first (enters-eq n (record m { v = 1; o = curlwp s }) s refl)

  exits-eq :
      (n k : ℕ) (m : Mtx) (s : Fiber)
      → m.v ≡ suc k + n
      → exits n m s ≡ some (record m { v = suc k }, s)
  unfolding exits
  exits-eq zero k m s e = ap (λ (j : ℕ). some (record m { v = j }, s)) (omega arith)
  exits-eq (suc n) k m s e =
      let one : exit m s ≡ some (record m { v = m.v - 1 }, s) = unfold exit in ground arith in
      rw one (exits-eq n k (record m { v = m.v - 1 }) s (omega arith))

  -- A lock is as deep as its lwp entered it: after `n + 1` entries into a free lock, `n` exits
  -- leave it with that lwp and wake nobody, and one more frees it and wakes the first waiter.
  pub enters-exits :
      (n : ℕ) (m : Mtx) (s : Fiber)
      → m.v ≡ 0
      → let back = enters (suc n) m s >>= λ m₁. exits n m₁ s in
        (back ≡ some (record m { v = 1; o = curlwp s }, s))
        × ((back >>= λ (m₂, s₂). exit m₂ s₂)
            ≡ some (
              record m { v = 0; o = 0; waiters = (wakeup_one m.waiters s).0 },
              (wakeup_one m.waiters s).1,
            ))
  enters-exits n m s e =
      let back : (enters (suc n) m s >>= λ m₁. exits n m₁ s)
          ≡ some (record m { v = 1; o = curlwp s }, s) =
        rw (enters-free n m s e)
          (exits-eq n 0 (record m { v = 1 + n; o = curlwp s }) s (omega arith)) in
      (back, rw back (unfold exit in refl))
