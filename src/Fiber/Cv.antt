-- ===== src/Fiber/Cv.antt =====
-- The condition variables of rumpfiber.c. The upcalls `rumpkern_unsched` and `rumpkern_sched` are
-- the rump kernel's, outside this repository, and are not followed. A wait is cut at its call of
-- `bmk_sched`.
pub mod Broadcast
pub mod Timeout
use rumpuser_baremetal.Base.{
  nanoseconds, ℕ, ◌+◌, ◌-◌, ◌*◌, ◌≡◌, refl, Bool, true, false, not, Option, none, some, List, [],
  ◌∷◌, ◌++◌, ◌==◌, if◌then◌else◌, ◌>>=◌, has, arith, ap, ◌∙◌, ℤ,
}
use rumpuser_baremetal.Queue.{Tailq}
use rumpuser_baremetal.Heap.{Alloc}
use rumpuser_baremetal.Sched.{is_runnable}
use rumpuser_baremetal.Fiber.{
  Fiber, curlwp, wait_begin, wait_end, take_waiter, wakeup_one, wakeup_all,
}
use rumpuser_baremetal.Fiber.Wakeup.{wakeup_none, wakeup_one_first, wait_lem}
use rumpuser_baremetal.Fiber.Mutex.{Mtx, enter_nowrap}
use rumpuser_baremetal.Fiber.Mutex

module _ ⦃tq : Tailq⦄ ⦃al : Alloc⦄ where
  pub record Cv : Type 0 where
    pub waiters : tq.Head
    pub nwaiters : ℕ

  -- `rumpuser_cv_init`, behind the allocation.
  unfoldable pub init : Cv
  init = record { waiters = tq.init; nwaiters = 0 }

  -- `rumpuser_cv_destroy` up to the release of the memory.
  unfoldable pub destroy : Cv → Option (Unit {0})
  destroy cv = if cv.nwaiters == 0 then some tt else none

  -- `rumpuser_cv_wait`, `rumpuser_cv_wait_nowrap` and `rumpuser_cv_timedwait` up to `bmk_sched`:
  -- the mutex is left and the thread waits, for `nsec` nanoseconds unless that is 0. `none` is the
  -- assertion of `rumpuser_mutex_exit`.
  unfoldable pub wait_enter :
      (w : ℕ) (now : ℤ) (nsec : ℕ) → Cv → Mtx → Fiber → Option (Cv × Mtx × Fiber)
  wait_enter w now nsec cv mtx s = Mutex.exit mtx s >>= λ (mtx', s').
      (let (wh, s'') = wait_begin w now nsec cv.waiters s' in
        some (record cv { waiters = wh; nwaiters = cv.nwaiters + 1 }, mtx', s''))

  -- The same behind `bmk_sched`: the mutex is entered again, and `none` is its panic. The result is
  -- that of `wait`, which only `rumpuser_cv_timedwait` returns.
  unfoldable pub wait_leave : (w : ℕ) → Cv → Mtx → Fiber → Option (ℕ × Cv × Mtx)
  wait_leave w cv mtx s =
      let (wh, rv) = wait_end w cv.waiters s in
      enter_nowrap mtx s >>= λ mtx'.
      some (rv, record cv { waiters = wh; nwaiters = cv.nwaiters - 1 }, mtx')

  -- The time of `rumpuser_cv_timedwait`, which wraps at 64 bits.
  unfoldable pub timeout : (sec nsec : ℤ) → ℕ
  unfolding nanoseconds
  timeout sec nsec = nanoseconds sec nsec

  unfoldable pub signal : Cv → Fiber → Cv × Fiber
  signal cv s = let (wh, s') = wakeup_one cv.waiters s in (record cv { waiters = wh }, s')

  -- `none` is the fuel of `wakeup_all`.
  unfoldable pub broadcast : Cv → Fiber → Option (Cv × Fiber)
  broadcast cv s = wakeup_all cv.waiters s >>= λ (wh, s'). some (record cv { waiters = wh }, s')

  unfoldable pub has_waiters : Cv → Bool
  has_waiters cv = not (cv.nwaiters == 0)

  pub exit_last :
      (mtx : Mtx) (s : Fiber)
      → tq.items mtx.waiters ≡ []
      → mtx.v ≡ 1
      → Mutex.exit mtx s ≡ some (record mtx { v = 0; o = 0 }, s)
  unfolding Mutex.exit
  exit_last mtx s e one = rw (one, wakeup_none mtx.waiters s e) refl

  signal_first :
      (cv : Cv) (s : Fiber) (w : ℕ)
      → tq.items cv.waiters ≡ w ∷ []
      → signal cv s
        ≡ (record cv { waiters = (take_waiter w cv.waiters s).0 }, (take_waiter w cv.waiters s).1)
  unfolding signal
  signal_first cv s w e = rw (signal, wakeup_one_first cv.waiters s w [] e) refl

  curlwp_woken :
      (w : ℕ) (now : ℤ) (nsec : ℕ) (wh : tq.Head) (s : Fiber)
      → let s₁ = (wait_begin w now nsec wh s).1 in
        curlwp (take_waiter w (wait_begin w now nsec wh s).0 s₁).1 ≡ curlwp s
  unfolding wait_begin take_waiter
  curlwp_woken w now nsec wh s = ground arith

  enter_free :
      (mtx : Mtx) (s : Fiber)
      → mtx.v ≡ 0
      → enter_nowrap mtx s ≡ some (record mtx { v = 1; o = curlwp s })
  unfolding enter_nowrap Mutex.tryenter
  enter_free mtx s e = rw e refl

  pub leave_free :
      (w : ℕ) (cv : Cv) (mtx : Mtx) (s : Fiber)
      → mtx.v ≡ 0
      → wait_leave w cv mtx s
        ≡ some (
          (wait_end w cv.waiters s).1,
          record cv { waiters = (wait_end w cv.waiters s).0; nwaiters = cv.nwaiters - 1 },
          record mtx { v = 1; o = curlwp s },
        )
  unfolding wait_leave
  leave_free w cv mtx s e = rw (enter_free mtx s e) refl

  -- With the queues of the condition variable and of the mutex empty, and the mutex entered once: a
  -- thread that waits leaves the mutex and cannot run. A signal lets it run, and when it goes on it
  -- has the mutex again, reports no timeout, and the condition variable has its empty queue and its
  -- count again.
  pub wait-signal :
      (w : ℕ) (now : ℤ) (nsec : ℕ) (cv : Cv) (mtx : Mtx) (s : Fiber)
      → tq.items cv.waiters ≡ []
      → tq.items mtx.waiters ≡ []
      → mtx.v ≡ 1
      → (cv₁ : Cv) × (mtx₁ : Mtx) × (s₁ : Fiber) × (cv₂ : Cv) × (mtx₂ : Mtx) × (wait_enter w now
            nsec cv mtx s
          ≡ some (cv₁, mtx₁, s₁))
        × (mtx₁.v ≡ 0)
        × (has_waiters cv₁ ≡ true)
        × (is_runnable s.sched.current s₁.sched ≡ false)
        × (is_runnable s.sched.current (signal cv₁ s₁).1.sched ≡ true)
        × (wait_leave w (signal cv₁ s₁).0 mtx₁ (signal cv₁ s₁).1 ≡ some (0, cv₂, mtx₂))
        × (tq.items cv₂.waiters ≡ [])
        × (cv₂.nwaiters ≡ cv.nwaiters)
        × (mtx₂.v ≡ 1)
        × (mtx₂.o ≡ curlwp s)
  unfolding wait_enter has_waiters
  wait-signal w now nsec cv mtx s e f one =
      let fresh : has w (tq.items cv.waiters) ≡ false = rw e refl in
      let (last, stops, _, _, none', back, runs) = wait_lem w now nsec cv.waiters s fresh in
      let (wh, s₁) = wait_begin w now nsec cv.waiters s in
      let cv₁ : Cv = record cv { waiters = wh; nwaiters = cv.nwaiters + 1 } in
      let mtx₁ : Mtx = record mtx { v = 0; o = 0 } in
      let alone : tq.items wh ≡ w ∷ [] = last ∙ ap (λ (q : List ℕ). q ++ w ∷ []) e in
      let sig = signal_first cv₁ s₁ w alone in
      let t = take_waiter w wh s₁ in
      let cv₂ : Cv = record cv {
        waiters = (wait_end w t.0 t.1).0;
        nwaiters = cv.nwaiters + 1 - 1;
      } in
      (
        cv₁,
        mtx₁,
        s₁,
        cv₂,
        record mtx { v = 1; o = curlwp s },
        rw (exit_last mtx s f one) refl,
        refl,
        ground arith,
        stops,
        rw sig runs,
        rw sig (
            leave_free w (record cv₁ { waiters = t.0 }) mtx₁ t.1 refl
            ∙ rw (none', curlwp_woken w now nsec cv.waiters s) refl),
        back ∙ e,
        omega arith,
        refl,
        refl,
      )
