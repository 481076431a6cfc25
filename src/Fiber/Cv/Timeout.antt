-- ===== src/Fiber/Cv/Timeout.antt =====
-- The wait of `rumpuser_cv_timedwait` (rumpfiber.c) that nobody wakes, with the scheduler's clock.
use rumpuser_baremetal.Base.{
  ℕ, ◌+◌, ◌-◌, ◌≡◌, refl, ◌≢◌, true, false, some, has, arith, ◌∙◌, ℤ, pos, later_time, leb_ℤ, [],
}
use rumpuser_baremetal.Queue.{Tailq}
use rumpuser_baremetal.Heap.{Alloc}
use rumpuser_baremetal.Sched.{is_runnable, expire}
use rumpuser_baremetal.Fiber.{Fiber, curlwp, etimedout, wait_begin, wait_end}
use rumpuser_baremetal.Fiber.Wakeup.{wait_lem}
use rumpuser_baremetal.Fiber.Mutex.{Mtx}
use rumpuser_baremetal.Fiber.Cv.{Cv, wait_enter, wait_leave, timeout, exit_last, leave_free}

module _ ⦃tq : Tailq⦄ ⦃al : Alloc⦄ where
  -- The scheduler looks at thread `t` when its clock reads `tm`.
  abbrev pub at_time : ℤ → ℕ → Fiber → Fiber
  at_time tm t s = record s { sched = expire tm t s.sched }

  curlwp_at :
      (w : ℕ) (now tm : ℤ) (nsec : ℕ) (wh : tq.Head) (s : Fiber)
      → curlwp (at_time tm s.sched.current (wait_begin w now nsec wh s).1) ≡ curlwp s
  unfolding wait_begin expire
  curlwp_at w now tm nsec wh s = ground arith

  expire_waits :
      (w : ℕ) (now tm : ℤ) (nsec : ℕ) (wh : tq.Head) (s : Fiber)
      → nsec ≢ 0
      → leb_ℤ (pos 0) (later_time now nsec) ≡ true
      → is_runnable s.sched.current
          (at_time tm s.sched.current (wait_begin w now nsec wh s).1).sched
        ≡ leb_ℤ (later_time now nsec) tm
  unfolding wait_begin expire
  expire_waits w now tm nsec wh s some' late = ground (arith, some', late)

  end_at :
      (w : ℕ) (tm : ℤ) (t : ℕ) (wh : tq.Head) (s : Fiber)
      → wait_end w wh (at_time tm t s) ≡ wait_end w wh s
  unfolding wait_end
  end_at w tm t wh s = refl

  -- A thread waits for a condition variable with a timeout that is not 0, with a waiter that is not
  -- in the queue; it has entered the mutex once, nobody waits for the mutex, and the time that its
  -- wait ends, as it is computed at 64 bits, is not negative. It cannot run, and when the scheduler
  -- looks at it, it can run again just if that time has come. If it then goes on with nobody having
  -- woken it and the mutex as it left it, it reports the timeout, has the mutex again, and the
  -- condition variable has its queue and its count again.
  pub wait-timeout :
      (w : ℕ) (now tm : ℤ) (sec nsec : ℤ) (cv : Cv) (mtx : Mtx) (s : Fiber)
      → has w (tq.items cv.waiters) ≡ false
      → tq.items mtx.waiters ≡ []
      → mtx.v ≡ 1
      → timeout sec nsec ≢ 0
      → leb_ℤ (pos 0) (later_time now (timeout sec nsec)) ≡ true
      → let t = s.sched.current in
        (cv₁ : Cv) × (mtx₁ : Mtx) × (s₁ : Fiber) × (cv₂ : Cv) × (mtx₂ : Mtx) × (wait_enter w now
            (timeout sec nsec)
            cv
            mtx
            s
          ≡ some (cv₁, mtx₁, s₁))
        × (is_runnable t s₁.sched ≡ false)
        × (is_runnable t (at_time tm t s₁).sched ≡ leb_ℤ (later_time now (timeout sec nsec)) tm)
        × (wait_leave w cv₁ mtx₁ (at_time tm t s₁) ≡ some (etimedout, cv₂, mtx₂))
        × (tq.items cv₂.waiters ≡ tq.items cv.waiters)
        × (cv₂.nwaiters ≡ cv.nwaiters)
        × (mtx₂.v ≡ 1)
        × (mtx₂.o ≡ curlwp s)
  unfolding wait_enter
  wait-timeout w now tm sec nsec cv mtx s fresh f one some' late =
      let t = s.sched.current in
      let wait_time = timeout sec nsec in
      let (_, stops, timed, back, _, _, _) = wait_lem w now wait_time cv.waiters s fresh in
      let (wh, s₁) = wait_begin w now wait_time cv.waiters s in
      let cv₁ : Cv = record cv { waiters = wh; nwaiters = cv.nwaiters + 1 } in
      let mtx₁ : Mtx = record mtx { v = 0; o = 0 } in
      let cv₂ : Cv = record cv { waiters = (wait_end w wh s₁).0; nwaiters = cv.nwaiters + 1 - 1 } in
      (
        cv₁,
        mtx₁,
        s₁,
        cv₂,
        record mtx { v = 1; o = curlwp s },
        rw (exit_last mtx s f one) refl,
        stops,
        expire_waits w now tm wait_time cv.waiters s some' late,
        leave_free w cv₁ mtx₁ (at_time tm t s₁) refl
            ∙ rw (end_at w tm t wh s₁, timed, curlwp_at w now tm wait_time cv.waiters s) refl,
        back,
        omega arith,
        refl,
        refl,
      )
