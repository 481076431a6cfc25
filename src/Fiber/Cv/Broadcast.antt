-- ===== src/Fiber/Cv/Broadcast.antt =====
-- Two waiters of a condition variable (rumpfiber.c) that a broadcast wakes.
use mathlib.Core.Path.{subst}
use rumpuser_baremetal.Base.{
  ℕ, zero, suc, ◌-◌, ◌≡◌, refl, ◌≢◌, true, false, none, some, List, [], ◌∷◌, arith, sym, ◌∙◌, inl,
  inr,
}
use rumpuser_baremetal.Queue.{Tailq}
use rumpuser_baremetal.Heap.{Alloc}
use rumpuser_baremetal.Sched.{is_runnable}
use rumpuser_baremetal.Fiber.{Fiber, curlwp, take_waiter, wait_end, wakeup_loop, wakeup_all}
use rumpuser_baremetal.Fiber.Wakeup.{items_cases, IsAllTaken, wakeup_all-IsAllTaken}
use rumpuser_baremetal.Fiber.Mutex.{Mtx, enter_nowrap, tryenter}
use rumpuser_baremetal.Fiber.Mutex.Keeps.{taken_tls}
use rumpuser_baremetal.Fiber.Cv.{Cv, broadcast, wait_leave, leave_free}

module _ ⦃tq : Tailq⦄ ⦃al : Alloc⦄ where
  -- The lwp of a thread.
  abbrev pub lwp_of : ℕ → Fiber → ℕ
  lwp_of t s = (s.sched.thread t).tls 0

  -- Thread `t` goes on.
  abbrev pub goes_on : ℕ → Fiber → Fiber
  goes_on t s = record s { sched = record s.sched { current = t } }

  loop_lwp :
      (fuel : ℕ) (wh wh' : tq.Head) (s s' : Fiber) (t : ℕ)
      → wakeup_loop fuel wh s ≡ some (wh', s')
      → lwp_of t s' ≡ lwp_of t s
  unfolding wakeup_loop
  loop_lwp zero wh wh' s s' t e = cc
  loop_lwp (suc fuel) wh wh' s s' t e = elim (items_cases wh) [
    | inl none' ↦ let same : some (wh, s) ≡ some (wh', s') = (rw (none', wakeup_loop)) ∙ e in cc
    | inr (w, ws, next) ↦
        let (wh₁, s₁) = take_waiter w wh s in
        let same : wakeup_loop fuel wh₁ s₁ ≡ wakeup_loop (suc fuel) wh s = rw (next, wakeup_loop) in
        loop_lwp fuel wh₁ wh' s₁ s' t (same ∙ e) ∙ taken_tls w wh s t
  ]

  enter_taken : (mtx : Mtx) (s : Fiber) → mtx.v ≢ 0 → mtx.o ≢ curlwp s → enter_nowrap mtx s ≡ none
  unfolding enter_nowrap tryenter
  enter_taken mtx s taken other = ground (arith, taken, other)

  leave_taken :
      (w : ℕ) (cv : Cv) (mtx : Mtx) (s : Fiber)
      → mtx.v ≢ 0
      → mtx.o ≢ curlwp s
      → wait_leave w cv mtx s ≡ none
  unfolding wait_leave
  leave_taken w cv mtx s taken other = rw (enter_taken mtx s taken other) refl

  -- A broadcast takes both waiters off the queue and lets their threads run; which lwp a thread has stays.
  broadcast_two :
      (first second : ℕ) (cv : Cv) (s : Fiber)
      → tq.items cv.waiters ≡ first ∷ second ∷ []
      → (q : tq.Head) × (s₁ : Fiber) × (broadcast cv s ≡ some (record cv { waiters = q }, s₁))
        × IsAllTaken (first ∷ second ∷ []) s q s₁
        × ((t : ℕ) → lwp_of t s₁ ≡ lwp_of t s)
  unfolding broadcast wakeup_all
  broadcast_two first second cv s e =
      let (q, s₁, done, k) = wakeup_all-IsAllTaken cv.waiters s in
      (
        q,
        s₁,
        rw done refl,
        subst (λ (ws : List ℕ). IsAllTaken ws s q s₁) e k,
        λ t. loop_lwp _ cv.waiters q s s₁ t done,
      )

  in_time :
      (w : ℕ) (wh : tq.Head) (s : Fiber) → (s.waiter w).onlist ≡ false → (wait_end w wh s).1 ≡ 0
  unfolding wait_end
  in_time w wh s off = rw off refl

  -- Two threads wait for a condition variable, the mutex is free, and their lwps differ. A broadcast lets
  -- both run. The first to go on gets the mutex and reports no timeout. If it keeps the mutex, the second
  -- panics when it goes on.
  pub broadcast_panics :
      (first second : ℕ) (cv : Cv) (mtx : Mtx) (s : Fiber)
      → tq.items cv.waiters ≡ first ∷ second ∷ []
      → mtx.v ≡ 0
      → let t = (s.waiter first).who in
        let u = (s.waiter second).who in
        lwp_of t s ≢ lwp_of u s
        → (cv₁ : Cv) × (s₁ : Fiber) × (cv₂ : Cv) × (mtx₂ : Mtx) × (broadcast cv s ≡ some (cv₁, s₁))
          × (is_runnable t s₁.sched ≡ true)
          × (is_runnable u s₁.sched ≡ true)
          × (wait_leave first cv₁ mtx (goes_on t s₁) ≡ some (0, cv₂, mtx₂))
          × (wait_leave second cv₂ mtx₂ (goes_on u s₁) ≡ none)
  broadcast_panics first second cv mtx s e free apart =
      let t = (s.waiter first).who in
      let u = (s.waiter second).who in
      let (q, s₁, done, k, same) = broadcast_two first second cv s e in
      let cv₁ : Cv = record cv { waiters = q } in
      let cv₂ : Cv = record cv {
        waiters = (wait_end first q (goes_on t s₁)).0;
        nwaiters = cv.nwaiters - 1;
      } in
      let mtx₂ : Mtx = record mtx { v = 1; o = lwp_of t s₁ } in
      let off : (s₁.waiter first).onlist ≡ false = k.off first ∙ ground arith in
      let zero' = in_time first q (goes_on t s₁) off in
      let apart₁ : lwp_of t s₁ ≢ lwp_of u s₁ = λ x. apart (sym (same t) ∙ x ∙ same u) in
      (
        cv₁,
        s₁,
        cv₂,
        mtx₂,
        done,
        k.runs t ∙ ground arith,
        k.runs u ∙ ground arith,
        leave_free first cv₁ mtx (goes_on t s₁) free ∙ rw zero' refl,
        leave_taken second cv₂ mtx₂ (goes_on u s₁) (omega arith) apart₁,
      )
