-- ===== src/Fiber/Wakeup.antt =====
-- `wait`, `wakeup_one` and `wakeup_all` of rumpfiber.c.
use rumpuser_baremetal.Base.{
  ℕ, zero, suc, ◌<◌, ◌≡◌, refl, Bool, true, false, not, ◌&&◌, ◌||◌, some, List, [], ◌∷◌, ◌++◌, ◌==◌,
  has, erase, arith, length, ap, ◌∙◌, ℤ, ◌⊎◌, inl, inr,
}
use rumpuser_baremetal.Queue.{Tailq}
use rumpuser_baremetal.Queue.Lists.{has-append}
use rumpuser_baremetal.Heap.{Alloc}
use rumpuser_baremetal.Sched.{is_runnable}
use rumpuser_baremetal.Fiber.{
  Fiber, etimedout, wait_begin, wait_end, take_waiter, wakeup_one, wakeup_loop, wakeup_all,
}

module _ ⦃tq : Tailq⦄ ⦃al : Alloc⦄ where
  pub items_cases :
      (q : tq.Head) → (tq.items q ≡ []) ⊎ ((w : ℕ) × (ws : List ℕ) × (tq.items q ≡ w ∷ ws))
  items_cases q =
      elim (tq.items q) as (λ xs. (xs ≡ []) ⊎ ((w : ℕ) × (ws : List ℕ) × (xs ≡ w ∷ ws))) [
        | [] ↦ inl refl
        | w ∷ ws ↦ inr (w, ws, refl)
      ]

  -- `wh'` and `s'` come from taking the waiter `w` off `wh`: its thread can run, and all else stays.
  pub record IsTaken (w : ℕ) (wh : tq.Head) (s : Fiber) (wh' : tq.Head) (s' : Fiber) : Type 0 where
    pub queue : tq.items wh' ≡ erase w (tq.items wh)
    pub off : (u : ℕ) → (s'.waiter u).onlist ≡ (not (u == w) && (s.waiter u).onlist)
    pub who : (u : ℕ) → (s'.waiter u).who ≡ (s.waiter u).who
    pub runs : (t : ℕ) → is_runnable t s'.sched ≡ (t == (s.waiter w).who || is_runnable t s.sched)
    pub queues : s'.sched.threads ≡ s.sched.threads
    pub current : s'.sched.current ≡ s.sched.current

  take_waiter-IsTaken :
      (w : ℕ) (wh : tq.Head) (s : Fiber)
      → has w (tq.items wh) ≡ true
      → IsTaken w wh s (take_waiter w wh s).0 (take_waiter w wh s).1
  unfolding take_waiter
  take_waiter-IsTaken w wh s h = record {
    queue = tq.items-remove w wh h;
    off = λ u. ground arith;
    who = λ u. ground arith;
    runs = λ t. ground arith;
    queues = refl;
    current = refl;
  }

  pub wakeup_one_first :
      (wh : tq.Head) (s : Fiber) (w : ℕ) (ws : List ℕ)
      → tq.items wh ≡ w ∷ ws
      → wakeup_one wh s ≡ take_waiter w wh s
  unfolding wakeup_one
  wakeup_one_first wh s w ws e = rw (e, wakeup_one)

  -- A wakeup takes the waiter that has waited longest, and no other.
  pub wakeup_one-IsTaken :
      (wh : tq.Head) (s : Fiber) (w : ℕ) (ws : List ℕ)
      → tq.items wh ≡ w ∷ ws
      → IsTaken w wh s (wakeup_one wh s).0 (wakeup_one wh s).1 × (tq.items (wakeup_one wh s).0 ≡ ws)
  wakeup_one-IsTaken wh s w ws e =
      let taken = take_waiter-IsTaken w wh s (rw e (ground arith)) in
      rw (wakeup_one_first wh s w ws e) (taken, taken.queue ∙ ap (erase w) e ∙ ground arith)

  pub wakeup_none : (wh : tq.Head) (s : Fiber) → tq.items wh ≡ [] → wakeup_one wh s ≡ (wh, s)
  unfolding wakeup_one
  wakeup_none wh s e = rw (wakeup_one, e) refl

  -- The waiter that has waited longest, if there is one, is off the queue, and its thread can run.
  abbrev pub Wakes : (wh : tq.Head) (s : Fiber) (wh' : tq.Head) (s' : Fiber) → Type 0
  Wakes wh s wh' s' =
      ((tq.items wh ≡ []) × (wh' ≡ wh) × (s' ≡ s))
      ⊎ ((w : ℕ) × (ws : List ℕ) × (tq.items wh ≡ w ∷ ws)
          × (tq.items wh' ≡ ws)
          × IsTaken w wh s wh' s')

  pub wakeup_one-Wakes :
      (wh : tq.Head) (s : Fiber) → Wakes wh s (wakeup_one wh s).0 (wakeup_one wh s).1
  wakeup_one-Wakes wh s = elim (items_cases wh) [
    | inl e ↦ inl (
      e,
      ap (λ (p : tq.Head × Fiber). p.0) (wakeup_none wh s e),
      ap (λ (p : tq.Head × Fiber). p.1) (wakeup_none wh s e),
    )
    | inr (w, ws, e) ↦
        let (taken, left) = wakeup_one-IsTaken wh s w ws e in inr (w, ws, e, left, taken)
  ]

  -- The threads that wait behind the waiters `ws`.
  abbrev pub waits : ℕ → List ℕ → Fiber → Bool
  waits t [] s = false
  waits t (w ∷ ws) s = t == (s.waiter w).who || waits t ws s

  pub record IsAllTaken (ws : List ℕ) (s : Fiber) (wh' : tq.Head) (s' : Fiber) : Type 0 where
    pub queue : tq.items wh' ≡ []
    pub off : (u : ℕ) → (s'.waiter u).onlist ≡ (not (has u ws) && (s.waiter u).onlist)
    pub who : (u : ℕ) → (s'.waiter u).who ≡ (s.waiter u).who
    pub runs : (t : ℕ) → is_runnable t s'.sched ≡ (waits t ws s || is_runnable t s.sched)
    pub queues : s'.sched.threads ≡ s.sched.threads
    pub current : s'.sched.current ≡ s.sched.current

  waits_same :
      (t : ℕ) (ws : List ℕ) (s s' : Fiber)
      → ((u : ℕ) → (s'.waiter u).who ≡ (s.waiter u).who)
      → waits t ws s' ≡ waits t ws s
  waits_same t [] s s' h = refl
  waits_same t (w ∷ ws) s s' h = ground (arith, h w, waits_same t ws s s' h)

  wakeup_loop-IsAllTaken :
      (fuel : ℕ) (wh : tq.Head) (s : Fiber) (ws : List ℕ)
      → tq.items wh ≡ ws
      → length ws < fuel
      → (wh' : tq.Head) × (s' : Fiber) × (wakeup_loop fuel wh s ≡ some (wh', s'))
        × IsAllTaken ws s wh' s'
  unfolding wakeup_loop
  wakeup_loop-IsAllTaken zero wh s ws e h = absurd (omega arith)
  wakeup_loop-IsAllTaken (suc fuel) wh s [] e h = (
    wh,
    s,
    rw (e, wakeup_loop),
    record {
      queue = e;
      off = λ u. refl;
      who = λ u. refl;
      runs = λ t. refl;
      queues = refl;
      current = refl;
    },
  )
  wakeup_loop-IsAllTaken (suc fuel) wh s (w ∷ ws) e h =
      let one = take_waiter-IsTaken w wh s (rw e (ground arith)) in
      let (wh₁, s₁) = take_waiter w wh s in
      let left : tq.items wh₁ ≡ ws = one.queue ∙ ap (erase w) e ∙ ground arith in
      let (wh', s', done, all) = wakeup_loop-IsAllTaken fuel wh₁ s₁ ws left (omega arith) in
      (
        wh',
        s',
        rw (e, wakeup_loop) done,
        record {
          queue = all.queue;
          off = λ u. ground (arith, all.off u, one.off u);
          who = λ u. all.who u ∙ one.who u;
          runs = λ t. ground (arith, all.runs t, one.runs t, waits_same t ws s s₁ one.who);
          queues = all.queues ∙ one.queues;
          current = all.current ∙ one.current;
        },
      )

  -- `wakeup_all` comes to an end with an empty queue. Every waiter of the queue is off the list and
  -- its thread can run; no other waiter leaves its list, and whether another thread can run does not
  -- change.
  pub wakeup_all-IsAllTaken :
      (wh : tq.Head) (s : Fiber)
      → (wh' : tq.Head) × (s' : Fiber) × (wakeup_all wh s ≡ some (wh', s'))
        × IsAllTaken (tq.items wh) s wh' s'
  unfolding wakeup_all
  wakeup_all-IsAllTaken wh s =
      wakeup_loop-IsAllTaken (suc (length (tq.items wh))) wh s (tq.items wh) refl (omega arith)

  erase_last : (w : ℕ) (xs : List ℕ) → has w xs ≡ false → erase w (xs ++ w ∷ []) ≡ xs
  erase_last w [] h = ground arith
  erase_last w (x ∷ xs) h = ground (arith, erase_last w xs (ground arith))

  -- A thread that starts to wait, with a waiter that is not in the queue, is last in the queue and
  -- cannot run. If it goes on with nobody having woken it, it leaves the queue as it was and reports
  -- the timeout; if a wakeup took it first, it reports none, can run, and the queue is that of the
  -- others.
  pub wait_lem :
      (w : ℕ) (now : ℤ) (nsec : ℕ) (wh : tq.Head) (s : Fiber)
      → has w (tq.items wh) ≡ false
      → let (wh₁, s₁) = wait_begin w now nsec wh s in
        (tq.items wh₁ ≡ tq.items wh ++ w ∷ [])
        × (is_runnable s.sched.current s₁.sched ≡ false)
        × ((wait_end w wh₁ s₁).1 ≡ etimedout)
        × (tq.items (wait_end w wh₁ s₁).0 ≡ tq.items wh)
        × ((wait_end w (take_waiter w wh₁ s₁).0 (take_waiter w wh₁ s₁).1).1 ≡ 0)
        × (tq.items (wait_end w (take_waiter w wh₁ s₁).0 (take_waiter w wh₁ s₁).1).0 ≡ tq.items wh)
        × (is_runnable s.sched.current (take_waiter w wh₁ s₁).1.sched ≡ true)
  unfolding wait_begin wait_end take_waiter
  wait_lem w now nsec wh s out =
      let new = tq.items-insert_tail w wh out in
      let back : tq.items (tq.remove w (tq.insert_tail w wh)) ≡ tq.items wh =
        tq.items-remove w _ (rw new (ground (arith, has-append w (tq.items wh) (w ∷ []))))
        ∙ ap (erase w) new
        ∙ erase_last w (tq.items wh) out in
      (
        new,
        ground arith,
        ground arith,
        ground (arith, back),
        ground arith,
        ground (arith, back),
        ground arith,
      )
