-- ===== src/Fiber/Mutex/Leaves.antt =====
-- The exits in the runs of a mutex, and whom they wake.
use mathlib.Core.Path.{subst}
use mathlib.Core.Option.{some-injective}
use rumpuser_baremetal.Base.{
  ℕ, ◌-◌, ◌≡◌, refl, ◌≢◌, true, false, ◌||◌, none, some, List, [], ◌∷◌, ◌==◌, has, Distinct, arith,
  ap, sym, ◌∙◌, Bool-cases, ◌⊎◌, inl, inr,
}
use rumpuser_baremetal.Queue.{Tailq}
use rumpuser_baremetal.Heap.{Alloc}
use rumpuser_baremetal.Fiber.{Fiber, wakeup_one}
use rumpuser_baremetal.Fiber.Wakeup.{wakeup_one-IsTaken, wakeup_one_first}
use rumpuser_baremetal.Fiber.Mutex.{Mtx, exit}
use rumpuser_baremetal.Fiber.Mutex.Keeps.{taken_tls}
use rumpuser_baremetal.Fiber.Mutex.Run.{System, queue, left, Inv, Woken}

module _ ⦃tq : Tailq⦄ ⦃al : Alloc⦄ where
  -- The last exit, with what the wakeup leaves.
  abbrev freed : Mtx → Fiber → Mtx × Fiber
  freed m f =
      (record m { v = 0; o = 0; waiters = (wakeup_one m.waiters f).0 }, (wakeup_one m.waiters f).1)

  pub exit_cases :
      (m : Mtx) (f : Fiber)
      → ((m.v ≡ 0) × (exit m f ≡ none))
        ⊎ ((m.v ≡ 1) × (exit m f ≡ some (freed m f)))
        ⊎ ((m.v ≢ 0) × (m.v ≢ 1) × (exit m f ≡ some (record m { v = m.v - 1 }, f)))
  unfolding exit
  exit_cases m f = elim (Bool-cases (m.v == 0)) [
    | inl free ↦ inl (ground arith, ground arith)
    | inr taken ↦ elim (Bool-cases (m.v == 1)) [
      | inl last ↦ inr (inl (ground arith, ground arith))
      | inr deep ↦ inr (inr (ground arith, ground arith, ground arith))
    ]
  ]

  list_cases : (xs : List ℕ) → (xs ≡ []) ⊎ ((x : ℕ) × (ys : List ℕ) × (xs ≡ x ∷ ys))
  list_cases [] = inl refl
  list_cases (x ∷ xs) = inr (x, xs, refl)

  wakeup_one_none : (wh : tq.Head) (f : Fiber) → tq.items wh ≡ [] → wakeup_one wh f ≡ (wh, f)
  unfolding wakeup_one
  wakeup_one_none wh f e = rw (e, wakeup_one)

  module _ (lwp own : ℕ → ℕ) (lwp_apart : (t u : ℕ) → lwp t ≡ lwp u → t ≡ u)
      (own_apart : (t u : ℕ) → own t ≡ own u → t ≡ u) where
    -- The thread that leaves has the mutex.
    pub has_it :
        (s : System) (t : ℕ)
        → Inv lwp own s
        → s.depth t ≢ 0
        → ((s.mtx.o == lwp t) ≡ true) × (s.mtx.v ≡ s.depth t)
    has_it s t i h = (ground (arith, i.depths t), ground (arith, i.depths t))

    deep-Inv :
        (s : System)
        → Inv lwp own s
        → s.depth s.fiber.sched.current ≢ 0
        → Inv lwp own
            (left lwp own s.fiber.sched.current (record s.mtx { v = s.mtx.v - 1 }) s.fiber s)
    deep-Inv s i h =
        let t = s.fiber.sched.current in
        let mine = has_it s t i h in
        record {
          lwps = i.lwps;
          depths = λ u. ground (arith, i.depths u, mine, lwp_apart t u);
          apart = i.apart;
          queued = i.queued;
          who = i.who;
          onlist = i.onlist;
          ready = i.ready;
        }

    -- The last exit with nobody in the queue.
    alone-Inv :
        (s : System)
        → Inv lwp own s
        → s.depth s.fiber.sched.current ≢ 0
        → s.mtx.v ≡ 1
        → Inv lwp own (left lwp own s.fiber.sched.current (record s.mtx { v = 0; o = 0 }) s.fiber s)
    alone-Inv s i h last =
        let t = s.fiber.sched.current in
        let mine = has_it s t i h in
        record {
          lwps = i.lwps;
          depths = λ u. ground (arith, i.depths u, mine, lwp_apart t u);
          apart = i.apart;
          queued = i.queued;
          who = i.who;
          onlist = i.onlist;
          ready = i.ready;
        }

    -- The last exit wakes the thread `u` of the first waiter.
    woken-Inv :
        (s : System) (u : ℕ) (ws : List ℕ)
        → Inv lwp own s
        → s.depth s.fiber.sched.current ≢ 0
        → s.mtx.v ≡ 1
        → queue s ≡ own u ∷ ws
        → s.waiting u ≡ true
        → let s' =
            left lwp own s.fiber.sched.current (freed s.mtx s.fiber).0 (freed s.mtx s.fiber).1 s in
          Inv lwp own s' × (has (own u) (queue s') ≡ false)
    woken-Inv s u ws i h last first waits =
        let t = s.fiber.sched.current in
        let wh = s.mtx.waiters in
        let mine = has_it s t i h in
        let (taken, rest) = wakeup_one-IsTaken wh s.fiber (own u) ws first in
        let apart : Distinct (own u ∷ ws) = rw first at i.apart in
        let member : (w : ℕ) → has w (tq.items (wakeup_one wh s.fiber).0) ≡ has w ws =
          λ w. ap (has w) rest in
        let before : (w : ℕ) → has w (queue s) ≡ (w == own u || has w ws) = λ w. ap (has w) first in
        let tls : (v : ℕ)
            → ((wakeup_one wh s.fiber).1.sched.thread v).tls 0 ≡ (s.fiber.sched.thread v).tls 0 =
          λ v. rw (wakeup_one_first wh s.fiber (own u) ws first) (taken_tls (own u) wh s.fiber v) in
        (
          record {
            lwps = λ v. tls v ∙ i.lwps v;
            depths = λ v. ground (arith, i.depths v, mine, lwp_apart t v);
            apart = rw rest apart.1;
            queued = λ w l. i.queued w (ground (arith, before w, member w, l));
            who = λ v l. taken.who (own v) ∙ i.who v l;
            onlist = λ v l. ground (
              arith,
              taken.off (own v),
              i.onlist v l,
              before (own v),
              member (own v),
              apart.0,
              own_apart v u,
            );
            ready = λ v l. ground (
              arith,
              taken.runs v,
              i.ready v l,
              before (own v),
              member (own v),
              i.who u waits,
              own_apart v u,
            );
          },
          member (own u) ∙ apart.0,
        )

    pub leaves-Inv :
        (s : System) (m : Mtx) (f : Fiber)
        → Inv lwp own s
        → s.depth s.fiber.sched.current ≢ 0
        → exit s.mtx s.fiber ≡ some (m, f)
        → Inv lwp own (left lwp own s.fiber.sched.current m f s)
          × Woken lwp own (left lwp own s.fiber.sched.current m f s)
    leaves-Inv s m f i h e =
        let t = s.fiber.sched.current in
        let mine = has_it s t i h in
        let Goal = λ (p : Mtx × Fiber).
          Inv lwp own (left lwp own t p.0 p.1 s) × Woken lwp own (left lwp own t p.0 p.1 s) in
        elim (exit_cases s.mtx s.fiber) [
          | inl (free, _) ↦ absurd (h (ground (arith, free, mine)))
          | inr (inr (taken, deep, e')) ↦
              subst Goal (some-injective _ _ (sym e' ∙ e))
                (deep-Inv s i h, λ z. absurd (deep (omega (arith, z, taken))))
          | inr (inl (last, e')) ↦
              subst Goal (some-injective _ _ (sym e' ∙ e)) (elim (list_cases (queue s)) [
                | inl empty ↦
                    let quiet = wakeup_one_none s.mtx.waiters s.fiber empty in
                    rw quiet (alone-Inv s i h last, λ z. inl empty)
                | inr (w, ws, first) ↦
                    let (u, same, waits) = i.queued w (rw first (ground arith)) in
                    let first' : queue s ≡ own u ∷ ws = first ∙ ap (λ (x : ℕ). x ∷ ws) same in
                    let (i', out) = woken-Inv s u ws i h last first' waits in
                    (i', λ z. inr (u, waits, out))
              ])
        ]
