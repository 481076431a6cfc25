-- ===== src/Fiber/Mutex/Keeps.antt =====
-- Every step of the runs of a mutex keeps what holds of it.
use mathlib.Core.Path.{subst}
use rumpuser_baremetal.Base.{
  ℕ, ◌+◌, ◌≡◌, refl, ◌≢◌, Bool, true, false, not, ◌&&◌, ◌||◌, [], ◌∷◌, ◌++◌, ◌==◌, if◌then◌else◌,
  has, erase, arith, ap, sym, ◌∙◌, ℤ, Bool-cases, ◌⊎◌, inl, inr,
}
use rumpuser_baremetal.Queue.{Tailq}
use rumpuser_baremetal.Queue.Lists.{
  has-append, has-erase, erase_out, Distinct-erase, Distinct-append_one,
}
use rumpuser_baremetal.Heap.{Alloc}
use rumpuser_baremetal.Sched.{is_runnable}
use rumpuser_baremetal.Fiber.{Fiber, curlwp, wait_begin, wait_end, take_waiter}
use rumpuser_baremetal.Fiber.Mutex.{Mtx, tryenter, enter_turn}
use rumpuser_baremetal.Fiber.Mutex.Run.{System, queue, settle, turn, resumed, Inv}

module _ ⦃tq : Tailq⦄ ⦃al : Alloc⦄ where
  abbrev entered : Mtx → Fiber → Mtx
  entered m f = record m { v = m.v + 1; o = curlwp f }

  pub turn_cases :
      (w : ℕ) (now : ℤ) (m : Mtx) (f : Fiber)
      → (((m.v == 0) || (m.o == curlwp f)) ≡ true) × (enter_turn w now m f ≡ (true, entered m f, f))
        ⊎ (((m.v == 0) || (m.o == curlwp f)) ≡ false)
          × (enter_turn w now m f ≡ (
            false,
            record m { waiters = tq.insert_tail w m.waiters },
            (wait_begin w now 0 m.waiters f).1,
          ))
  unfolding enter_turn tryenter wait_begin
  turn_cases w now m f = elim (Bool-cases (m.v == 0)) [
    | inl free ↦ inl (ground arith, ground arith)
    | inr taken ↦ elim (Bool-cases (m.o == curlwp f)) [
      | inl mine ↦ inl (ground arith, ground arith)
      | inr other ↦ inr (ground arith, ground arith)
    ]
  ]

  -- What the start of a wait does to the threads and to the waiters.
  wait_tls :
      (w : ℕ) (now : ℤ) (wh : tq.Head) (f : Fiber) (t : ℕ)
      → ((wait_begin w now 0 wh f).1.sched.thread t).tls 0 ≡ (f.sched.thread t).tls 0
  unfolding wait_begin
  wait_tls w now wh f t = ground arith

  pub wait_waiter :
      (w : ℕ) (now : ℤ) (wh : tq.Head) (f : Fiber) (u : ℕ)
      → (wait_begin w now 0 wh f).1.waiter u
        ≡ (if u == w then record { who = f.sched.current; onlist = true } else f.waiter u)
  unfolding wait_begin
  wait_waiter w now wh f u = refl

  pub wait_runs :
      (w : ℕ) (now : ℤ) (wh : tq.Head) (f : Fiber) (t : ℕ)
      → (t == f.sched.current) ≡ false
      → is_runnable t (wait_begin w now 0 wh f).1.sched ≡ is_runnable t f.sched
  unfolding wait_begin
  wait_runs w now wh f t n = ground arith

  pub taken_tls :
      (w : ℕ) (wh : tq.Head) (f : Fiber) (t : ℕ)
      → ((take_waiter w wh f).1.sched.thread t).tls 0 ≡ (f.sched.thread t).tls 0
  unfolding take_waiter
  taken_tls w wh f t = ground arith

  module _ (lwp own : ℕ → ℕ) (lwp_apart : (t u : ℕ) → lwp t ≡ lwp u → t ≡ u)
      (own_apart : (t u : ℕ) → own t ≡ own u → t ≡ u) where
    -- A thread that does not wait is not in the queue.
    out_of_queue :
        (s : System) (t : ℕ) → Inv lwp own s → s.waiting t ≡ false → has (own t) (queue s) ≡ false
    out_of_queue s t i h = elim (Bool-cases (has (own t) (queue s))) [
      | inl listed ↦
          let (u, same, waits) = i.queued (own t) listed in
          let e : t ≡ u = own_apart t u same in ground (arith, ap s.waiting e, waits, h)
      | inr out ↦ out
    ]

    entered-Inv :
        (s : System)
        → Inv lwp own s
        → s.waiting s.fiber.sched.current ≡ false
        → ((s.mtx.v == 0) || (s.mtx.o == curlwp s.fiber)) ≡ true
        → Inv lwp own
            (settle lwp own s.fiber.sched.current (true, entered s.mtx s.fiber, s.fiber) s)
    entered-Inv s i loose may =
        let t = s.fiber.sched.current in
        let mine = i.lwps t in
        record {
          lwps = i.lwps;
          depths = λ u. ground (arith, i.depths u, i.depths t, mine, may, lwp_apart t u);
          apart = i.apart;
          queued = λ w h. let (u, e, waits) = i.queued w h in (u, e, ground (arith, waits, loose));
          who = λ u h. i.who u (ground (arith, h));
          onlist = λ u h. i.onlist u (ground (arith, h));
          ready = λ u h. i.ready u (ground (arith, h));
        }

    waits-Inv :
        (now : ℤ) (s : System)
        → Inv lwp own s
        → s.waiting s.fiber.sched.current ≡ false
        → let t = s.fiber.sched.current in
          let wh = s.mtx.waiters in
          Inv lwp own (
            settle lwp own t
              (
                false,
                record s.mtx { waiters = tq.insert_tail (own t) wh },
                (wait_begin (own t) now 0 wh s.fiber).1,
              )
              s)
    waits-Inv now s i loose =
        let t = s.fiber.sched.current in
        let wh = s.mtx.waiters in
        let out = out_of_queue s t i loose in
        let items : tq.items (tq.insert_tail (own t) wh) ≡ tq.items wh ++ own t ∷ [] =
          tq.items-insert_tail (own t) wh out in
        let member : (w : ℕ)
            → has w (tq.items (tq.insert_tail (own t) wh)) ≡ (has w (tq.items wh) || w == own t) =
          λ w. ap (has w) items ∙ has-append w (tq.items wh) (own t ∷ []) ∙ ground arith in
        record {
          lwps = λ u. wait_tls (own t) now wh s.fiber u ∙ i.lwps u;
          depths = i.depths;
          apart = rw items (Distinct-append_one (own t) (tq.items wh) i.apart out);
          queued = λ w h. elim (Bool-cases (has w (tq.items wh))) [
            | inl old ↦ (let (u, e, waits) = i.queued w old in (u, e, ground (arith, waits)))
            | inr new ↦ (t, ground (arith, member w), ground arith)
          ];
          who = λ u h.
              ground (arith, wait_waiter (own t) now wh s.fiber (own u), i.who u, own_apart u t, h);
          onlist = λ u h. ground (
            arith,
            wait_waiter (own t) now wh s.fiber (own u),
            i.onlist u,
            own_apart u t,
            member (own u),
            h,
          );
          ready = λ u h.
              ground (arith, wait_runs (own t) now wh s.fiber u, i.ready u, member (own u), h);
        }

    pub turn-Inv :
        (now : ℤ) (s : System)
        → Inv lwp own s
        → s.waiting s.fiber.sched.current ≡ false
        → Inv lwp own (turn lwp own s.fiber.sched.current now s)
          × ((turn lwp own s.fiber.sched.current now s).mtx.v ≢ 0)
    turn-Inv now s i loose =
        let t = s.fiber.sched.current in
        let Goal = λ (r : Bool × Mtx × Fiber).
          Inv lwp own (settle lwp own t r s) × ((settle lwp own t r s).mtx.v ≢ 0) in
        elim (turn_cases (own t) now s.mtx s.fiber) [
          | inl (may, e) ↦ subst Goal (sym e) (entered-Inv s i loose may, omega arith)
          | inr (taken, e) ↦ subst Goal (sym e) (waits-Inv now s i loose, ground (arith, taken))
        ]

    resumed_items :
        (s : System)
        → Inv lwp own s
        → s.waiting s.fiber.sched.current ≡ true
        → tq.items (wait_end (own s.fiber.sched.current) s.mtx.waiters s.fiber).0
          ≡ erase (own s.fiber.sched.current) (queue s)
    unfolding wait_end
    resumed_items s i waits =
        let t = s.fiber.sched.current in
        elim (Bool-cases (has (own t) (queue s))) [
          | inl listed ↦
              let flag : (s.fiber.waiter (own t)).onlist ≡ true = i.onlist t waits ∙ listed in
              rw flag (tq.items-remove (own t) s.mtx.waiters listed)
          | inr out ↦
              let flag : (s.fiber.waiter (own t)).onlist ≡ false = i.onlist t waits ∙ out in
              rw flag (sym (erase_out (own t) (queue s) out))
        ]

    -- Behind its wait a thread is out of the queue, whoever woke it.
    pub resumed-Inv :
        (s : System)
        → Inv lwp own s
        → s.waiting s.fiber.sched.current ≡ true
        → Inv lwp own (resumed lwp own s.fiber.sched.current s)
    resumed-Inv s i waits =
        let t = s.fiber.sched.current in
        let wh' = (wait_end (own t) s.mtx.waiters s.fiber).0 in
        let items : tq.items wh' ≡ erase (own t) (queue s) = resumed_items s i waits in
        let member : (w : ℕ) → has w (tq.items wh') ≡ (not (w == own t) && has w (queue s)) =
          λ w. ap (has w) items ∙ has-erase w (own t) (queue s) i.apart in
        record {
          lwps = i.lwps;
          depths = i.depths;
          apart = rw items (Distinct-erase (own t) (queue s) i.apart);
          queued = λ w h.
              let old : has w (queue s) ≡ true = ground (arith, member w, h) in
              let (u, e, waits') = i.queued w old in
              (u, e, ground (arith, member w, h, waits', e, ap own));
          who = λ u h. i.who u (ground (arith, h));
          onlist = λ u h. ground (arith, i.onlist u, member (own u), own_apart u t, h);
          ready = λ u h. ground (arith, i.ready u, member (own u), own_apart u t, h);
        }
