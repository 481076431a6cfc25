-- ===== src/Fiber/Rw/Safe.antt =====
-- No lost wakeups of a read-write lock (rumpfiber.c), in every state that its runs reach.
use rumpuser_baremetal.Base.{
  ℕ, ◌≡◌, ◌≢◌, Bool, true, false, some, [], has, arith, ap, sym, ◌∙◌, Bool-cases, inl, inr, ◌⊎◌,
}
use rumpuser_baremetal.Queue.{Tailq}
use rumpuser_baremetal.Heap.{Alloc}
use rumpuser_baremetal.Fiber.{Fiber, Waiter, curlwp}
use rumpuser_baremetal.Fiber.Rw.{Rw, downgrade, tryupgrade, is_minus_one}
use rumpuser_baremetal.Fiber.Rw.Run.{
  System, queue, runs, resumed, IsElsewhere, Step, tries, resumes, leaves, downgrades, upgrades,
  elsewhere, IsNew, Reach, start, later, Inv, Woken,
}
use rumpuser_baremetal.Fiber.Rw.Turns.{turn-Inv, turn-Woken}
use rumpuser_baremetal.Fiber.Rw.Resumes.{resumed-Inv, resumed-Woken}
use rumpuser_baremetal.Fiber.Rw.Exits.{leaves-Inv}

module _ ⦃tq : Tailq⦄ ⦃al : Alloc⦄ where
  downgrade_lem :
      (r r' : Rw) (f : Fiber)
      → downgrade r f ≡ some r'
      → (r'.o ≡ r.o) × (r'.rwait ≡ r.rwait) × (r'.wwait ≡ r.wwait)
  unfolding downgrade
  downgrade_lem r r' f e = (ground arith, ground arith, ground arith)

  tryupgrade_lem :
      (r : Rw) (f : Fiber)
      → let r' = (tryupgrade r f).1 in
        ((r'.o ≡ r.o) ⊎ (r'.o ≡ curlwp f)) × (r'.rwait ≡ r.rwait) × (r'.wwait ≡ r.wwait)
  unfolding tryupgrade
  tryupgrade_lem r f = elim (Bool-cases (is_minus_one r.v)) [
    | inl e ↦ (inr (ground (arith, e)), ground arith, ground arith)
    | inr e ↦ (inl (ground (arith, e)), ground arith, ground arith)
  ]

  same_queue :
      (b : Bool) (r r' : Rw) → r'.rwait ≡ r.rwait → r'.wwait ≡ r.wwait → queue b r' ≡ queue b r
  same_queue true r r' e f = ap tq.items e
  same_queue false r r' e f = ap tq.items f

  module _ (own : ℕ → ℕ) (own_apart : (t u : ℕ) → own t ≡ own u → t ≡ u) where
    new-Inv : (s : System) → IsNew own s → Inv own s × Woken own s
    new-Inv s n = (
      record {
        apart = λ b. rw (n.empty b) tt;
        queued = λ b w h. cc (ap (has w) (n.empty b), h);
        who = λ t h. cc (n.waiting t, h);
        onlist = λ t h. cc (n.waiting t, h);
        ready = λ t h. cc (n.waiting t, h);
      },
      λ z. inl n.empty,
    )

    elsewhere-Inv :
        (s : System) (f : Fiber)
        → Inv own s
        → IsElsewhere own s f
        → Inv own (record s { fiber = f })
    elsewhere-Inv s f i k = record {
      apart = i.apart;
      queued = i.queued;
      who = λ t h. ap (λ (w : Waiter). w.who) (k.waiters t h) ∙ i.who t h;
      onlist = λ t h. ap (λ (w : Waiter). w.onlist) (k.waiters t h) ∙ i.onlist t h;
      ready = λ t h. ground (arith, k.stays t, i.ready t, h);
    }

    -- The queues stay, and a writer is let in at most.
    stays-Inv :
        (s : System) (r' : Rw)
        → Inv own s
        → Woken own s
        → (r'.o ≡ s.rw_lock.o) ⊎ (r'.o ≢ 0)
        → r'.rwait ≡ s.rw_lock.rwait
        → r'.wwait ≡ s.rw_lock.wwait
        → Inv own (record s { rw_lock = r' }) × Woken own (record s { rw_lock = r' })
    stays-Inv s r' i w owner e f =
        let same : (b : Bool) → queue b r' ≡ queue b s.rw_lock =
          λ b. same_queue b s.rw_lock r' e f in
        (
          record {
            apart = λ b. rw (same b) (i.apart b);
            queued = λ b x h. i.queued b x (ap (has x) (sym (same b)) ∙ h);
            who = i.who;
            onlist = λ t h. i.onlist t h ∙ ap (has (own t)) (sym (same (s.reads t)));
            ready = λ t h. ground (arith, i.ready t h, ap (has (own t)) (same (s.reads t)));
          },
          λ z. elim owner [
            | inr let_in ↦ absurd (let_in z)
            | inl kept ↦ elim (w (sym kept ∙ z)) [
              | inl empty ↦ inl (λ b. same b ∙ empty b)
              | inr (t, waits, writes, out) ↦
                  inr (t, waits, writes, ap (has (own t)) (same false) ∙ out)
            ]
          ],
        )

    Step-Inv : (s s' : System) → Step own s s' → Inv own s × Woken own s → Inv own s' × Woken own s'
    Step-Inv s _ (tries now b loose lwp) (i, w) = (
      turn-Inv own own_apart now s b i loose,
      turn-Woken own own_apart now s b loose lwp (λ _. w),
    )
    Step-Inv s _ (resumes now waits lwp) (i, w) =
        let t = s.fiber.sched.current in
        let before : System = resumed own t s in
        (
          turn-Inv own own_apart now before (s.reads t) (resumed-Inv own own_apart s i waits)
              (ground arith),
          turn-Woken own own_apart now before (s.reads t) (ground arith) lwp
              (λ reads. resumed-Woken own own_apart s i waits reads w),
        )
    Step-Inv s _ (leaves {r = r} {f = f} e) (i, w) = leaves-Inv own own_apart s r f i e
    Step-Inv s _ (downgrades {r = r} e) (i, w) =
        let (o, rs, ws) = downgrade_lem s.rw_lock r s.fiber e in stays-Inv s r i w (inl o) rs ws
    Step-Inv s _ (upgrades lwp) (i, w) =
        let (o, rs, ws) = tryupgrade_lem s.rw_lock s.fiber in
        stays-Inv s (tryupgrade s.rw_lock s.fiber).1 i w
          (elim o [ inl kept ↦ inl kept | inr mine ↦ inr (λ z. lwp (sym mine ∙ z)) ]) rs ws
    Step-Inv s _ (elsewhere {f = f} k) (i, w) = (elsewhere-Inv s f i k, w)

    Reach-Inv : (s : System) → Reach own s → Inv own s × Woken own s
    Reach-Inv s (start n) = new-Inv s n
    Reach-Inv s (later {s = s₀} r step) = Step-Inv s₀ s step (Reach-Inv s₀ r)

    -- No wakeup of a read-write lock is lost: in every state that threads with lwps that are not NULL and
    -- different waiters reach by entering it as readers or writers, waiting, leaving, downgrading and
    -- upgrading, if no writer holds the lock and somebody is in one of its queues, there is a thread that
    -- waits to write, is out of the queue of the writers, and can run.
    pub Reach-writer_woken :
        (s : System) (b : Bool)
        → Reach own s
        → s.rw_lock.o ≡ 0
        → queue b s.rw_lock ≢ []
        → (t : ℕ) × (s.waiting t ≡ true)
          × (s.reads t ≡ false)
          × (has (own t) (queue false s.rw_lock) ≡ false)
          × (runs s t ≡ true)
    Reach-writer_woken s b r free some_queued =
        let (i, woken) = Reach-Inv s r in
        elim (woken free) [
          | inl empty ↦ absurd (some_queued (empty b))
          | inr (t, waits, writes, out) ↦
              let at = ap (λ (c : Bool). has (own t) (queue c s.rw_lock)) writes in
              (t, waits, writes, out, ground (arith, i.ready t waits, at, out))
        ]
