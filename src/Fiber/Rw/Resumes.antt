-- ===== src/Fiber/Rw/Resumes.antt =====
-- The end of a wait in the runs of a read-write lock (rumpfiber.c), and what others do meanwhile.
use rumpuser_baremetal.Base.{
  ℕ, ◌≡◌, refl, Bool, true, false, not, ◌&&◌, [], ◌==◌, has, erase, Distinct, arith, ap, sym, ◌∙◌,
  Bool-cases, inl, inr, ==_iff,
}
use rumpuser_baremetal.Queue.{Tailq}
use rumpuser_baremetal.Queue.Lists.{has-erase, Distinct-erase, erase_out}
use rumpuser_baremetal.Heap.{Alloc}
use rumpuser_baremetal.Fiber.{Fiber, wait_end}
use rumpuser_baremetal.Fiber.Rw.{Rw}
use rumpuser_baremetal.Fiber.Rw.Run.{System, head, put, queue, resumed, Inv, Woken}
use rumpuser_baremetal.Fiber.Rw.Turns.{alike, alike_refl, Distinct-put}

module _ ⦃tq : Tailq⦄ ⦃al : Alloc⦄ where
  ends_member :
      (b c : Bool) (w x : ℕ) (q : tq.Head) (r : Rw)
      → tq.items q ≡ erase x (queue b r)
      → Distinct (queue b r)
      → has w (queue c (put b q r)) ≡ (not (alike b c && w == x) && has w (queue c r))
  ends_member true true w x q r e d = ap (has w) e ∙ has-erase w x (queue true r) d
  ends_member true false w x q r e d = refl
  ends_member false true w x q r e d = refl
  ends_member false false w x q r e d = ap (has w) e ∙ has-erase w x (queue false r) d

  put-o : (b : Bool) (q : tq.Head) (r : Rw) → (put b q r).o ≡ r.o
  put-o true q r = refl
  put-o false q r = refl

  put_empty :
      (b c : Bool) (x : ℕ) (q : tq.Head) (r : Rw)
      → tq.items q ≡ erase x (queue b r)
      → ((d : Bool) → queue d r ≡ [])
      → queue c (put b q r) ≡ []
  put_empty true true x q r e n = e ∙ ap (erase x) (n true)
  put_empty true false x q r e n = n false
  put_empty false true x q r e n = n true
  put_empty false false x q r e n = e ∙ ap (erase x) (n false)

  end_items :
      (w : ℕ) (q : tq.Head) (f : Fiber)
      → (f.waiter w).onlist ≡ has w (tq.items q)
      → tq.items (wait_end w q f).0 ≡ erase w (tq.items q)
  unfolding wait_end
  end_items w q f e = elim (Bool-cases (has w (tq.items q))) [
    | inl listed ↦ rw (e ∙ listed) (tq.items-remove w q listed)
    | inr out ↦ rw (e ∙ out) (sym (erase_out w (tq.items q) out))
  ]

  module _ (own : ℕ → ℕ) (own_apart : (t u : ℕ) → own t ≡ own u → t ≡ u) where
    -- Behind its wait a thread is out of its queue, whoever woke it.
    pub resumed-Inv :
        (s : System)
        → Inv own s
        → s.waiting s.fiber.sched.current ≡ true
        → Inv own (resumed own s.fiber.sched.current s)
    resumed-Inv s i waits =
        let t = s.fiber.sched.current in
        let b = s.reads t in
        let r = s.rw_lock in
        let q = (wait_end (own t) (head b r) s.fiber).0 in
        let items : tq.items q ≡ erase (own t) (queue b r) =
          end_items (own t) (head b r) s.fiber (i.onlist t waits) in
        let member : (c : Bool) (w : ℕ)
            → has w (queue c (put b q r)) ≡ (not (alike b c && w == own t) && has w (queue c r)) =
          λ c w. ends_member b c w (own t) q r items (i.apart b) in
        record {
          apart = λ c.
              Distinct-put b c q r (rw items (Distinct-erase (own t) (queue b r) (i.apart b)))
                (i.apart c);
          queued = λ c w h.
              let old : has w (queue c r) ≡ true = ground (arith, member c w, h) in
              let (u, e, waits', reads) = i.queued c w old in
              (
                u,
                e,
                elim (Bool-cases (u == t)) [
                  | inr n ↦ ground (arith, n, waits')
                  | inl own_one ↦
                      let here : u ≡ t = (==_iff u t).0 own_one in
                      let same : alike b c ≡ true =
                        sym (ap (alike b) (sym (ap s.reads here) ∙ reads)) ∙ alike_refl b in
                      let mine : w ≡ own t = e ∙ ap own here in
                      ground (arith, member c w, h, same, mine)
                ],
                reads,
              );
          who = λ u h. i.who u (ground (arith, h));
          onlist = λ u h. ground (arith, i.onlist u, member (s.reads u) (own u), own_apart u t, h);
          ready = λ u h. ground (arith, i.ready u, member (s.reads u) (own u), own_apart u t, h);
        }

    pub resumed-Woken :
        (s : System)
        → Inv own s
        → s.waiting s.fiber.sched.current ≡ true
        → s.reads s.fiber.sched.current ≡ true
        → Woken own s
        → Woken own (resumed own s.fiber.sched.current s)
    resumed-Woken s i waits reads woken z =
        let t = s.fiber.sched.current in
        let b = s.reads t in
        let r = s.rw_lock in
        let q = (wait_end (own t) (head b r) s.fiber).0 in
        let items : tq.items q ≡ erase (own t) (queue b r) =
          end_items (own t) (head b r) s.fiber (i.onlist t waits) in
        elim (woken (sym (put-o b q r) ∙ z)) [
          | inl empty ↦ inl (λ c. put_empty b c (own t) q r items empty)
          | inr (u, w, writes, out) ↦ inr (
            u,
            ground (arith, w, writes, reads, ap s.reads),
            writes,
            ground (arith, ends_member b false (own u) (own t) q r items (i.apart b), out),
          )
        ]
