-- ===== src/Fiber/Rw/Turns.antt =====
-- The entries and waits in the runs of a read-write lock (rumpfiber.c) keep what holds of it.
use mathlib.Core.Path.{subst}
use rumpuser_baremetal.Base.{
  ℕ, ◌≡◌, refl, ◌≢◌, Bool, true, false, not, ◌&&◌, ◌||◌, [], ◌∷◌, ◌++◌, ◌==◌, if◌then◌else◌, has,
  Distinct, arith, ap, sym, ◌∙◌, ℤ, pos, ◌+ℤ◌, Bool-cases, ◌⊎◌, inl, inr, is_empty,
}
use rumpuser_baremetal.Queue.{Tailq}
use rumpuser_baremetal.Queue.Lists.{has-append, Distinct-append_one}
use rumpuser_baremetal.Heap.{Alloc}
use rumpuser_baremetal.Fiber.{Fiber, curlwp, wait_begin}
use rumpuser_baremetal.Fiber.Mutex.Keeps.{wait_waiter, wait_runs}
use rumpuser_baremetal.Fiber.Rw.{Rw, tryenter, enter_turn}
use rumpuser_baremetal.Fiber.Rw.Run.{System, mode, head, put, queue, settle, turn, Inv, Woken}

module _ ⦃tq : Tailq⦄ ⦃al : Alloc⦄ where
  abbrev pub entered : Bool → Rw → Fiber → Rw
  entered true r f = record r { v = r.v +ℤ pos 1 }
  entered false r f = record r { o = curlwp f }

  -- May a thread enter?
  abbrev pub may : Bool → Rw → Bool
  may b r = r.o == 0 && (not b || is_empty (tq.items r.wwait))

  abbrev waiter_put : Bool → ℕ → Rw → Rw
  waiter_put b w r = put b (tq.insert_tail w (head b r)) r

  pub turn_cases :
      (b : Bool) (w : ℕ) (now : ℤ) (r : Rw) (f : Fiber)
      → (may b r ≡ true) × (enter_turn w now (mode b) r f ≡ (true, entered b r f, f))
        ⊎ (may b r ≡ false)
          × (enter_turn w now (mode b) r f
              ≡ (false, waiter_put b w r, (wait_begin w now 0 (head b r) f).1))
  unfolding enter_turn tryenter wait_begin
  turn_cases true w now r f = elim (Bool-cases (may true r)) [
    | inl ok ↦ inl (ok, ground (arith, ok))
    | inr busy ↦ inr (busy, ground (arith, busy))
  ]
  turn_cases false w now r f = elim (Bool-cases (r.o == 0)) [
    | inl ok ↦ inl (ground (arith, ok), ground (arith, ok))
    | inr busy ↦ inr (ground (arith, busy), rw busy refl)
  ]

  abbrev pub alike : Bool → Bool → Bool
  alike true c = c
  alike false c = not c

  -- The queues when a waiter has joined or left one of them.
  pub has-put :
      (b c : Bool) (w : ℕ) (q : tq.Head) (r : Rw)
      → has w (queue c (put b q r)) ≡ (if alike b c then has w (tq.items q) else has w (queue c r))
  has-put true true w q r = refl
  has-put true false w q r = refl
  has-put false true w q r = refl
  has-put false false w q r = refl

  pub Distinct-put :
      (b c : Bool) (q : tq.Head) (r : Rw)
      → Distinct (tq.items q)
      → Distinct (queue c r)
      → Distinct (queue c (put b q r))
  Distinct-put true true q r d e = d
  Distinct-put true false q r d e = e
  Distinct-put false true q r d e = e
  Distinct-put false false q r d e = d

  entered-queue : (b c : Bool) (r : Rw) (f : Fiber) → queue c (entered b r f) ≡ queue c r
  entered-queue true true r f = refl
  entered-queue true false r f = refl
  entered-queue false true r f = refl
  entered-queue false false r f = refl

  pub alike_eq : (b c : Bool) → alike b c ≡ true → b ≡ c
  alike_eq true true h = refl
  alike_eq true false h = cc
  alike_eq false true h = cc
  alike_eq false false h = refl

  -- A reader that may not enter a lock without a writer finds writers in their queue.
  full :
      (s : System)
      → s.rw_lock.o ≡ 0
      → may true s.rw_lock ≡ false
      → tq.items s.rw_lock.wwait ≡ []
      → ⊥
  full s z busy empty =
      let none_waits : is_empty (tq.items s.rw_lock.wwait) ≡ true = rw empty refl in
      ground (arith, z, busy, none_waits)

  waits_member :
      (b c : Bool) (w x : ℕ) (q : tq.Head) (r : Rw)
      → tq.items q ≡ queue b r ++ x ∷ []
      → has w (queue c (put b q r)) ≡ (has w (queue c r) || (alike b c && w == x))
  waits_member true true w x q r e =
      ap (has w) e ∙ has-append w (queue true r) (x ∷ []) ∙ ground arith
  waits_member true false w x q r e = ground arith
  waits_member false true w x q r e = ground arith
  waits_member false false w x q r e =
      ap (has w) e ∙ has-append w (queue false r) (x ∷ []) ∙ ground arith

  pub alike_refl : (b : Bool) → alike b b ≡ true
  alike_refl true = refl
  alike_refl false = refl

  module _ (own : ℕ → ℕ) (own_apart : (t u : ℕ) → own t ≡ own u → t ≡ u) where
    -- A thread that does not wait is in neither queue.
    out_of_queue :
        (s : System) (t : ℕ) (b : Bool)
        → Inv own s
        → s.waiting t ≡ false
        → has (own t) (queue b s.rw_lock) ≡ false
    out_of_queue s t b i h = elim (Bool-cases (has (own t) (queue b s.rw_lock))) [
      | inl listed ↦
          let (u, same, waits, _) = i.queued b (own t) listed in
          let e : t ≡ u = own_apart t u same in cc (ap s.waiting e, waits, h)
      | inr out ↦ out
    ]

    pub entered-Inv :
        (s : System) (b : Bool)
        → Inv own s
        → s.waiting s.fiber.sched.current ≡ false
        → Inv own
            (settle own s.fiber.sched.current b (true, entered b s.rw_lock s.fiber, s.fiber) s)
    entered-Inv s b i loose =
        let t = s.fiber.sched.current in
        let same : (c : Bool) → queue c (entered b s.rw_lock s.fiber) ≡ queue c s.rw_lock =
          λ c. entered-queue b c s.rw_lock s.fiber in
        let place : (u : ℕ)
            → (if u == t then false else s.waiting u) ≡ true
            → has (own u) (queue (if u == t then b else s.reads u) (entered b s.rw_lock s.fiber))
              ≡ has (own u) (queue (s.reads u) s.rw_lock) =
          λ u h.
            ap (has (own u)) (same (if u == t then b else s.reads u))
            ∙ ap (λ (c : Bool). has (own u) (queue c s.rw_lock)) (ground (arith, h)) in
        record {
          apart = λ c. rw (same c) (i.apart c);
          queued = λ c w h.
              let (u, e, waits, reads) = i.queued c w (ap (has w) (sym (same c)) ∙ h) in
              (u, e, ground (arith, waits, loose), ground (arith, reads, waits, loose));
          who = λ u h. i.who u (ground (arith, h));
          onlist = λ u h. i.onlist u (ground (arith, h)) ∙ sym (place u h);
          ready = λ u h. ground (arith, i.ready u, place u h, h);
        }

    -- The thread goes to the end of its queue.
    waits-Inv :
        (now : ℤ) (s : System) (b : Bool)
        → Inv own s
        → s.waiting s.fiber.sched.current ≡ false
        → let t = s.fiber.sched.current in
          Inv own (
            settle own t b
              (
                false,
                waiter_put b (own t) s.rw_lock,
                (wait_begin (own t) now 0 (head b s.rw_lock) s.fiber).1,
              )
              s)
    waits-Inv now s b i loose =
        let t = s.fiber.sched.current in
        let r = s.rw_lock in
        let q = tq.insert_tail (own t) (head b r) in
        let out = out_of_queue s t b i loose in
        let items : tq.items q ≡ queue b r ++ own t ∷ [] =
          tq.items-insert_tail (own t) (head b r) out in
        let member : (c : Bool) (w : ℕ)
            → has w (queue c (put b q r)) ≡ (has w (queue c r) || (alike b c && w == own t)) =
          λ c w. waits_member b c w (own t) q r items in
        let place : (u : ℕ)
            → has (own u) (queue (if u == t then b else s.reads u) (put b q r))
              ≡ ((u == t) || has (own u) (queue (s.reads u) r)) =
          λ u. elim (Bool-cases (u == t)) [
            | inl e ↦
                let now_in : (if u == t then b else s.reads u) ≡ b = ground (arith, e) in
                ap (λ (c : Bool). has (own u) (queue c (put b q r))) now_in
                ∙ ground (arith, member b (own u), alike_refl b, e, ap own)
            | inr n ↦
                let as_before : (if u == t then b else s.reads u) ≡ s.reads u = ground (arith, n) in
                ap (λ (c : Bool). has (own u) (queue c (put b q r))) as_before
                ∙ ground (arith, member (s.reads u) (own u), n, own_apart u t)
          ] in
        record {
          apart = λ c.
              Distinct-put b c q r
                (rw items (Distinct-append_one (own t) (queue b r) (i.apart b) out)) (i.apart c);
          queued = λ c w h. elim (Bool-cases (has w (queue c r))) [
            | inl old ↦
                let (u, e, waits, reads) = i.queued c w old in
                (u, e, ground (arith, waits), ground (arith, reads, waits, loose))
            | inr new ↦
                let fits : alike b c ≡ true = ground (arith, member c w, h, new) in
                (
                  t,
                  ground (arith, member c w, h, new),
                  ground arith,
                  ground (arith, alike_eq b c fits),
                )
          ];
          who = λ u h. ground (
            arith,
            wait_waiter (own t) now (head b r) s.fiber (own u),
            i.who u,
            own_apart u t,
            h,
          );
          onlist = λ u h. ground (
            arith,
            wait_waiter (own t) now (head b r) s.fiber (own u),
            i.onlist u,
            own_apart u t,
            place u,
            h,
          );
          ready = λ u h.
              ground (arith, wait_runs (own t) now (head b r) s.fiber u, i.ready u, place u, h);
        }

    -- Behind a turn of a writer there is a writer in the lock.
    writer_in :
        (now : ℤ) (s : System)
        → curlwp s.fiber ≢ 0
        → Woken own (turn own s.fiber.sched.current false now s)
    writer_in now s lwp =
        let t = s.fiber.sched.current in
        elim (turn_cases false (own t) now s.rw_lock s.fiber) [
          | inl (ok, e) ↦
              subst (λ (x : Bool × Rw × Fiber). Woken own (settle own t false x s)) (sym e)
                (λ z. absurd (lwp z))
          | inr (busy, e) ↦
              subst (λ (x : Bool × Rw × Fiber). Woken own (settle own t false x s)) (sym e)
                (λ z. ground (arith, busy, z))
        ]

    -- A turn of a reader leaves the writers as they are.
    reader_in :
        (now : ℤ) (s : System)
        → s.waiting s.fiber.sched.current ≡ false
        → Woken own s
        → Woken own (turn own s.fiber.sched.current true now s)
    reader_in now s loose woken =
        let t = s.fiber.sched.current in
        let kept : (u : ℕ) → s.waiting u ≡ true → (u == t) ≡ false =
          λ u w. ground (arith, w, loose, ap s.waiting) in
        elim (turn_cases true (own t) now s.rw_lock s.fiber) [
          | inl (ok, e) ↦
              subst (λ (x : Bool × Rw × Fiber). Woken own (settle own t true x s)) (sym e)
                (λ z. elim (woken z) [
                  | inl empty ↦ inl (λ b. entered-queue true b s.rw_lock s.fiber ∙ empty b)
                  | inr (u, w, r, out) ↦
                      inr (u, ground (arith, kept u w, w), ground (arith, kept u w, r), out)
                ])
          | inr (busy, e) ↦
              subst (λ (x : Bool × Rw × Fiber). Woken own (settle own t true x s)) (sym e)
                (λ z. elim (woken z) [
                  | inl empty ↦ absurd (full s z busy (empty false))
                  | inr (u, w, r, out) ↦
                      inr (u, ground (arith, kept u w, w), ground (arith, kept u w, r), out)
                ])
        ]

    pub turn-Inv :
        (now : ℤ) (s : System) (b : Bool)
        → Inv own s
        → s.waiting s.fiber.sched.current ≡ false
        → Inv own (turn own s.fiber.sched.current b now s)
    turn-Inv now s b i loose =
        let t = s.fiber.sched.current in
        let Goal = λ (x : Bool × Rw × Fiber). Inv own (settle own t b x s) in
        elim (turn_cases b (own t) now s.rw_lock s.fiber) [
          | inl (ok, e) ↦ subst Goal (sym e) (entered-Inv s b i loose)
          | inr (busy, e) ↦ subst Goal (sym e) (waits-Inv now s b i loose)
        ]

    -- So a turn keeps what holds of the wakeups, if that holds before a reader's.
    pub turn-Woken :
        (now : ℤ) (s : System) (b : Bool)
        → s.waiting s.fiber.sched.current ≡ false
        → curlwp s.fiber ≢ 0
        → (b ≡ true → Woken own s)
        → Woken own (turn own s.fiber.sched.current b now s)
    turn-Woken now s true loose lwp woken = reader_in now s loose (woken refl)
    turn-Woken now s false loose lwp woken = writer_in now s lwp
