-- ===== src/Fiber/Rw/Exits.antt =====
-- The exits in the runs of a read-write lock (rumpfiber.c), and whom they wake.
use mathlib.Core.Path.{subst}
use mathlib.Core.Option.{some-injective}
use rumpuser_baremetal.Base.{
  ℕ, ◌≡◌, Bool, true, false, not, ◌&&◌, ◌||◌, some, List, [], ◌∷◌, ◌==◌, has, erase, Distinct,
  arith, ap, sym, ◌∙◌, Bool-cases, inl, inr,
}
use rumpuser_baremetal.Queue.{Tailq}
use rumpuser_baremetal.Queue.Lists.{has-erase, Distinct-erase}
use rumpuser_baremetal.Heap.{Alloc}
use rumpuser_baremetal.Fiber.{Fiber}
use rumpuser_baremetal.Fiber.Wakeup.{IsTaken, IsAllTaken, waits}
use rumpuser_baremetal.Fiber.Rw.{
  Rw, left, exit, exit-IsTaken, exit-IsAllTaken, left_wwait, left_rwait,
}
use rumpuser_baremetal.Fiber.Wakeup.{items_cases}
use rumpuser_baremetal.Fiber.Rw.Writers.{exit_idle}
use rumpuser_baremetal.Fiber.Rw.Run.{System, queue, Inv, Woken}

module _ ⦃tq : Tailq⦄ ⦃al : Alloc⦄ where
  taken_member :
      (c : Bool) (w x : ℕ) (r r' : Rw)
      → tq.items r'.wwait ≡ erase w (tq.items r.wwait)
      → r'.rwait ≡ r.rwait
      → Distinct (tq.items r.wwait)
      → has x (queue c r') ≡ (not (not c && x == w) && has x (queue c r))
  taken_member true w x r r' e same d = ap (λ (q : tq.Head). has x (tq.items q)) same
  taken_member false w x r r' e same d = ap (has x) e ∙ has-erase x w (tq.items r.wwait) d

  taken_apart :
      (c : Bool) (w : ℕ) (r r' : Rw)
      → tq.items r'.wwait ≡ erase w (tq.items r.wwait)
      → r'.rwait ≡ r.rwait
      → ((b : Bool) → Distinct (queue b r))
      → Distinct (queue c r')
  taken_apart true w r r' e same d = rw same (d true)
  taken_apart false w r r' e same d = rw e (Distinct-erase w (tq.items r.wwait) (d false))

  all_member :
      (c : Bool) (x : ℕ) (r r' : Rw)
      → tq.items r'.rwait ≡ []
      → r'.wwait ≡ r.wwait
      → has x (queue c r') ≡ (not c && has x (queue c r))
  all_member true x r r' e same = ap (has x) e
  all_member false x r r' e same = ap (λ (q : tq.Head). has x (tq.items q)) same

  all_apart :
      (c : Bool) (r r' : Rw)
      → tq.items r'.rwait ≡ []
      → r'.wwait ≡ r.wwait
      → ((b : Bool) → Distinct (queue b r))
      → Distinct (queue c r')
  all_apart true r r' e same d = rw e tt
  all_apart false r r' e same d = rw same (d false)

  left-queue : (c : Bool) (r : Rw) → queue c (left r) ≡ queue c r
  left-queue true r = ap tq.items (left_rwait r)
  left-queue false r = ap tq.items (left_wwait r)

  all_empty : (r : Rw) → tq.items r.rwait ≡ [] → tq.items r.wwait ≡ [] → (c : Bool) → queue c r ≡ []
  all_empty r e f true = e
  all_empty r e f false = f

  -- The thread of a waiter in the list is one of those that wait there.
  waits_has :
      (t w : ℕ) (ws : List ℕ) (f : Fiber)
      → has w ws ≡ true
      → (f.waiter w).who ≡ t
      → waits t ws f ≡ true
  waits_has t w [] f h e = cc
  waits_has t w (x ∷ ws) f h e = elim (Bool-cases (w == x)) [
    | inl same ↦ ground (arith, same, e, ap (λ (y : ℕ). (f.waiter y).who))
    | inr other ↦ ground (arith, waits_has t w ws f, h, other, e)
  ]

  module _ (own : ℕ → ℕ) (own_apart : (t u : ℕ) → own t ≡ own u → t ≡ u) where
    -- A thread that waits to write is not among the readers.
    not_reading :
        (s : System) (v : ℕ)
        → Inv own s
        → s.reads v ≡ false
        → has (own v) (queue true s.rw_lock) ≡ false
    not_reading s v i e = elim (Bool-cases (has (own v) (queue true s.rw_lock))) [
      | inl listed ↦
          let (u, same, _, reads) = i.queued true (own v) listed in
          cc (ap s.reads (own_apart v u same), reads, e)
      | inr out ↦ out
    ]

    -- A thread that is not among the readers and is in its queue waits to write.
    reading_out :
        (s : System) (v : ℕ)
        → has (own v) (queue true s.rw_lock) ≡ false
        → (not (has (own v) (queue (s.reads v) s.rw_lock)) || not (s.reads v)) ≡ true
    reading_out s v out = elim (Bool-cases (s.reads v)) [
      | inl e ↦
          let was = ap (λ (c : Bool). has (own v) (queue c s.rw_lock)) e in ground (arith, was, out)
      | inr e ↦ ground (arith, e)
    ]

    left-Inv : (s : System) → Inv own s → Inv own (record s { rw_lock = left s.rw_lock })
    left-Inv s i =
        let same : (c : Bool) → queue c (left s.rw_lock) ≡ queue c s.rw_lock =
          λ c. left-queue c s.rw_lock in
        record {
          apart = λ c. rw (same c) (i.apart c);
          queued = λ c w h. i.queued c w (ap (has w) (sym (same c)) ∙ h);
          who = i.who;
          onlist = λ v h. i.onlist v h ∙ ap (has (own v)) (sym (same (s.reads v)));
          ready = λ v h. ground (arith, i.ready v h, ap (has (own v)) (same (s.reads v)));
        }

    taken-Inv :
        (s : System) (u : ℕ) (r' : Rw) (f' : Fiber)
        → Inv own s
        → s.waiting u ≡ true
        → s.reads u ≡ false
        → IsTaken (own u) s.rw_lock.wwait s.fiber r'.wwait f'
        → r'.rwait ≡ s.rw_lock.rwait
        → Inv own (record s { rw_lock = r'; fiber = f' })
    taken-Inv s u r' f' i waiting writes k same =
        let r = s.rw_lock in
        let member : (c : Bool) (x : ℕ)
            → has x (queue c r') ≡ (not (not c && x == own u) && has x (queue c r)) =
          λ c x. taken_member c (own u) x r r' k.queue same (i.apart false) in
        record {
          apart = λ c. taken_apart c (own u) r r' k.queue same i.apart;
          queued = λ c w h. i.queued c w (ground (arith, member c w, h));
          who = λ v h. k.who (own v) ∙ i.who v h;
          onlist = λ v h. ground (
            arith,
            k.off (own v),
            i.onlist v h,
            member (s.reads v) (own v),
            own_apart v u,
            writes,
            ap s.reads,
          );
          ready = λ v h. ground (
            arith,
            k.runs v,
            i.ready v h,
            member (s.reads v) (own v),
            i.who u waiting,
            own_apart v u,
          );
        }

    all-Inv :
        (s : System) (r' : Rw) (f' : Fiber)
        → Inv own s
        → IsAllTaken (tq.items s.rw_lock.rwait) s.fiber r'.rwait f'
        → r'.wwait ≡ s.rw_lock.wwait
        → Inv own (record s { rw_lock = r'; fiber = f' })
    all-Inv s r' f' i k same =
        let r = s.rw_lock in
        let member : (c : Bool) (x : ℕ) → has x (queue c r') ≡ (not c && has x (queue c r)) =
          λ c x. all_member c x r r' k.queue same in
        record {
          apart = λ c. all_apart c r r' k.queue same i.apart;
          queued = λ c w h. i.queued c w (ground (arith, member c w, h));
          who = λ v h. k.who (own v) ∙ i.who v h;
          onlist = λ v h. elim (Bool-cases (s.reads v)) [
            | inl e ↦
                let was = ap (λ (c : Bool). has (own v) (queue c r)) e in
                ground (arith, k.off (own v), i.onlist v h, member (s.reads v) (own v), e, was)
            | inr e ↦
                let out = not_reading s v i e in
                ground (arith, k.off (own v), i.onlist v h, member (s.reads v) (own v), e, out)
          ];
          ready = λ v h. elim (Bool-cases (has (own v) (queue true r))) [
            | inl listed ↦
                let woken = waits_has v (own v) (queue true r) s.fiber listed (i.who v h) in
                ground (arith, k.runs v, woken)
            | inr out ↦
                ground
                  (arith, k.runs v, i.ready v h, member (s.reads v) (own v), reading_out s v out)
          ];
        }

    -- Whoever leaves, the lock is without a writer: then nobody is left in the queues, or a writer was
    -- woken.
    pub leaves-Inv :
        (s : System) (r' : Rw) (f' : Fiber)
        → Inv own s
        → exit s.rw_lock s.fiber ≡ some (r', f')
        → Inv own (record s { rw_lock = r'; fiber = f' })
          × Woken own (record s { rw_lock = r'; fiber = f' })
    leaves-Inv s r' f' i e =
        let r = s.rw_lock in
        let Goal = λ (x : Rw × Fiber).
          Inv own (record s { rw_lock = x.0; fiber = x.1 })
          × Woken own (record s { rw_lock = x.0; fiber = x.1 }) in
        elim (items_cases r.wwait) [
          | inr (w, ws, full) ↦
              let (r₁, f₁, done, k, same, _, _) = exit-IsTaken r s.fiber w ws full in
              let (u, mine, waiting, writes) = i.queued false w (ap (has w) full ∙ ground arith) in
              let k' : IsTaken (own u) r.wwait s.fiber r₁.wwait f₁ =
                subst (λ (x : ℕ). IsTaken x r.wwait s.fiber r₁.wwait f₁) mine k in
              subst Goal (some-injective _ _ (sym done ∙ e)) (
                taken-Inv s u r₁ f₁ i waiting writes k' same,
                λ z. inr (
                  u,
                  waiting,
                  writes,
                  taken_member false (own u) (own u) r r₁ k'.queue same (i.apart false)
                      ∙ ground arith,
                ),
              )
          | inl none_writes ↦ elim (items_cases r.rwait) [
            | inr (w, ws, full) ↦
                let (r₁, f₁, done, k, same, _, _) =
                  exit-IsAllTaken r s.fiber w ws none_writes full in
                let k' : IsAllTaken (tq.items r.rwait) s.fiber r₁.rwait f₁ =
                  subst (λ (xs : List ℕ). IsAllTaken xs s.fiber r₁.rwait f₁) (sym full) k in
                subst Goal (some-injective _ _ (sym done ∙ e)) (
                  all-Inv s r₁ f₁ i k' same,
                  λ z. inl (all_empty r₁ k'.queue (ap tq.items same ∙ none_writes)),
                )
            | inl none_reads ↦
                let done = exit_idle r s.fiber none_writes none_reads in
                subst Goal (some-injective _ _ (sym done ∙ e)) (
                  left-Inv s i,
                  λ z. inl (
                      all_empty (left r) (ap tq.items (left_rwait r) ∙ none_reads)
                        (ap tq.items (left_wwait r) ∙ none_writes)),
                )
          ]
        ]
