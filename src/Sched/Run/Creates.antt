-- ===== src/Sched/Run/Creates.antt =====
-- The turn that creates a thread (sched.c) keeps what holds between turns.
use rumpuser_baremetal.Base.{
  ℕ, ◌≡◌, ◌≢◌, true, false, ◌||◌, some, List, ◌∷◌, ◌==◌, has, arith, ◌∙◌, ap, sym, Bool-cases, inl,
  inr, ==_iff,
}
use rumpuser_baremetal.Queue.{Tailq}
use rumpuser_baremetal.Heap.{Alloc}
use rumpuser_baremetal.Sched.{Sched}
use rumpuser_baremetal.Sched.Frame.{extstack, stackbase}
use rumpuser_baremetal.Sched.Threads.{create}
use rumpuser_baremetal.Sched.Wf.{RunsListed}
use rumpuser_baremetal.Sched.Memory.{IsOwned, alive}
use rumpuser_baremetal.Sched.Adds.{Adds, create-Adds}
use rumpuser_baremetal.Sched.Run.{Program, Inv, listed, created}

module _ ⦃tq : Tailq⦄ ⦃al : Alloc⦄ where
  -- Memory that is not in use is no thread's.
  unused : (u : ℕ) (s : Sched) → IsOwned s → al.live s.heap u ≡ false → alive u s ≡ false
  unused u s o dead = elim (Bool-cases (alive u s)) [ inl h ↦ cc (o.blocks u h, dead) | inr n ↦ n ]

  unbased :
      (u v : ℕ) (s s' : Sched)
      → IsOwned s
      → alive v s ≡ true
      → extstack v s ≡ false
      → al.live s.heap u ≡ false
      → stackbase v s ≢ u
  unbased u v s s' o h e dead same = cc (o.stacks v h e, dead, ap (al.live s.heap) same)

  new_stack :
      (u v : ℕ) (s s' : Sched)
      → Adds u s s'
      → (v == u) ≡ true
      → extstack v s' ≡ false
      → (al.live s'.heap (stackbase v s') ≡ true)
        × (al.live s.heap (stackbase v s') ≡ false)
        × (stackbase v s' ≢ u)
  new_stack u v s s' k q e =
      let same : v ≡ u = (==_iff v u).0 q in
      let at : stackbase v s' ≡ stackbase u s' = ap (λ (w : ℕ). stackbase w s') same in
      elim k.stack [
        | inl given ↦ cc (given, e, ap (λ (w : ℕ). extstack w s') same)
        | inr (block, dead, off) ↦ (
          ap (al.live s'.heap) at ∙ block,
          ap (al.live s.heap) at ∙ dead,
          λ on. off (sym at ∙ on),
        )
      ]

  Adds-IsOwned :
      (u : ℕ) (s s' : Sched)
      → IsOwned s
      → has u (tq.items s.threads) ≡ false
      → Adds u s s'
      → IsOwned s'
  Adds-IsOwned u s s' o out k =
      let items : tq.items s'.threads ≡ u ∷ tq.items s.threads =
        ap tq.items k.threads ∙ tq.items-insert_head u s.threads out in
      let lists : (v : ℕ) → alive v s' ≡ ((v == u) || alive v s) =
        λ v. ground (arith, ap (has v) items, k.zombies) in
      let old : (v : ℕ) → alive v s' ≡ true → (v == u) ≡ false → alive v s ≡ true =
        λ v h n. ground (arith, lists v, h, n) in
      record {
        blocks = λ v h. elim (Bool-cases (v == u)) [
          | inl e ↦ ground (arith, k.block, ap (al.live s'.heap))
          | inr n ↦ k.kept v (o.blocks v (ground (arith, lists v)))
        ];
        stacks = λ v h e. elim (Bool-cases (v == u)) [
          | inl q ↦ let (block, _, _) = new_stack u v s s' k q e in block
          | inr n ↦
              ap (al.live s'.heap) (k.base v n)
              ∙ k.kept (stackbase v s) (o.stacks v (old v h n) (sym (k.ext v n) ∙ e))
        ];
        apart = λ v w h g e same. elim (Bool-cases (v == u)) [
          | inl q ↦
              let (_, dead, off) = new_stack u v s s' k q e in
              elim (Bool-cases (w == u)) [
                | inl r ↦ off (ground (arith, same, r))
                | inr n ↦ cc (o.blocks w (old w g n), dead, ap (al.live s.heap) same)
              ]
          | inr n ↦
              let was : stackbase v s ≡ w = sym (k.base v n) ∙ same in
              let own : extstack v s ≡ false = sym (k.ext v n) ∙ e in
              elim (Bool-cases (w == u)) [
                | inl r ↦ unbased u v s s' o (old v h n) own k.dead (was ∙ (==_iff w u).0 r)
                | inr m ↦ o.apart v w (old v h n) (old w g m) own was
              ]
        ];
        stacks_apart = λ v w h g e f same. elim (Bool-cases (v == u)) [
          | inl q ↦ elim (Bool-cases (w == u)) [
            | inl r ↦ ground (arith, q, r)
            | inr n ↦
                let (_, dead, _) = new_stack u v s s' k q e in
                cc (
                  o.stacks w (old w g n) (sym (k.ext w n) ∙ f),
                  dead,
                  ap (al.live s.heap) (same ∙ k.base w n),
                )
          ]
          | inr n ↦ elim (Bool-cases (w == u)) [
            | inl r ↦
                let (_, dead, _) = new_stack u w s s' k r f in
                cc (
                  o.stacks v (old v h n) (sym (k.ext v n) ∙ e),
                  dead,
                  ap (al.live s.heap) (sym (k.base v n) ∙ same),
                )
            | inr m ↦
                o.stacks_apart v w (old v h n) (old w g m) (sym (k.ext v n) ∙ e)
                  (sym (k.ext w m) ∙ f) (sym (k.base v n) ∙ same ∙ k.base w m)
          ]
        ];
      }

  unlisted :
      (p : Program) (own : ℕ → ℕ) (t : ℕ) → Inv own p → listed t p.sched ≡ false → p.wants t ≡ 0
  unlisted p own t i out = elim (Bool-cases (p.wants t == 0)) [
    | inl e ↦ ground arith
    | inr n ↦ let (here, _, _, _) = i.waits t (ground arith) in cc (here, out)
  ]

  unwanted :
      (p : Program) (own : ℕ → ℕ) (t u : ℕ)
      → Inv own p
      → listed u p.sched ≡ false
      → p.wants t ≢ 0
      → (p.wants t == u) ≡ false
  unwanted p own t u i out n = elim (Bool-cases (p.wants t == u)) [
    | inl e ↦ (let (_, _, here, _) = i.waits t n in ground (arith, here, out))
    | inr d ↦ d
  ]

  module _ (own : ℕ → ℕ) where
    created-Inv :
        (p : Program) (u : ℕ) (s : Sched)
        → Inv own p
        → listed u p.sched ≡ false
        → has u (tq.items p.sched.zombies) ≡ false
        → Adds u p.sched s
        → Inv own (created u s p)
    created-Inv p u s i out new k =
        let items : tq.items s.threads ≡ u ∷ tq.items p.sched.threads =
          ap tq.items k.threads ∙ tq.items-insert_head u p.sched.threads out in
        let lists : (v : ℕ) → listed v s ≡ ((v == u) || listed v p.sched) = λ v. ap (has v) items in
        record {
          wf = record {
            threads = rw items (out, i.wf.threads);
            zombies = rw k.zombies i.wf.zombies;
            apart = λ v. ground (arith, i.wf.apart v, lists v, k.zombies, new);
            here = ground (arith, i.wf.here, lists s.current, k.current, k.zombies);
          };
          memory = Adds-IsOwned u p.sched s i.memory out k;
          apart = rw k.joinwq i.apart;
          queued = λ t. ap (λ (q : tq.Head). has (own t) (tq.items q)) k.joinwq ∙ i.queued t;
          owned = λ w h. i.owned w (ap (λ (q : tq.Head). has w (tq.items q)) (sym k.joinwq) ∙ h);
          who = λ t h. ap (λ (f : ℕ → ℕ × ℕ). f (own t)) k.waiter ∙ i.who t h;
          waits = λ t h.
              let (a, b, c, d) = i.waits t h in
              let apart = unwanted p own t u i out h in
              (
                ground (arith, lists t, a),
                ground (arith, b),
                ground (arith, lists (p.wants t), c),
                ground (arith, k.mustjoin (p.wants t), d, apart),
              );
          single = i.single;
          called = λ t. ground (arith, i.called t, k.joined t);
          gated = λ t l e.
              let (a, b) = i.gated t (ground (arith, lists t)) (ground (arith, e)) in
              (ground (arith, a, k.joined t, e), ground (arith, b, k.mustjoin t, k.runs t, e));
          woken = λ t h e. ground (arith, i.woken t h, e, k.runs t);
          left = λ t h.
              let (a, b, c) = i.left t (ground (arith, h)) in
              (
                ground (arith, a, h, lists t),
                ground (arith, b, h),
                ground (arith, c, k.mustjoin t),
              );
          met = λ t h.
              let (a, b) = i.met t (ground (arith, h)) in
              (ground (arith, a, h), ground (arith, b, k.mustjoin t));
          to_join = λ t h. ground (arith, i.to_join t, h, k.mustjoin t);
        }

    pub creates-Inv :
        (p : Program) (u : ℕ) (s : Sched) (name : List ℕ) (f arg b n : ℕ)
        → Inv own p
        → RunsListed p.sched
        → create name 0 0 f arg b n p.sched ≡ some (u, s)
        → Inv own (created u s p) × RunsListed s
    creates-Inv p u s name f arg b n i (here, runs) e =
        let k = create-Adds name f arg b n u p.sched s e in
        let fresh = unused u p.sched i.memory k.dead in
        let out : listed u p.sched ≡ false = ground (arith, fresh) in
        let new : has u (tq.items p.sched.zombies) ≡ false = ground (arith, fresh) in
        let items : tq.items s.threads ≡ u ∷ tq.items p.sched.threads =
          ap tq.items k.threads ∙ tq.items-insert_head u p.sched.threads out in
        (
          created-Inv p u s i out new k,
          (
            ap (λ (xs : List ℕ). has s.current xs) items ∙ ground (arith, here, k.current),
            ground (arith, runs, k.current, k.runs s.current),
          ),
        )
