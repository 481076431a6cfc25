-- ===== src/Sched/Memory.antt =====
-- The memory of the threads (sched.c): a thread of the list, or one that has exited and is not freed
-- yet, lies in memory in use, and so does its stack.
use mathlib.Core.Path.{subst}
use mathlib.Core.Option.{some-injective}
use rumpuser_baremetal.Base.{
  ℕ, ◌≡◌, refl, ◌≢◌, Bool, true, false, not, ◌||◌, some, List, ◌==◌, if◌then◌else◌, has, arith, inl,
  inr, Bool-cases, Option-cases, ap, ◌∙◌, sym,
}
use rumpuser_baremetal.Queue.{Tailq}
use rumpuser_baremetal.Heap.{Alloc}
use rumpuser_baremetal.Sched.{
  Sched, Thread, Round, switch, reap, run_next, sched, pick, bouncer, switched,
}
use rumpuser_baremetal.Sched.Pick.{pick-IsChoice}
use rumpuser_baremetal.Sched.Reap.{reap_lem, reap-live}
use rumpuser_baremetal.Sched.Wf.{
  IsWf, sched_none, sched_of, Waited-IsWf, choice-IsWf, switch-IsWf, has-moved,
}
use rumpuser_baremetal.Sched.Frame.{extstack, stackbase, pick-Keeps, switch-Keeps}

module _ ⦃tq : Tailq⦄ ⦃al : Alloc⦄ where
  -- A thread that is in one of the queues.
  abbrev pub alive : ℕ → Sched → Bool
  alive u s = has u (tq.items s.threads) || has u (tq.items s.zombies)

  pub record IsOwned (s : Sched) : Type 0 where
    pub blocks : (u : ℕ) → alive u s ≡ true → al.live s.heap u ≡ true
    pub stacks :
        (u : ℕ) → alive u s ≡ true → extstack u s ≡ false → al.live s.heap (stackbase u s) ≡ true
    pub apart :
        (u v : ℕ) → alive u s ≡ true → alive v s ≡ true → extstack u s ≡ false → stackbase u s ≢ v
    pub stacks_apart :
        (u v : ℕ)
        → alive u s ≡ true
        → alive v s ≡ true
        → extstack u s ≡ false
        → extstack v s ≡ false
        → stackbase u s ≡ stackbase v s
        → u ≡ v

  -- The same threads on the same stacks, and what is in use stays so.
  pub record Holds (s s' : Sched) : Type 0 where
    pub threads : (u : ℕ) → (not (alive u s') || alive u s) ≡ true
    pub ext : (u : ℕ) → extstack u s' ≡ extstack u s
    pub base : (u : ℕ) → stackbase u s' ≡ stackbase u s
    pub blocks : (u : ℕ) → alive u s' ≡ true → al.live s'.heap u ≡ al.live s.heap u
    pub stacks :
        (u : ℕ)
        → alive u s' ≡ true
        → extstack u s ≡ false
        → al.live s'.heap (stackbase u s) ≡ al.live s.heap (stackbase u s)

  Holds-IsOwned : (s s' : Sched) → Holds s s' → IsOwned s → IsOwned s'
  Holds-IsOwned s s' k o =
      let was : (u : ℕ) → alive u s' ≡ true → alive u s ≡ true =
        λ u h. ground (arith, k.threads u, h) in
      let own : (u : ℕ) → extstack u s' ≡ false → extstack u s ≡ false = λ u e. sym (k.ext u) ∙ e in
      record {
        blocks = λ u h. k.blocks u h ∙ o.blocks u (was u h);
        stacks = λ u h e.
            ap (al.live s'.heap) (k.base u)
            ∙ k.stacks u h (own u e)
            ∙ o.stacks u (was u h) (own u e);
        apart = λ u v h g e same. o.apart u v (was u h) (was v g) (own u e) (sym (k.base u) ∙ same);
        stacks_apart = λ u v h g e f same.
            o.stacks_apart u v (was u h) (was v g) (own u e) (own v f)
              (sym (k.base u) ∙ same ∙ k.base v);
      }

  -- Where the memory stays as it is, the threads and their stacks are all there is to hold.
  same-Holds :
      (s s' : Sched)
      → ((u : ℕ) → alive u s' ≡ alive u s)
      → ((u : ℕ) → extstack u s' ≡ extstack u s)
      → ((u : ℕ) → stackbase u s' ≡ stackbase u s)
      → s'.heap ≡ s.heap
      → Holds s s'
  same-Holds s s' a e b h = record {
    threads = λ u. ground (arith, a u);
    ext = e;
    base = b;
    blocks = λ u _. ap (λ (g : al.State). al.live g u) h;
    stacks = λ u _ _. ap (λ (g : al.State). al.live g (stackbase u s)) h;
  }

  pub same-IsOwned :
      (s s' : Sched)
      → IsOwned s
      → ((u : ℕ) → alive u s' ≡ alive u s)
      → ((u : ℕ) → extstack u s' ≡ extstack u s)
      → ((u : ℕ) → stackbase u s' ≡ stackbase u s)
      → s'.heap ≡ s.heap
      → IsOwned s'
  same-IsOwned s s' o a e b h = Holds-IsOwned s s' (same-Holds s s' a e b h) o

  reap-Holds : (s : Sched) → IsWf s → IsOwned s → Holds s (reap s)
  reap-Holds s wf o =
      let (kept, _, thread, threads, current) = reap_lem s wf.zombies in
      let was : (u : ℕ) → alive u (reap s) ≡ true → alive u s ≡ true =
        λ u h. ground (arith, kept u, threads, h) in
      let stays : (u t : ℕ)
          → alive u (reap s) ≡ true
          → has t (tq.items s.zombies) ≡ true
          → t ≢ s.current
          → u ≢ t =
        λ u t h z n e. ground (arith, kept u, threads, h, e, wf.apart u, z, n) in
      record {
        threads = λ u. ground (arith, kept u, threads);
        ext = λ u. ap (λ (f : ℕ → Thread). (f u).flags.extstack) thread;
        base = λ u. ap (λ (f : ℕ → Thread). (f u).stackbase) thread;
        blocks = λ u h. reap-live s u wf.zombies λ t z n.
            (stays u t h z n, λ e same. o.apart t u (ground (arith, z)) (was u h) e (sym same));
        stacks = λ u h own. reap-live s (stackbase u s) wf.zombies λ t z n. (
          o.apart u t (was u h) (ground (arith, z)) own,
          λ e same. stays u t h z n (o.stacks_apart u t (was u h) (ground (arith, z)) own e same),
        );
      }

  reap-IsOwned : (s : Sched) → IsWf s → IsOwned s → IsOwned (reap s)
  reap-IsOwned s wf o = Holds-IsOwned s (reap s) (reap-Holds s wf o) o

  switch-IsOwned : (t : ℕ) (s : Sched) → IsOwned s → IsOwned (switch t s)
  switch-IsOwned t s o =
      let k = switch-Keeps t s in
      let same : Holds s (switch t s) =
        same-Holds s (switch t s) (λ u. unfold switch in refl) k.extstack k.stackbase
          (unfold switch in refl) in
      Holds-IsOwned s (switch t s) same o

  run_next-IsOwned :
      (t : ℕ) (s : Sched)
      → IsWf s
      → IsOwned s
      → has t (tq.items s.threads) ≡ true
      → IsOwned (run_next t s)
  unfolding run_next
  run_next-IsOwned t s wf o here = elim (Bool-cases (t == s.current)) [
    | inl e ↦ rw e (reap-IsOwned s wf o)
    | inr n ↦
        rw n
          (elim ((s.thread t).ip)
            as (λ ip. IsOwned (
              if elim ip [ bouncer ↦ true | switched ↦ false ]
              then switch t s
              else reap (switch t s))) [
                | bouncer ↦ switch-IsOwned t s o
                | switched ↦
                    reap-IsOwned (switch t s) (switch-IsWf t s wf here) (switch-IsOwned t s o)
              ])
  ]

  -- `bmk_sched` keeps the memory of the threads that it does not reap.
  pub sched-IsOwned :
      (rs : List Round) (s s' : Sched) → IsWf s → IsOwned s → sched rs s ≡ some s' → IsOwned s'
  sched-IsOwned rs s s' wf o e = elim (Option-cases (pick rs s)) [
    | inl p ↦ cc (sched_none rs s p)
    | inr ((t, s₂), p) ↦
        let (s₁, w, c) = pick-IsChoice rs s s₂ t wf.threads p in
        let wf₁ = Waited-IsWf s s₁ wf w in
        let k = pick-Keeps rs s s₂ t p in
        let moved : (u : ℕ) → has u (tq.items s₂.threads) ≡ has u (tq.items s.threads) = λ u.
          ap (has u) c.order
          ∙ has-moved u t (tq.items s₁.threads) wf₁.threads c.listed
          ∙ ap (λ (q : tq.Head). has u (tq.items q)) w.threads in
        let gone : s₂.zombies ≡ s.zombies = c.zombies ∙ w.zombies in
        let held =
          same-Holds s s₂ (λ u. ground (arith, moved u, gone)) k.extstack k.stackbase
            (c.heap ∙ w.heap) in
        let listed : has t (tq.items s₂.threads) ≡ true =
          ap (has t) c.order
          ∙ has-moved t t (tq.items s₁.threads) wf₁.threads c.listed
          ∙ c.listed in
        let same : run_next t s₂ ≡ s' = some-injective _ _ (sym (sched_of rs s s₂ t p) ∙ e) in
        subst IsOwned same
          (run_next-IsOwned t s₂ (choice-IsWf s₁ s₂ t wf₁ c) (Holds-IsOwned s s₂ held o) listed)
  ]
