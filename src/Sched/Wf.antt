-- ===== src/Sched/Wf.antt =====
-- The well-formedness of the scheduler's queues (sched.c): every operation keeps it, and what runs
-- after `bmk_sched` is a thread of the list that can run.
use rumpuser_baremetal.Base.{
  ℕ, ◌≡◌, refl, Bool, true, false, ◌&&◌, ◌||◌, none, some, List, [], ◌∷◌, ◌++◌, ◌==◌, if◌then◌else◌,
  has, erase, Distinct, arith, inl, inr, ==_refl, ==_iff, Option-cases, ap, ◌∙◌, sym,
}
use mathlib.Core.Path.{subst}
use mathlib.Core.Option.{some-injective}
use rumpuser_baremetal.Queue.{Tailq}
use rumpuser_baremetal.Queue.Lists.{has-erase, has-append, Distinct-erase, Distinct-append_one}
use rumpuser_baremetal.Heap.{Alloc}
use rumpuser_baremetal.Sched.{
  Sched, Thread, Round, is_runnable, is_fresh, pick, switch, reap, run_next, sched,
}
use rumpuser_baremetal.Sched.Pick.{IsChoice, Waited, pick-IsChoice}
use rumpuser_baremetal.Sched.Reap.{reap_lem, reap-Distinct}
use rumpuser_baremetal.Sched.Threads.{exit_leave}

module _ ⦃tq : Tailq⦄ ⦃al : Alloc⦄ where
  -- No thread is twice in a queue or in both, and the one that runs is in one of them.
  pub record IsWf (s : Sched) : Type 0 where
    pub threads : Distinct (tq.items s.threads)
    pub zombies : Distinct (tq.items s.zombies)
    pub apart : (u : ℕ) → (has u (tq.items s.threads) && has u (tq.items s.zombies)) ≡ false
    pub here : (has s.current (tq.items s.threads) || has s.current (tq.items s.zombies)) ≡ true

  pub Waited-IsWf : (s s₁ : Sched) → IsWf s → Waited s s₁ → IsWf s₁
  Waited-IsWf s s₁ wf w = record {
    threads = rw w.threads wf.threads;
    zombies = rw w.zombies wf.zombies;
    apart = λ u. ground (arith, wf.apart u, w.threads, w.zombies);
    here = rw (w.threads, w.zombies, w.current) wf.here;
  }

  pub has-moved :
      (u t : ℕ) (xs : List ℕ)
      → Distinct xs
      → has t xs ≡ true
      → has u (erase t xs ++ t ∷ []) ≡ has u xs
  has-moved u t xs d h = ground (arith, has-append u (erase t xs) (t ∷ []), has-erase u t xs d)

  pub choice-IsWf : (s s' : Sched) (t : ℕ) → IsWf s → IsChoice s s' t → IsWf s'
  choice-IsWf s s' t wf c =
      let same =
        λ (u : ℕ). ap (has u) c.order ∙ has-moved u t (tq.items s.threads) wf.threads c.listed in
      record {
        threads = rw c.order (
            Distinct-append_one t _ (Distinct-erase t _ wf.threads)
              (rw (has-erase t t _ wf.threads, ==_refl t) refl));
        zombies = rw c.zombies wf.zombies;
        apart = λ u. ground (arith, wf.apart u, same u, c.zombies);
        here = rw (c.current, c.zombies, same s.current) wf.here;
      }

  pub switch-IsWf :
      (t : ℕ) (s : Sched) → IsWf s → has t (tq.items s.threads) ≡ true → IsWf (switch t s)
  unfolding switch
  switch-IsWf t s wf h = record {
    threads = wf.threads;
    zombies = wf.zombies;
    apart = wf.apart;
    here = rw h;
  }

  reap-IsWf : (s : Sched) → IsWf s → IsWf (reap s)
  reap-IsWf s wf =
      let (kept, _, _, threads, current) = reap_lem s wf.zombies in
      record {
        threads = rw threads wf.threads;
        zombies = reap-Distinct s wf.zombies;
        apart = λ u. ground (arith, wf.apart u, kept u, threads);
        here = ground (arith, wf.here, kept s.current, threads, current);
      }

  -- `t` runs in `r`, on the same list of threads as in `s`.
  record Goes (t : ℕ) (s r : Sched) : Type 0 where
    wf : IsWf r
    current : r.current ≡ t
    threads : r.threads ≡ s.threads
    runs : is_runnable t r ≡ is_runnable t s

  reap-Goes : (t : ℕ) (s r : Sched) → Goes t s r → Goes t s (reap r)
  reap-Goes t s r g =
      let (_, _, thread, threads, current) = reap_lem r g.wf.zombies in
      record {
        wf = reap-IsWf r g.wf;
        current = current ∙ g.current;
        threads = threads ∙ g.threads;
        runs = ap (λ (f : ℕ → Thread). (f t).flags.runnable) thread ∙ g.runs;
      }

  switch-Goes :
      (t : ℕ) (s : Sched) → IsWf s → has t (tq.items s.threads) ≡ true → Goes t s (switch t s)
  switch-Goes t s wf h = record {
    wf = switch-IsWf t s wf h;
    current = unfold switch in refl;
    threads = unfold switch in refl;
    runs = unfold switch in ground arith;
  }

  Goes-if :
      (t : ℕ) (s x y z : Sched) (b c : Bool)
      → (b ≡ true → Goes t s x)
      → (b ≡ false → Goes t s y)
      → (b ≡ false → Goes t s z)
      → Goes t s (if b then x else if c then y else z)
  Goes-if t s x y z true c gx gy gz = gx refl
  Goes-if t s x y z false true gx gy gz = gy refl
  Goes-if t s x y z false false gx gy gz = gz refl

  run_next-Goes :
      (t : ℕ) (s : Sched) → IsWf s → has t (tq.items s.threads) ≡ true → Goes t s (run_next t s)
  unfolding run_next
  run_next-Goes t s wf h =
      let switched_to = switch-Goes t s wf h in
      Goes-if t s _ _ _ (t == s.current) (is_fresh t s)
        (λ e. reap-Goes t s s (record {
          wf = wf;
          current = sym ((==_iff t s.current).0 e);
          threads = refl;
          runs = refl;
        }))
        (λ _. switched_to) (λ _. reap-Goes t s _ switched_to)

  pub sched_of :
      (rs : List Round) (s s₂ : Sched) (t : ℕ)
      → pick rs s ≡ some (t, s₂)
      → sched rs s ≡ some (run_next t s₂)
  unfolding sched
  sched_of rs s s₂ t p = rw p

  pub sched_none : (rs : List Round) (s : Sched) → pick rs s ≡ none → sched rs s ≡ none
  unfolding sched
  sched_none rs s p = rw p

  -- The thread that runs is one of the list and can run.
  abbrev pub RunsListed : Sched → Type 0
  RunsListed s = (has s.current (tq.items s.threads) ≡ true) × (is_runnable s.current s ≡ true)

  next-RunsListed :
      (s s₁ : Sched) (t : ℕ)
      → IsWf s
      → IsChoice s s₁ t
      → IsWf (run_next t s₁) × RunsListed (run_next t s₁)
  next-RunsListed s s₁ t wf choice =
      let listed =
        ap (has t) choice.order
        ∙ has-moved t t (tq.items s.threads) wf.threads choice.listed
        ∙ choice.listed in
      let goes = run_next-Goes t s₁ (choice-IsWf s s₁ t wf choice) listed in
      (
        goes.wf,
        (
          rw (goes.current, goes.threads) listed,
          ap (λ u. is_runnable u (run_next t s₁)) goes.current ∙ goes.runs ∙ choice.runs,
        ),
      )

  -- From well-formed queues: when `bmk_sched` comes back they are well formed again, and the thread
  -- that runs is one of the list and can run.
  pub sched-IsWf :
      (rs : List Round) (s s' : Sched) → IsWf s → sched rs s ≡ some s' → IsWf s' × RunsListed s'
  sched-IsWf rs s s' wf e = elim (Option-cases (pick rs s)) [
    | inl p ↦ cc (sched_none rs s p)
    | inr ((t, s₂), p) ↦
        let (s₁, waited, choice) = pick-IsChoice rs s s₂ t wf.threads p in
        let same : run_next t s₂ ≡ s' = some-injective _ _ (sym (sched_of rs s s₂ t p) ∙ e) in
        subst (λ r. IsWf r × RunsListed r) same
          (next-RunsListed s₁ s₂ t (Waited-IsWf s s₁ wf waited) choice)
  ]

  -- From well-formed queues: the list of threads holds the same threads when `bmk_sched` comes back.
  pub sched-has :
      (rs : List Round) (s s' : Sched)
      → IsWf s
      → sched rs s ≡ some s'
      → (u : ℕ) → has u (tq.items s'.threads) ≡ has u (tq.items s.threads)
  sched-has rs s s' wf e u = elim (Option-cases (pick rs s)) [
    | inl p ↦ cc (sched_none rs s p)
    | inr ((t, s₂), p) ↦
        let (s₁, waited, choice) = pick-IsChoice rs s s₂ t wf.threads p in
        let wf₁ = Waited-IsWf s s₁ wf waited in
        let moved : has u (tq.items s₂.threads) ≡ has u (tq.items s₁.threads) =
          ap (has u) choice.order ∙ has-moved u t (tq.items s₁.threads) wf₁.threads choice.listed in
        let listed =
          ap (has t) choice.order
          ∙ has-moved t t (tq.items s₁.threads) wf₁.threads choice.listed
          ∙ choice.listed in
        let goes = run_next-Goes t s₂ (choice-IsWf s₁ s₂ t wf₁ choice) listed in
        let kept : (run_next t s₂).threads ≡ s₂.threads = goes.threads in
        let same : run_next t s₂ ≡ s' = some-injective _ _ (sym (sched_of rs s s₂ t p) ∙ e) in
        subst (λ (r : Sched). has u (tq.items r.threads) ≡ has u (tq.items s.threads)) same
          (ap (λ (q : tq.Head). has u (tq.items q)) kept
            ∙ moved
            ∙ ap (λ (q : tq.Head). has u (tq.items q)) waited.threads)
  ]

  -- From well-formed queues, with the running thread in the list: the end of `bmk_sched_exit` leaves
  -- them well formed, and the thread goes from the list to the exited ones and cannot run.
  pub exit_leave-IsWf :
      (s : Sched)
      → IsWf s
      → has s.current (tq.items s.threads) ≡ true
      → IsWf (exit_leave s)
        × (has s.current (tq.items (exit_leave s).threads) ≡ false)
        × (has s.current (tq.items (exit_leave s).zombies) ≡ true)
        × (is_runnable s.current (exit_leave s) ≡ false)
  unfolding exit_leave
  exit_leave-IsWf s wf h =
      let t = s.current in
      let left = tq.items-remove t s.threads h in
      let out : has t (tq.items s.zombies) ≡ false = ground (arith, wf.apart t) in
      let new = tq.items-insert_head t s.zombies out in
      let gone = has-erase t t (tq.items s.threads) wf.threads in
      (
        record {
          threads = rw left (Distinct-erase t (tq.items s.threads) wf.threads);
          zombies = rw new (out, wf.zombies);
          apart = λ u.
              ground (arith, wf.apart u, left, new, has-erase u t (tq.items s.threads) wf.threads);
          here = ground (arith, new);
        },
        ground (arith, left, gone),
        ground (arith, new),
        ground arith,
      )
