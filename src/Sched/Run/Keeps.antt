-- ===== src/Sched/Run/Keeps.antt =====
-- The turns that only wake, wait, sleep or go through `bmk_sched` (sched.c) keep what holds between turns.
use rumpuser_baremetal.Base.{
  ℕ, ◌≡◌, refl, true, not, ◌&&◌, ◌||◌, some, List, ◌==◌, has, arith, ℤ, ◌∙◌, ap, sym,
}
use rumpuser_baremetal.Queue.{Tailq}
use rumpuser_baremetal.Heap.{Alloc}
use rumpuser_baremetal.Sched.{Sched, Round, is_runnable, wake, block, setwakeup, sched}
use rumpuser_baremetal.Sched.Wf.{IsWf, RunsListed, sched-IsWf, sched-has}
use rumpuser_baremetal.Sched.Frame.{mustjoin, joined, wake-Keeps, sched-Keeps}
use rumpuser_baremetal.Sched.Memory.{IsOwned, same-IsOwned, sched-IsOwned}
use rumpuser_baremetal.Sched.Threads.{nanosleep}
use rumpuser_baremetal.Sched.Run.{Program, Inv, IsFree, listed}

module _ ⦃tq : Tailq⦄ ⦃al : Alloc⦄ where
  -- The joins stay, and threads that join or exit do not lose their right to run.
  pub record Stays (p : Program) (s' : Sched) : Type 0 where
    pub wf : IsWf s'
    pub memory : IsOwned s'
    pub listed : (u : ℕ) → listed u s' ≡ listed u p.sched
    pub joinwq : s'.joinwq ≡ p.sched.joinwq
    pub waiter : s'.waiter ≡ p.sched.waiter
    pub mustjoin : (u : ℕ) → mustjoin u s' ≡ mustjoin u p.sched
    pub joined : (u : ℕ) → joined u s' ≡ joined u p.sched
    pub runs :
        (u : ℕ)
        → (not (is_runnable u p.sched) || is_runnable u s' || (p.wants u == 0 && not (p.exiting u)))
          ≡ true

  module _ (own : ℕ → ℕ) where
    pub Stays-Inv :
        (p : Program) (s' : Sched) → Inv own p → Stays p s' → Inv own (record p { sched = s' })
    Stays-Inv p s' i k = record {
      wf = k.wf;
      memory = k.memory;
      apart = rw k.joinwq i.apart;
      queued = λ t. ap (λ (q : tq.Head). has (own t) (tq.items q)) k.joinwq ∙ i.queued t;
      owned = λ w h. i.owned w (ap (λ (q : tq.Head). has w (tq.items q)) (sym k.joinwq) ∙ h);
      who = λ t h. ap (λ (f : ℕ → ℕ × ℕ). f (own t)) k.waiter ∙ i.who t h;
      waits = λ t h.
          let (a, b, c, d) = i.waits t h in
          (k.listed t ∙ a, b, k.listed (p.wants t) ∙ c, k.mustjoin (p.wants t) ∙ d);
      single = i.single;
      called = λ t. ground (arith, i.called t, k.joined t);
      gated = λ t l e.
          let (a, b) = i.gated t (ground (arith, k.listed t)) e in
          (k.joined t ∙ a, ground (arith, b, k.mustjoin t, k.runs t, e));
      woken = λ t h e. ground (arith, i.woken t h e, k.runs t);
      left = λ t h. let (a, b, c) = i.left t h in (k.listed t ∙ a, b, k.mustjoin t ∙ c);
      met = λ t h. let (a, b) = i.met t h in (a, k.mustjoin t ∙ b);
      to_join = λ t h. ground (arith, i.to_join t h, k.mustjoin t);
    }

    -- After `bmk_sched` the running thread is in the list and can run.
    pub sched-Inv :
        (p : Program) (s' : Sched) (rs : List Round)
        → Inv own p
        → sched rs p.sched ≡ some s'
        → Inv own (record p { sched = s' }) × RunsListed s'
    sched-Inv p s' rs i e =
        let (wf, runs) = sched-IsWf rs p.sched s' i.wf e in
        let k = sched-Keeps rs p.sched s' e in
        (
          Stays-Inv p s' i (record {
            wf = wf;
            memory = sched-IsOwned rs p.sched s' i.wf i.memory e;
            listed = sched-has rs p.sched s' i.wf e;
            joinwq = k.joinwq;
            waiter = k.waiter;
            mustjoin = k.mustjoin;
            joined = k.joined;
            runs = λ u. ground (arith, k.runs u);
          }),
          runs,
        )

    pub wake-Inv :
        (p : Program) (u : ℕ)
        → Inv own p
        → RunsListed p.sched
        → Inv own (record p { sched = wake u p.sched }) × RunsListed (wake u p.sched)
    unfolding wake
    wake-Inv p u i (here, runs) =
        let k = wake-Keeps u p.sched in
        (
          Stays-Inv p (wake u p.sched) i (record {
            wf = record {
              threads = i.wf.threads;
              zombies = i.wf.zombies;
              apart = i.wf.apart;
              here = i.wf.here;
            };
            memory =
                same-IsOwned p.sched (wake u p.sched) i.memory (λ v. refl) k.extstack k.stackbase
                  refl;
            listed = λ v. refl;
            joinwq = k.joinwq;
            waiter = k.waiter;
            mustjoin = k.mustjoin;
            joined = k.joined;
            runs = λ v. ground (arith, k.runs v);
          }),
          (here, ground arith),
        )

    pub waits-Stays :
        (p : Program) (abstime : ℤ)
        → Inv own p
        → IsFree p
        → Stays p (setwakeup p.sched.current abstime (block p.sched.current p.sched))
    unfolding block setwakeup
    waits-Stays p abstime i free = record {
      wf = record {
        threads = i.wf.threads;
        zombies = i.wf.zombies;
        apart = i.wf.apart;
        here = i.wf.here;
      };
      memory =
          same-IsOwned p.sched (setwakeup p.sched.current abstime (block p.sched.current p.sched))
            i.memory (λ u. refl) (λ u. ground arith) (λ u. ground arith) refl;
      listed = λ u. refl;
      joinwq = refl;
      waiter = refl;
      mustjoin = λ u. ground arith;
      joined = λ u. ground arith;
      runs = λ u. ground (arith, free);
    }

    pub sleeps-Stays :
        (p : Program) (now nsec : ℤ) → Inv own p → IsFree p → Stays p (nanosleep now nsec p.sched)
    unfolding nanosleep
    sleeps-Stays p now nsec i free = record {
      wf = record {
        threads = i.wf.threads;
        zombies = i.wf.zombies;
        apart = i.wf.apart;
        here = i.wf.here;
      };
      memory =
          same-IsOwned p.sched (nanosleep now nsec p.sched) i.memory (λ u. refl) (λ u. ground arith)
            (λ u. ground arith) refl;
      listed = λ u. refl;
      joinwq = refl;
      waiter = refl;
      mustjoin = λ u. ground arith;
      joined = λ u. ground arith;
      runs = λ u. ground (arith, free);
    }
