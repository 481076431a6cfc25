-- ===== src/Sched/Run/Waits.antt =====
-- The parts of `bmk_sched_join` (sched.c) keep what holds between turns.
use rumpuser_baremetal.Base.{
  ℕ, ◌≡◌, refl, ◌≢◌, Bool, true, false, not, ◌&&◌, ◌||◌, some, [], ◌∷◌, ◌++◌, ◌==◌, if◌then◌else◌,
  has, erase, arith, ◌∙◌, ap, Bool-cases, inl, inr,
}
use rumpuser_baremetal.Queue.{Tailq}
use rumpuser_baremetal.Queue.Lists.{has-append, has-erase, Distinct-erase, Distinct-append_one}
use rumpuser_baremetal.Heap.{Alloc}
use rumpuser_baremetal.Sched.{Sched, wake, block}
use rumpuser_baremetal.Sched.Wf.{RunsListed}
use rumpuser_baremetal.Sched.Frame.{mustjoin, joined}
use rumpuser_baremetal.Sched.Memory.{same-IsOwned}
use rumpuser_baremetal.Sched.Threads.{join_wait, join_done, join_resume}
use rumpuser_baremetal.Sched.Run.{Program, Inv, listed, joining, resumed}

pub if_true {ℓ} : {A : Type ℓ} (b : Bool) (x y : A) → b ≡ true → (if b then x else y) ≡ x
if_true b x y e = rw e

module _ ⦃tq : Tailq⦄ ⦃al : Alloc⦄ where
  -- The running thread may join `u`.
  pub record May (p : Program) (u : ℕ) : Type 0 where
    pub wants : p.wants p.sched.current ≡ 0
    pub exiting : p.exiting p.sched.current ≡ false
    pub runs : RunsListed p.sched
    pub some_thread : u ≢ 0
    pub listed : listed u p.sched ≡ true
    pub mustjoin : mustjoin u p.sched ≡ true
    pub alone : (v : ℕ) → p.wants v ≢ u

  unfoldable pub waited : (own : ℕ → ℕ) (u : ℕ) → Program → Program
  waited own u p = record p {
    sched = join_wait (own p.sched.current) u p.sched;
    wants = λ v. if v == p.sched.current then u else p.wants v;
  }

  -- What the running thread does to `u` when its join is over.
  unfoldable pub done : ℕ → Sched → Sched
  done u s = wake u (
      let b = s.thread u in
      record s {
        thread = λ v.
            if v == u then record b { flags = record b.flags { mustjoin = false } } else s.thread v;
      })

  pub join_done_lem : (u : ℕ) (s : Sched) → joined u s ≡ true → join_done u s ≡ some (done u s)
  unfolding join_done done
  join_done_lem u s e = if_true _ _ _ e

  module _ (own : ℕ → ℕ) (own_apart : (t u : ℕ) → own t ≡ own u → t ≡ u) where
    pub resumed-Inv :
        (p : Program) → Inv own p → p.wants p.sched.current ≢ 0 → Inv own (resumed own p)
    unfolding join_resume
    resumed-Inv p i waits =
        let t = p.sched.current in
        let wq = tq.items p.sched.joinwq in
        let in_queue : has (own t) wq ≡ true = i.queued t ∙ ground (arith, waits) in
        let items : tq.items (tq.remove (own t) p.sched.joinwq) ≡ erase (own t) wq =
          tq.items-remove (own t) p.sched.joinwq in_queue in
        let member : (w : ℕ)
            → has w (tq.items (tq.remove (own t) p.sched.joinwq)) ≡ (not (w == own t) && has w wq) =
          λ w. ap (has w) items ∙ has-erase w (own t) wq i.apart in
        record {
          wf = record {
            threads = i.wf.threads;
            zombies = i.wf.zombies;
            apart = i.wf.apart;
            here = i.wf.here;
          };
          memory =
              same-IsOwned p.sched (resumed own p).sched i.memory (λ v. refl) (λ v. ground arith)
                (λ v. ground arith) refl;
          apart = rw items (Distinct-erase (own t) wq i.apart);
          queued = λ u. ground (arith, member (own u), i.queued u, own_apart u t, ap own);
          owned = λ w h. i.owned w (ground (arith, member w, h));
          who = λ u h. ground (arith, i.who u, h);
          waits = λ u h. ground (arith, i.waits u, h);
          single = λ u v h e. i.single u v (ground (arith, h)) (ground (arith, h, e));
          called = i.called;
          gated = i.gated;
          woken = λ u h e. i.woken u (ground (arith, h)) (ground (arith, h, e));
          left = i.left;
          met = i.met;
          to_join = i.to_join;
        }

    -- A thread of the list that has not seen its joiner's call is not exiting.
    in_time :
        (p : Program) (u : ℕ) → Inv own p → May p u → joined u p.sched ≡ false → p.exiting u ≡ false
    in_time p u i m not_yet = elim (Bool-cases (p.exiting u)) [
      | inl e ↦ (let (called, _) = i.gated u m.listed e in cc (called, not_yet))
      | inr n ↦ n
    ]

    pub waited-Inv :
        (p : Program) (u : ℕ)
        → Inv own p
        → May p u
        → joined u p.sched ≡ false
        → Inv own (waited own u p)
    unfolding waited join_wait block
    waited-Inv p u i m not_yet =
        let t = p.sched.current in
        let wq = p.sched.joinwq in
        let out : has (own t) (tq.items wq) ≡ false = i.queued t ∙ ground (arith, m.wants) in
        let items : tq.items (tq.insert_tail (own t) wq) ≡ tq.items wq ++ own t ∷ [] =
          tq.items-insert_tail (own t) wq out in
        let member : (w : ℕ)
            → has w (tq.items (tq.insert_tail (own t) wq)) ≡ (has w (tq.items wq) || w == own t) =
          λ w. ap (has w) items ∙ has-append w (tq.items wq) (own t ∷ []) ∙ ground arith in
        record {
          wf = record {
            threads = i.wf.threads;
            zombies = i.wf.zombies;
            apart = i.wf.apart;
            here = i.wf.here;
          };
          memory =
              same-IsOwned p.sched (waited own u p).sched i.memory (λ v. refl) (λ v. ground arith)
                (λ v. ground arith) refl;
          apart = rw items (Distinct-append_one (own t) (tq.items wq) i.apart out);
          queued =
              λ v. ground (arith, member (own v), i.queued v, own_apart v t, ap own, m.some_thread);
          owned = λ w h. elim (Bool-cases (has w (tq.items wq))) [
            | inl old ↦ i.owned w old
            | inr new ↦ (t, ground (arith, member w))
          ];
          who = λ v h. ground (arith, i.who v, own_apart v t, h);
          waits = λ v h. elim (Bool-cases (v == t)) [
            | inl e ↦ (
              ground (arith, m.runs),
              ground (arith, m.exiting),
              ground (arith, m.listed),
              ground (arith, m.mustjoin),
            )
            | inr n ↦
                let (a, b, c, d) = i.waits v (ground (arith, h)) in
                (a, b, ground (arith, c), ground (arith, d))
          ];
          single = λ v w h e. ground (arith, h, e, i.single v w, m.alone v, m.alone w);
          called = λ v. ground (arith, i.called v);
          gated = λ v l e.
              let (a, b) = i.gated v l e in (ground (arith, a), ground (arith, b, e, m.exiting));
          woken = λ v h e.
              let idle : p.exiting u ≡ false = in_time p u i m not_yet in
              ground (arith, h, e, idle, i.woken v);
          left = λ v h. ground (arith, i.left v h);
          met = λ v h. ground (arith, i.met v h);
          to_join = λ v h. ground (arith, i.to_join v h);
        }

    pub done-Inv :
        (p : Program) (u : ℕ)
        → Inv own p
        → May p u
        → joined u p.sched ≡ true
        → Inv own (joining p.sched.current u true (done u p.sched) p) × RunsListed (done u p.sched)
    unfolding done wake
    done-Inv p u i m over =
        let t = p.sched.current in
        let called : p.exiting u ≡ true = ground (arith, i.called u, over) in
        (
          record {
            wf = record {
              threads = i.wf.threads;
              zombies = i.wf.zombies;
              apart = i.wf.apart;
              here = i.wf.here;
            };
            memory =
                same-IsOwned p.sched (done u p.sched) i.memory (λ v. refl) (λ v. ground arith)
                  (λ v. ground arith) refl;
            apart = i.apart;
            queued = λ v. ground (arith, i.queued v, m.wants);
            owned = i.owned;
            who = λ v h. ground (arith, i.who v, h);
            waits = λ v h.
                let (a, b, c, d) = i.waits v (ground (arith, h)) in
                (a, b, ground (arith, c, h), ground (arith, d, m.alone v, h));
            single = λ v w h e. ground (arith, h, e, i.single v w, m.wants);
            called = λ v. ground (arith, i.called v);
            gated = λ v l e. let (a, b) = i.gated v l e in (ground (arith, a), ground (arith, b));
            woken = λ v h e. ground (arith, h, e, i.woken v);
            left = λ v h. let (a, b, c) = i.left v h in (a, b, ground (arith, c));
            met = λ v h. elim (Bool-cases (v == u)) [
              | inl e ↦ (ground (arith, called), ground arith)
              | inr n ↦ let (a, b) = i.met v (ground (arith, h)) in (a, ground (arith, b))
            ];
            to_join = λ v h. ground (arith, i.to_join v h);
          },
          (m.runs.0, ground (arith, m.runs)),
        )
