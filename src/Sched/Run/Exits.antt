-- ===== src/Sched/Run/Exits.antt =====
-- The turns of `bmk_sched_exit` (sched.c) keep what holds between turns.
use rumpuser_baremetal.Base.{
  ℕ, ◌≡◌, refl, ◌≢◌, Bool, true, false, not, ◌&&◌, ◌||◌, some, List, ◌==◌, if◌then◌else◌, has,
  erase, arith, ◌∙◌, ap, sym, Bool-cases, inl, inr,
}
use mathlib.Core.Path.{subst}
use rumpuser_baremetal.Queue.{Tailq}
use rumpuser_baremetal.Queue.Lists.{has-erase}
use rumpuser_baremetal.Heap.{Alloc}
use rumpuser_baremetal.Sched.{Sched, Round, is_runnable, sched}
use rumpuser_baremetal.Sched.Wf.{RunsListed, exit_leave-IsWf}
use rumpuser_baremetal.Sched.Frame.{mustjoin}
use rumpuser_baremetal.Sched.Memory.{same-IsOwned}
use rumpuser_baremetal.Sched.Threads.{exit_gate, exit_leave, exit_turn}
use rumpuser_baremetal.Sched.Run.{Program, Inv, listed, exits}
use rumpuser_baremetal.Sched.Run.Gate.{wake_joiner-wake, called, gate-Gated, gate_wakes}
use rumpuser_baremetal.Sched.Run.Keeps.{sched-Inv}

module _ ⦃tq : Tailq⦄ ⦃al : Alloc⦄ where
  module _ (own : ℕ → ℕ) (own_apart : (t u : ℕ) → own t ≡ own u → t ≡ u) where
    only_joiner :
        (p : Program) (v : ℕ)
        → Inv own p
        → p.wants v ≢ 0
        → p.wants v ≡ p.sched.current
        → (w : ℕ) → has w (tq.items p.sched.joinwq) ≡ true
        → (p.sched.waiter w).1 ≡ p.sched.current
        → (p.sched.waiter w).0 ≡ v
    only_joiner p v i h e w m wanted =
        let (u, mine) = i.owned w m in
        let in_queue : has (own u) (tq.items p.sched.joinwq) ≡ true =
          ap (λ (x : ℕ). has x (tq.items p.sched.joinwq)) (sym mine) ∙ m in
        let waits : p.wants u ≢ 0 = ground (arith, i.queued u, in_queue) in
        let who : p.sched.waiter w ≡ (u, p.wants u) = ap p.sched.waiter mine ∙ i.who u waits in
        let same : p.wants u ≡ p.sched.current = sym (ap (λ (x : ℕ × ℕ). x.1) who) ∙ wanted in
        ap (λ (x : ℕ × ℕ). x.0) who ∙ i.single u v waits (same ∙ sym e)

    -- The thread that joins the running one can run behind its gate.
    joiner_runs :
        (p : Program) (v : ℕ)
        → Inv own p
        → p.wants p.sched.current ≡ 0
        → p.wants v ≢ 0
        → p.wants v ≡ p.sched.current
        → is_runnable v (exit_gate p.sched) ≡ true
    unfolding called
    joiner_runs p v i free h e =
        let t = p.sched.current in
        let ws = tq.items p.sched.joinwq in
        gate_wakes p.sched v (ground (arith, free, h, ap p.wants)) (
          wake_joiner-wake t v (own v) ws (called p.sched) (i.queued v ∙ ground (arith, h))
            (ap (λ (x : ℕ × ℕ). x.1) (i.who v h) ∙ e)
            (λ w m wanted. only_joiner p v i h e w m wanted))

    gate-Inv :
        (p : Program)
        → Inv own p
        → RunsListed p.sched
        → p.wants p.sched.current ≡ 0
        → mustjoin p.sched.current p.sched ≡ true
        → Inv own (exits p.sched.current true (exit_gate p.sched) p)
    gate-Inv p i runs free must =
        let t = p.sched.current in
        let k = gate-Gated p.sched in
        record {
          wf = record {
            threads = rw k.threads i.wf.threads;
            zombies = rw k.zombies i.wf.zombies;
            apart = λ u. ground (arith, i.wf.apart u, k.threads, k.zombies);
            here = rw (k.threads, k.zombies, k.current) i.wf.here;
          };
          memory =
              same-IsOwned p.sched (exit_gate p.sched) i.memory
                (λ u. ground (arith, k.threads, k.zombies)) k.ext k.base k.heap;
          apart = rw k.joinwq i.apart;
          queued = λ v. ap (λ (q : tq.Head). has (own v) (tq.items q)) k.joinwq ∙ i.queued v;
          owned = λ w h. i.owned w (ap (λ (q : tq.Head). has w (tq.items q)) (sym k.joinwq) ∙ h);
          who = λ v h. ap (λ (f : ℕ → ℕ × ℕ). f (own v)) k.waiter ∙ i.who v h;
          waits = λ v h.
              let (a, b, c, d) = i.waits v h in
              (
                ground (arith, a, k.threads),
                ground (arith, b, h, free),
                ground (arith, c, k.threads),
                k.mustjoin (p.wants v) ∙ d,
              );
          single = i.single;
          called = λ v. ground (arith, i.called v, k.joined v);
          gated = λ v l e. elim (Bool-cases (v == t)) [
            | inl e ↦ (ground (arith, k.joined v), ground (arith, k.mustjoin v, must))
            | inr n ↦
                let (a, b) = i.gated v (ground (arith, l, k.threads)) (ground (arith, e)) in
                (ground (arith, a, k.joined v), ground (arith, b, k.mustjoin v, k.runs v))
          ];
          woken = λ v h e. elim (Bool-cases (p.wants v == t)) [
            | inl mine ↦ joiner_runs p v i free h (ground (arith, mine))
            | inr other ↦ ground (arith, i.woken v, k.runs v, h, e, free)
          ];
          left = λ v h.
              let (a, b, c) = i.left v (ground (arith, h)) in
              (ground (arith, a, k.threads), ground (arith, b), k.mustjoin v ∙ c);
          met = λ v h. let (a, b) = i.met v h in (ground (arith, a), k.mustjoin v ∙ b);
          to_join = λ v h. ground (arith, i.to_join v h, k.mustjoin v);
        }

    leave-Inv :
        (p : Program)
        → Inv own p
        → RunsListed p.sched
        → p.wants p.sched.current ≡ 0
        → mustjoin p.sched.current p.sched ≡ false
        → Inv own (exits p.sched.current false (exit_leave p.sched) p)
    unfolding exit_leave
    leave-Inv p i (here, runs) free must =
        let t = p.sched.current in
        let items : tq.items (tq.remove t p.sched.threads) ≡ erase t (tq.items p.sched.threads) =
          tq.items-remove t p.sched.threads here in
        let lists : (v : ℕ) → listed v (exit_leave p.sched) ≡ (not (v == t) && listed v p.sched) =
          λ v. ap (has v) items ∙ has-erase v t (tq.items p.sched.threads) i.wf.threads in
        let out : has t (tq.items p.sched.zombies) ≡ false = ground (arith, i.wf.apart t, here) in
        let gone : (v : ℕ)
            → has v (tq.items (exit_leave p.sched).zombies)
              ≡ ((v == t) || has v (tq.items p.sched.zombies)) =
          λ v. ap (has v) (tq.items-insert_head t p.sched.zombies out) in
        let (wf, _, _, _) = exit_leave-IsWf p.sched i.wf here in
        record {
          wf = wf;
          memory =
              same-IsOwned p.sched (exit_leave p.sched) i.memory
                (λ u. ground (arith, lists u, gone u, i.wf.apart u, here)) (λ u. ground arith)
                (λ u. ground arith) refl;
          apart = i.apart;
          queued = i.queued;
          owned = i.owned;
          who = i.who;
          waits = λ v h.
              let (a, b, c, d) = i.waits v h in
              (
                ground (arith, a, lists v, h, free),
                ground (arith, b, h, free),
                ground (arith, c, d, lists (p.wants v), must),
                ground (arith, d),
              );
          single = i.single;
          called = λ v. ground (arith, i.called v);
          gated = λ v l e.
              let (a, b) = i.gated v (ground (arith, l, lists v)) (ground (arith, e, l, lists v)) in
              (ground (arith, a), ground (arith, b, l, lists v));
          woken = λ v h e.
              let (_, _, _, d) = i.waits v h in ground (arith, i.woken v h, e, d, must, h, free);
          left = λ v h. elim (Bool-cases (v == t)) [
            | inl e ↦ (ground (arith, lists v), ground (arith, e), ground (arith, must))
            | inr n ↦
                let (a, b, c) = i.left v (ground (arith, h)) in
                (ground (arith, a, lists v), ground (arith, b), ground (arith, c))
          ];
          met = λ v h. let (a, b) = i.met v h in (ground (arith, a), ground (arith, b));
          to_join = λ v h. ground (arith, i.to_join v h);
        }

    exit_turn-Inv :
        (p : Program)
        → Inv own p
        → RunsListed p.sched
        → p.wants p.sched.current ≡ 0
        → Inv own (exits p.sched.current (mustjoin p.sched.current p.sched) (exit_turn p.sched) p)
    unfolding exit_turn
    exit_turn-Inv p i runs free =
        let Goal = λ (b : Bool).
          Inv own
            (exits p.sched.current b (if b then exit_gate p.sched else exit_leave p.sched) p) in
        elim (Bool-cases (mustjoin p.sched.current p.sched)) [
          | inl must ↦ subst Goal (sym must) (gate-Inv p i runs free must)
          | inr may ↦ subst Goal (sym may) (leave-Inv p i runs free may)
        ]

    pub leaves-Inv :
        (p : Program) (s' : Sched) (rs : List Round)
        → Inv own p
        → RunsListed p.sched
        → p.wants p.sched.current ≡ 0
        → sched rs (exit_turn p.sched) ≡ some s'
        → Inv own (exits p.sched.current (mustjoin p.sched.current p.sched) s' p) × RunsListed s'
    leaves-Inv p s' rs i runs free e =
        let b = mustjoin p.sched.current p.sched in
        sched-Inv own (exits p.sched.current b (exit_turn p.sched) p) s' rs
          (exit_turn-Inv p i runs free) e
