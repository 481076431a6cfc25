-- ===== src/Sched/Reap.antt =====
-- The reaper of `bmk_sched` (sched.c): exited threads are freed, but not the one that runs.
use mathlib.Core.Path.{ap₂}
use rumpuser_baremetal.Base.{
  ℕ, ◌≡◌, refl, ◌≢◌, Bool, true, false, not, ◌&&◌, ◌||◌, List, [], ◌∷◌, ◌==◌, if◌then◌else◌, has,
  erase, Distinct, arith, inl, inr, ==_iff, Bool-cases, ap, ◌∙◌,
}
use rumpuser_baremetal.Queue.{Tailq}
use rumpuser_baremetal.Queue.Lists.{has-erase, Distinct-erase}
use rumpuser_baremetal.Heap.{Alloc}
use rumpuser_baremetal.Sched.{Sched, Thread, reap, reap_one, reap_each}

-- What is left of the exited threads: the one that runs, if it is one of them.
abbrev pub only : ℕ → List ℕ → List ℕ
only a [] = []
only a (x ∷ xs) = if x == a then x ∷ only a xs else only a xs

module _ ⦃tq : Tailq⦄ ⦃al : Alloc⦄ where
  -- The blocks of a thread, its stack first, unless the stack came from outside.
  abbrev pub free_thread : (ℕ → Thread) → ℕ → al.State → al.State
  free_thread thread t h =
      al.free t (if (thread t).flags.extstack then h else al.free (thread t).stackbase h)

  abbrev pub free_others : (ℕ → Thread) → ℕ → List ℕ → al.State → al.State
  free_others thread prev [] h = h
  free_others thread prev (t ∷ ts) h =
      free_others thread prev ts (if t == prev then h else free_thread thread t h)

  -- What a walk over `ts` leaves.
  record IsReaped (prev : ℕ) (ts : List ℕ) (s r : Sched) : Type 0 where
    kept :
        (u : ℕ)
        → has u (tq.items r.zombies) ≡ (has u (tq.items s.zombies) && (u == prev || not (has u ts)))
    distinct : Distinct (tq.items r.zombies)
    heap : r.heap ≡ free_others s.thread prev ts s.heap
    thread : r.thread ≡ s.thread
    threads : r.threads ≡ s.threads
    current : r.current ≡ s.current

  reap_one-items :
      (prev t : ℕ) (s : Sched)
      → has t (tq.items s.zombies) ≡ true
      → tq.items (reap_one prev t s).zombies
        ≡ (if t == prev then tq.items s.zombies else erase t (tq.items s.zombies))
  unfolding reap_one
  reap_one-items prev t s h = ground (arith, tq.items-remove t s.zombies h)

  reap_one-Distinct :
      (prev t : ℕ) (s : Sched)
      → Distinct (tq.items s.zombies)
      → has t (tq.items s.zombies) ≡ true
      → Distinct (tq.items (reap_one prev t s).zombies)
  reap_one-Distinct prev t s d h = rw (reap_one-items prev t s h) (split (t == prev))
    where
      split : (b : Bool) → Distinct (if b then tq.items s.zombies else erase t (tq.items s.zombies))
      split true = d
      split false = Distinct-erase t (tq.items s.zombies) d

  reap_one_frame :
      (prev t : ℕ) (s : Sched)
      → ((reap_one prev t s).thread ≡ s.thread)
        × ((reap_one prev t s).threads ≡ s.threads)
        × ((reap_one prev t s).current ≡ s.current)
        × ((reap_one prev t s).heap ≡ (if t == prev then s.heap else free_thread s.thread t s.heap))
  unfolding reap_one
  reap_one_frame prev t s = (ground arith, ground arith, ground arith, ground arith)

  reap_one-has :
      (prev t u : ℕ) (s : Sched)
      → Distinct (tq.items s.zombies)
      → has t (tq.items s.zombies) ≡ true
      → has u (tq.items (reap_one prev t s).zombies)
        ≡ (has u (tq.items s.zombies) && (t == prev || not (u == t)))
  reap_one-has prev t u s d h =
      ground (arith, reap_one-items prev t s h, has-erase u t (tq.items s.zombies) d)

  -- The walk goes over `ts`, and the queue has all of it.
  reap_each-IsReaped :
      (prev : ℕ) (ts : List ℕ) (s : Sched)
      → Distinct ts
      → Distinct (tq.items s.zombies)
      → ((t : ℕ) → has t ts ≡ true → has t (tq.items s.zombies) ≡ true)
      → IsReaped prev ts s (reap_each prev ts s)
  unfolding reap_each
  reap_each-IsReaped prev [] s d dz sub = record {
    kept = λ t. ground arith;
    distinct = dz;
    heap = refl;
    thread = refl;
    threads = refl;
    current = refl;
  }
  reap_each-IsReaped prev (t ∷ ts) s d dz sub =
      let listed = sub t (ground arith) in
      let s₁ = reap_one prev t s in
      let ih =
        reap_each-IsReaped prev ts s₁ d.1 (reap_one-Distinct prev t s dz listed)
          (λ u h. ground (arith, sub u, reap_one-has prev t u s dz listed)) in
      let (th, ths, cur, hp) = reap_one_frame prev t s in
      record {
        kept = λ u. ground (arith, ih.kept u, reap_one-has prev t u s dz listed);
        distinct = ih.distinct;
        heap = ih.heap ∙ ap₂ (λ (f : ℕ → Thread) (h : al.State). free_others f prev ts h) th hp;
        thread = ih.thread ∙ th;
        threads = ih.threads ∙ ths;
        current = ih.current ∙ cur;
      }

  -- From distinct exited threads the reaper takes every one off the list and frees it with its stack,
  -- in the order of the list, but never the thread that runs; the threads, their list and the running
  -- one do not change.
  pub reap_lem :
      (s : Sched)
      → Distinct (tq.items s.zombies)
      → ((u : ℕ)
          → has u (tq.items (reap s).zombies) ≡ (has u (tq.items s.zombies) && u == s.current))
        × ((reap s).heap ≡ free_others s.thread s.current (tq.items s.zombies) s.heap)
        × ((reap s).thread ≡ s.thread)
        × ((reap s).threads ≡ s.threads)
        × ((reap s).current ≡ s.current)
  unfolding reap
  reap_lem s d =
      let r = reap_each-IsReaped s.current (tq.items s.zombies) s d d (λ t h. h) in
      (λ u. ground (arith, r.kept u), r.heap, r.thread, r.threads, r.current)

  pub reap-Distinct :
      (s : Sched) → Distinct (tq.items s.zombies) → Distinct (tq.items (reap s).zombies)
  unfolding reap
  reap-Distinct s d =
      let r = reap_each-IsReaped s.current (tq.items s.zombies) s d d (λ t h. h) in r.distinct

  free_thread-live :
      (thread : ℕ → Thread) (t p : ℕ) (h : al.State)
      → p ≢ t
      → ((thread t).flags.extstack ≡ false → p ≢ (thread t).stackbase)
      → al.live (free_thread thread t h) p ≡ al.live h p
  free_thread-live thread t p h a b = al.free_frame t p _ a ∙ stack ((thread t).flags.extstack) b
    where
      stack :
          (ext : Bool)
          → (ext ≡ false → p ≢ (thread t).stackbase)
          → al.live (if ext then h else al.free (thread t).stackbase h) p ≡ al.live h p
      stack true n = refl
      stack false n = al.free_frame (thread t).stackbase p h (n refl)

  free_others-live :
      (thread : ℕ → Thread) (prev p : ℕ) (ts : List ℕ) (h : al.State)
      → ((t : ℕ)
          → has t ts ≡ true
          → t ≢ prev
          → (p ≢ t) × ((thread t).flags.extstack ≡ false → p ≢ (thread t).stackbase))
      → al.live (free_others thread prev ts h) p ≡ al.live h p
  free_others-live thread prev p [] h apart = refl
  free_others-live thread prev p (t ∷ ts) h apart =
      free_others-live thread prev p ts _ (λ u m n. apart u (ground arith) n) ∙ one
    where
      one : al.live (if t == prev then h else free_thread thread t h) p ≡ al.live h p
      one = elim (Bool-cases (t == prev)) [
        | inl e ↦ rw e
        | inr n ↦
            let (a, b) = apart t (ground arith) (λ q. cc ((==_iff t prev).1 q)) in
            rw n (free_thread-live thread t p h a b)
      ]

  -- From distinct exited threads: an address that is in use, and is neither an exited thread other
  -- than the running one nor the base of its stack, where that stack is its own, is in use after the reaper just as before.
  pub reap-live :
      (s : Sched) (p : ℕ)
      → Distinct (tq.items s.zombies)
      → ((t : ℕ)
          → has t (tq.items s.zombies) ≡ true
          → t ≢ s.current
          → (p ≢ t) × ((s.thread t).flags.extstack ≡ false → p ≢ (s.thread t).stackbase))
      → al.live (reap s).heap p ≡ al.live s.heap p
  reap-live s p d apart =
      ap (λ (h : al.State). al.live h p) (reap_lem s d).1
      ∙ free_others-live s.thread s.current p (tq.items s.zombies) s.heap apart
