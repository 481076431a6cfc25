-- ===== src/Sched/Adds.antt =====
-- What `bmk_sched_create` (sched.c) changes, whatever its arguments: the list, the new thread and the
-- memory.
use rumpuser_baremetal.Base.{
  ℕ, ◌+◌, ◌-◌, ◌%◌, ◌^◌, ◌≡◌, refl, ◌≢◌, true, false, not, ◌&&◌, ◌||◌, some, List, ◌==◌, arith, ◌∙◌,
  ap, sym, Option-cases, Bool-cases, inl, inr, ◌⊎◌, negsuc,
}
use mathlib.Core.Path.{subst}
use mathlib.Core.Option.{some-injective}
use rumpuser_baremetal.Queue.{Tailq}
use rumpuser_baremetal.Heap.{Alloc}
use rumpuser_baremetal.Subr.{strncpy}
use rumpuser_baremetal.Sched.{
  Sched, Thread, Flags, bouncer, no_flags, zeroed, name_maxlen, sizeof_thread, thread_stacksize,
  is_runnable, set_runnable, set_thread,
}
use rumpuser_baremetal.Sched.Frame.{mustjoin, joined, extstack, stackbase}
use rumpuser_baremetal.Sched.Threads.{create, xmalloc, stack_of, cpu_sched_create}

module _ ⦃tq : Tailq⦄ ⦃al : Alloc⦄ where
  -- Memory was taken, and no more.
  record Takes (s s' : Sched) : Type 0 where
    threads : s'.threads ≡ s.threads
    zombies : s'.zombies ≡ s.zombies
    joinwq : s'.joinwq ≡ s.joinwq
    waiter : s'.waiter ≡ s.waiter
    current : s'.current ≡ s.current
    thread : s'.thread ≡ s.thread

  xmalloc-Takes : (n a : ℕ) (s s' : Sched) → xmalloc n s ≡ some (a, s') → Takes s s'
  unfolding xmalloc
  xmalloc-Takes n a s s' e = record {
    threads = ground arith;
    zombies = ground arith;
    joinwq = ground arith;
    waiter = ground arith;
    current = ground arith;
    thread = ground arith;
  }

  -- The memory at `a` was not in use and now is, and the rest is as it was.
  record Fresh (a : ℕ) (s s' : Sched) : Type 0 where
    dead : al.live s.heap a ≡ false
    block : al.live s'.heap a ≡ true
    frame : (q : ℕ) → q ≢ a → al.live s'.heap q ≡ al.live s.heap q

  alloc-Fresh :
      (n a : ℕ) (s : Sched) (h : al.State)
      → al.alloc n s.heap ≡ (some a, h)
      → Fresh a s (record s { heap = h })
  alloc-Fresh n a s h e =
      let (_, dead, block) = al.alloc_fresh n a s.heap h e in
      record { dead = dead; block = block; frame = λ q d. al.alloc_frame n a q s.heap h e d }

  xmalloc-Fresh : (n a : ℕ) (s s' : Sched) → xmalloc n s ≡ some (a, s') → Fresh a s s'
  unfolding xmalloc
  xmalloc-Fresh n a s s' e =
      let h = (al.alloc n s.heap).1 in
      let took : al.alloc n s.heap ≡ (some a, h) = ground arith in
      let same : record s { heap = h } ≡ s' = ground arith in
      subst (Fresh a s) same (alloc-Fresh n a s h took)

  stack_of-Fresh :
      (b n base size : ℕ) (flags : Flags) (s s' : Sched)
      → stack_of b n s ≡ some (base, size, flags, s')
      → (flags.extstack ≡ true) × (s'.heap ≡ s.heap) ⊎ (flags.extstack ≡ false) × Fresh base s s'
  unfolding stack_of
  stack_of-Fresh b n base size flags s s' e = elim (Bool-cases (b == 0)) [
    | inr given ↦ inl (ground arith, ground arith)
    | inl own ↦ elim (Bool-cases (n == 0)) [
      | inr bad ↦ cc (rw (own, bad) at e)
      | inl fits ↦ elim (Option-cases (xmalloc thread_stacksize s)) [
        | inl none₁ ↦ cc (rw (own, fits, none₁) at e)
        | inr ((a, s₁), took) ↦
            let same : (a, thread_stacksize, no_flags, s₁) ≡ (base, size, flags, s') =
              some-injective _ _ (rw (own, fits, took) at e) in
            inr (
              subst (λ (x : ℕ × ℕ × Flags × Sched). (x.2.extstack ≡ false) × Fresh x.0 s x.3) same
                (refl, xmalloc-Fresh thread_stacksize a s s₁ took))
      ]
    ]
  ]

  stack_of-Takes :
      (b n base size : ℕ) (flags : Flags) (s s' : Sched)
      → stack_of b n s ≡ some (base, size, flags, s')
      → Takes s s' × (flags.mustjoin ≡ false) × (flags.joined ≡ false)
  unfolding stack_of xmalloc
  stack_of-Takes b n base size flags s s' e = (
    record {
      threads = ground arith;
      zombies = ground arith;
      joinwq = ground arith;
      waiter = ground arith;
      current = ground arith;
      thread = ground arith;
    },
    ground arith,
    ground arith,
  )

  -- The thread `u` is put in front of the list, and can run.
  pub record Adds (u : ℕ) (s s' : Sched) : Type 0 where
    pub threads : s'.threads ≡ tq.insert_head u s.threads
    pub zombies : s'.zombies ≡ s.zombies
    pub joinwq : s'.joinwq ≡ s.joinwq
    pub waiter : s'.waiter ≡ s.waiter
    pub current : s'.current ≡ s.current
    pub mustjoin : (v : ℕ) → mustjoin v s' ≡ (not (v == u) && mustjoin v s)
    pub joined : (v : ℕ) → joined v s' ≡ (not (v == u) && joined v s)
    pub ext : (v : ℕ) → (v == u) ≡ false → extstack v s' ≡ extstack v s
    pub base : (v : ℕ) → (v == u) ≡ false → stackbase v s' ≡ stackbase v s
    pub dead : al.live s.heap u ≡ false
    pub block : al.live s'.heap u ≡ true
    pub kept : (q : ℕ) → al.live s.heap q ≡ true → al.live s'.heap q ≡ true
    pub stack :
        (extstack u s' ≡ true)
        ⊎ (al.live s'.heap (stackbase u s') ≡ true)
          × (al.live s.heap (stackbase u s') ≡ false)
          × (stackbase u s' ≢ u)
    pub runs : (v : ℕ) → is_runnable v s' ≡ ((v == u) || is_runnable v s)

  abbrev born : ℕ → Thread → (ℕ → ℕ) → Sched → Sched
  born t b m s =
      let s' : Sched = set_runnable t (set_thread t b (record s { memory = m })) in
      record s' { threads = tq.insert_head t s'.threads }

  grows :
      (q : ℕ) (s₁ s₂ : Sched) (b : Thread)
      → al.live s₁.heap q ≡ true
      → (b.flags.extstack ≡ true) × (s₂.heap ≡ s₁.heap)
        ⊎ (b.flags.extstack ≡ false) × Fresh b.stackbase s₁ s₂
      → al.live s₂.heap q ≡ true
  grows q s₁ s₂ b h (inl (_, same)) = ap (λ (g : al.State). al.live g q) same ∙ h
  grows q s₁ s₂ b h (inr (_, f)) = f.frame q (λ same. cc (ap (al.live s₁.heap) same, f.dead)) ∙ h

  born_stackbase :
      (t : ℕ) (b : Thread) (m : ℕ → ℕ) (s : Sched) → stackbase t (born t b m s) ≡ b.stackbase
  unfolding set_runnable
  born_stackbase t b m s = ground arith

  own_stack :
      (t : ℕ) (b : Thread) (m : ℕ → ℕ) (s s₁ s₂ : Sched)
      → Fresh t s s₁
      → Fresh b.stackbase s₁ s₂
      → (extstack t (born t b m s₂) ≡ true)
        ⊎ (al.live s₂.heap (stackbase t (born t b m s₂)) ≡ true)
          × (al.live s.heap (stackbase t (born t b m s₂)) ≡ false)
          × (stackbase t (born t b m s₂) ≢ t)
  own_stack t b m s s₁ s₂ new f =
      let at = born_stackbase t b m s₂ in
      let apart : b.stackbase ≢ t = λ same. cc (ap (al.live s₁.heap) same, f.dead, new.block) in
      inr (
        ap (al.live s₂.heap) at ∙ f.block,
        ap (al.live s.heap) at ∙ sym (new.frame b.stackbase apart) ∙ f.dead,
        λ same. apart (sym at ∙ same),
      )

  born-Adds :
      (t : ℕ) (b : Thread) (m : ℕ → ℕ) (s s₁ s₂ : Sched)
      → Takes s s₁
      → Takes s₁ s₂
      → b.flags.mustjoin ≡ false
      → b.flags.joined ≡ false
      → Fresh t s s₁
      → (b.flags.extstack ≡ true) × (s₂.heap ≡ s₁.heap)
        ⊎ (b.flags.extstack ≡ false) × Fresh b.stackbase s₁ s₂
      → Adds t s (born t b m s₂)
  unfolding set_runnable
  born-Adds t b m s s₁ s₂ k l must met new stack = record {
    threads = ap (tq.insert_head t) (l.threads ∙ k.threads);
    zombies = l.zombies ∙ k.zombies;
    joinwq = l.joinwq ∙ k.joinwq;
    waiter = l.waiter ∙ k.waiter;
    current = l.current ∙ k.current;
    mustjoin = λ v. ground (arith, l.thread, k.thread);
    joined = λ v. ground (arith, l.thread, k.thread);
    ext = λ v n. ground (arith, l.thread, k.thread, n);
    base = λ v n. ground (arith, l.thread, k.thread, n);
    dead = new.dead;
    block = grows t s₁ s₂ b new.block stack;
    kept = λ q h.
        grows q s₁ s₂ b (ground (arith, new.frame q, new.dead, h, ap (al.live s.heap))) stack;
    stack = elim stack [
      | inl (given, _) ↦ inl (ground (arith, given))
      | inr (own, f) ↦ own_stack t b m s s₁ s₂ new f
    ];
    runs = λ v. ground (arith, l.thread, k.thread);
  }

  pub create-Adds :
      (name : List ℕ) (f arg b n u : ℕ) (s s' : Sched)
      → create name 0 0 f arg b n s ≡ some (u, s')
      → Adds u s s'
  unfolding create
  create-Adds name f arg b n u s s' e = elim (Option-cases (xmalloc sizeof_thread s)) [
    | inl none₁ ↦ cc (rw none₁ at e)
    | inr ((t, s₁), e₁) ↦ elim (Option-cases (stack_of b n s₁)) [
      | inl none₂ ↦ cc (rw (e₁, none₂) at e)
      | inr ((base, size, flags, s₂), e₂) ↦
          elim (Option-cases (strncpy zeroed.name name (name_maxlen - 1))) [
            | inl none₃ ↦ cc (rw (e₁, e₂, none₃) at e)
            | inr (name', e₃) ↦
                let taken₁ = xmalloc-Takes sizeof_thread t s s₁ e₁ in
                let (taken₂, must, met) = stack_of-Takes b n base size flags s₁ s₂ e₂ in
                let (sp, m) = cpu_sched_create f arg ((base + size) % 2 ^ 32) s₂.memory in
                let bt : Thread = record zeroed {
                  flags = flags;
                  stackbase = base;
                  sp = sp;
                  ip = bouncer;
                  name = name';
                  wakeup_time = negsuc 0;
                } in
                let same : (t, born t bt m s₂) ≡ (u, s') =
                  some-injective _ _ (rw (e₁, e₂, e₃) at e) in
                subst (λ (r : ℕ × Sched). Adds r.0 s r.1) same
                  (born-Adds t bt m s s₁ s₂ taken₁ taken₂ must met
                    (xmalloc-Fresh sizeof_thread t s s₁ e₁)
                    (stack_of-Fresh b n base size flags s₁ s₂ e₂))
          ]
    ]
  ]
