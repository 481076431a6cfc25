-- ===== src/Intr/Establish.antt =====
-- `bmk_isr_netinit`, against memory that the allocator hands out.
use rumpuser_baremetal.Base.{
  ℕ, suc, ◌-◌, ◌^◌, ◌≡◌, refl, ◌≢◌, true, false, some, ◌∷◌, ◌==◌, if◌then◌else◌, has, arith, ap,
  sym, ◌∙◌, Bool-cases, ◌⊎◌, inl, inr, ltb, ℤ, pos, negsuc, pos_part, neg_part, ◌≤◌,
}
use rumpuser_baremetal.Queue.{Tailq}
use rumpuser_baremetal.Queue.Slist.{Slist}
use rumpuser_baremetal.Heap.{Alloc}
use rumpuser_baremetal.Machine.{Machine, intr_init}
use rumpuser_baremetal.Machine.Masks.{result_ten, result_eleven, result_other}
use rumpuser_baremetal.Sched.Create.{xmalloc-some}
use rumpuser_baremetal.Intr.{Intr, as_unsigned, sizeof_intrhand, isr_netinit}

other_number : (i k : ℕ) → i ≢ k → pos i ≢ pos k
other_number i k n e = n (ap pos_part e)

negative : (n k : ℕ) → negsuc n ≢ pos k
negative n k e = let z : suc n ≡ 0 = ap neg_part e in ground (arith, z)

module _ ⦃tq : Tailq⦄ ⦃al : Alloc⦄ ⦃sl : Slist⦄ where
  -- The handler `func` with its argument `arg` is the first one of interrupt `i`, and the other
  -- interrupts have those that they had.
  pub record IsEstablished (func arg i ih : ℕ) (s s' : Intr) : Type 0 where
    pub first : sl.items (s'.isr_ih i) ≡ ih ∷ sl.items (s.isr_ih i)
    pub handler : s'.hand ih ≡ record { ih_fun = func; ih_arg = arg }
    pub others : (j : ℕ) → j ≢ i → s'.isr_ih j ≡ s.isr_ih j
    pub kept : (h : ℕ) → h ≢ ih → s'.hand h ≡ s.hand h
    pub live : al.live s'.sched.heap ih ≡ true
    pub todo : s'.isr_todo ≡ s.isr_todo

  -- No handler is added, no interrupt is set up, and no memory is kept.
  pub record IsRefused (s s' : Intr) : Type 0 where
    pub lists : s'.isr_ih ≡ s.isr_ih
    pub hand : s'.hand ≡ s.hand
    pub machine : s'.machine ≡ s.machine
    pub memory : (q : ℕ) → al.live s'.sched.heap q ≡ al.live s.sched.heap q
    pub todo : s'.isr_todo ≡ s.isr_todo

  module _ (isr_10 isr_11 func arg ih : ℕ) (h : al.State) (s : Intr)
      (given : al.alloc sizeof_intrhand s.sched.heap ≡ (some ih, h)) where
    memory_there : (ih == 0) ≡ false
    memory_there = ground (arith, (al.alloc_fresh sizeof_intrhand ih s.sched.heap h given).0)

    memory_back : (q : ℕ) → al.live (al.free ih h) q ≡ al.live s.sched.heap q
    memory_back q =
        let (_, was, now) = al.alloc_fresh sizeof_intrhand ih s.sched.heap h given in
        elim (Bool-cases (q == ih)) [
          | inl same ↦ let e : q ≡ ih = ground arith in rw e (al.free_dead ih h ∙ sym was)
          | inr other ↦
              let n : q ≢ ih = ground arith in
              al.free_frame ih q h n ∙ al.alloc_frame sizeof_intrhand ih q s.sched.heap h given n
        ]

    abbrev established : (i : ℕ) → Machine → Intr
    established i machine = record s {
      sched = record s.sched { heap = h };
      machine = machine;
      hand = λ a. if a == ih then record { ih_fun = func; ih_arg = arg } else s.hand a;
      isr_ih = λ j. if j == i then sl.insert_head ih (s.isr_ih i) else s.isr_ih j;
    }

    established-IsEstablished :
        (i : ℕ) (machine : Machine)
        → has ih (sl.items (s.isr_ih i)) ≡ false
        → IsEstablished func arg i ih s (established i machine)
    established-IsEstablished i machine new =
        let here : (i == i) ≡ true = ground arith in
        let mine : (ih == ih) ≡ true = ground arith in
        record {
          first = rw here (sl.items-insert_head ih (s.isr_ih i) new);
          handler = rw mine refl;
          others = λ j n. ground (arith, n);
          kept = λ a n. ground (arith, n);
          live = (al.alloc_fresh sizeof_intrhand ih s.sched.heap h given).2;
          todo = refl;
        }

    abbrev refused : (machine : Machine) → Intr
    refused machine = record s { sched = record s.sched { heap = al.free ih h }; machine = machine }

    establish_at :
        (i : ℕ)
        → ltb 32 i ≡ false
        → ltb i 32 ≡ true
        → (intr_init isr_10 isr_11 i s.machine).0 ≡ 0
        → isr_netinit isr_10 isr_11 func arg (pos i) s
          ≡ some (0, established i (intr_init isr_10 isr_11 i s.machine).1)
    unfolding isr_netinit
    establish_at i low fits ok =
        rw (low, xmalloc-some sizeof_intrhand ih s.sched h given, memory_there, ok, fits) refl

    refuse_at :
        (intr : ℤ)
        → ltb 32 (as_unsigned intr) ≡ false
        → intr_init isr_10 isr_11 (as_unsigned intr) s.machine ≡ (3, s.machine)
        → isr_netinit isr_10 isr_11 func arg intr s ≡ some (3, refused s.machine)
    unfolding isr_netinit
    refuse_at intr low closed =
        rw (low, xmalloc-some sizeof_intrhand ih s.sched h given, memory_there, closed) refl

    guarded :
        (intr : ℤ)
        → ltb 32 (as_unsigned intr) ≡ true
        → isr_netinit isr_10 isr_11 func arg intr s ≡ some (3, s)
    unfolding isr_netinit
    guarded intr far = rw far refl

    same_IsRefused : IsRefused s s
    same_IsRefused = record {
      lists = refl;
      hand = refl;
      machine = refl;
      memory = λ q. refl;
      todo = refl;
    }

    refused-IsRefused : IsRefused s (refused s.machine)
    refused-IsRefused = record {
      lists = refl;
      hand = refl;
      machine = refl;
      memory = memory_back;
      todo = refl;
    }

    at-IsEstablished :
        (i : ℕ)
        → ltb 32 i ≡ false
        → ltb i 32 ≡ true
        → (intr_init isr_10 isr_11 i s.machine).0 ≡ 0
        → has ih (sl.items (s.isr_ih i)) ≡ false
        → (s' : Intr) × (isr_netinit isr_10 isr_11 func arg (pos i) s ≡ some (0, s'))
          × IsEstablished func arg i ih s s'
    at-IsEstablished i low fits ok new =
        let machine = (intr_init isr_10 isr_11 i s.machine).1 in
        (established i machine, establish_at i low fits ok, established-IsEstablished i machine new)

    -- For an int, where the allocator has memory for the handler and that memory is not in the
    -- interrupt's list: for the interrupts 10 and 11 the result is 0, and the handler is put before
    -- those that the interrupt has. For every other number, negative ones and 32 included, the
    -- result is EGENERIC; then no list and no gate has changed, nothing was written to the
    -- controllers, and no memory is kept.
    pub isr_netinit_lem :
        (intr : ℤ)
        → neg_part intr ≤ 2 ^ 31
        → has ih (sl.items (s.isr_ih (as_unsigned intr))) ≡ false
        → (((intr ≡ pos 10) ⊎ (intr ≡ pos 11))
            × ((s' : Intr) × (isr_netinit isr_10 isr_11 func arg intr s ≡ some (0, s'))
                × IsEstablished func arg (as_unsigned intr) ih s s'))
          ⊎ ((intr ≢ pos 10)
              × (intr ≢ pos 11)
              × ((s' : Intr) × (isr_netinit isr_10 isr_11 func arg intr s ≡ some (3, s'))
                  × IsRefused s s'))
    isr_netinit_lem (negsuc n) range new =
        let far : ltb 32 (2 ^ 32 - 1 - n) ≡ true = ground arith in
        inr (negative n 10, negative n 11, (s, guarded (negsuc n) far, same_IsRefused))
    isr_netinit_lem (pos i) range new = elim (Bool-cases (ltb 32 i)) [
      | inl far ↦ inr (
        other_number i 10 (ground arith),
        other_number i 11 (ground arith),
        (s, guarded (pos i) far, same_IsRefused),
      )
      | inr near ↦ elim (Bool-cases (i == 10)) [
        | inl ten ↦
            let e : i ≡ 10 = ground arith in
            let ok =
              ap (λ (j : ℕ). (intr_init isr_10 isr_11 j s.machine).0) e
              ∙ result_ten isr_10 isr_11 s.machine in
            inl (inl (ap pos e), at-IsEstablished i near (ground arith) ok new)
        | inr not_ten ↦ elim (Bool-cases (i == 11)) [
          | inl eleven ↦
              let e : i ≡ 11 = ground arith in
              let ok =
                ap (λ (j : ℕ). (intr_init isr_10 isr_11 j s.machine).0) e
                ∙ result_eleven isr_10 isr_11 s.machine in
              inl (inr (ap pos e), at-IsEstablished i near (ground arith) ok new)
          | inr not_eleven ↦
              let closed = result_other isr_10 isr_11 i s.machine not_ten not_eleven in
              inr (
                other_number i 10 (ground arith),
                other_number i 11 (ground arith),
                (refused s.machine, refuse_at (pos i) near closed, refused-IsRefused),
              )
        ]
      ]
    ]
