-- ===== src/Examples/Interrupts.antt =====
-- Interrupts 11, 10 and 11 again, on a machine on which the handler 5 answers and the others do not.
use rumpuser_baremetal.Base.{
  ℕ, ◌≡◌, ◌≢◌, refl, ◌⊎◌, true, ◌||◌, some, none, List, [], ◌∷◌, ◌==◌, if◌then◌else◌, arith, ℤ, pos,
  replicate,
}
use rumpuser_baremetal.Queue.Slist.{Slist, list_slist}
use rumpuser_baremetal.Examples.Data.{queue, heap, sched_example}
use rumpuser_baremetal.Machine.{
  Machine, fillgate, fillsegment, outb, splhigh, spl0, pic1_cmd, pic2_cmd,
}
use rumpuser_baremetal.Intr.{Intr, called, isr, arrive, isr_netinit, isr_turn}
use rumpuser_baremetal.Intr.Raise.{raises, serve_all, isr_turn-raises}
use rumpuser_baremetal.Intr.Establish.{IsEstablished, IsRefused, isr_netinit_lem}
use rumpuser_baremetal.Intr.Wakes.{runs, start, later, raised, Reach-runs}
use rumpuser_baremetal.Pci.{irq_map}
use rumpuser_baremetal.Pci.Irq.{irq_establish, irq_map-irq_establish}

instance abbrev pub slist : Slist
slist = list_slist

abbrev pub machine_example : Machine
unfolding fillgate fillsegment
machine_example = record {
  gdt = λ _. fillsegment 19;
  idt = λ _. fillgate 0x1000;
  lgdt = (23, 0x2000);
  lidt = (2047, 0x3000);
  outs = [];
  spldepth = 0;
  enabled = true;
}

-- The interrupt thread is 3; interrupt 10 has the handlers 21 and 20, interrupt 11 has 22.
abbrev pub intr_example : Intr
intr_example = record {
  isr_ih = λ i. if i == 10 then 21 ∷ 20 ∷ [] else if i == 11 then 22 ∷ [] else [];
  isr_todo = 0;
  isr_thread = 3;
  hand = λ h. record { ih_fun = if h == 20 then 5 else 6; ih_arg = h };
  sched = sched_example;
  machine = machine_example;
}

abbrev upcall : Intr → Intr
upcall s = s

abbrev answer : (fun arg : ℕ) → Intr → ℕ × Intr
answer fun arg s = (if fun == 5 then 1 else 0, s)

isr_turn-raises_example :
    let s' = raises (11 ∷ 10 ∷ 11 ∷ []) intr_example in
    (c : Machine) × (spl0 (splhigh machine_example) ≡ some c)
    × (isr_turn upcall upcall upcall answer (λ _. 10 ∷ []) s' ≡ (
        let (rv, s₁) =
          serve_all upcall upcall upcall answer
            (10 ∷ 11 ∷ [])
            0
            (arrive (10 ∷ []) (record s' { isr_todo = 0; machine = c })) in
        some (
          called (rv == 0),
          record s₁ { machine = outb pic1_cmd 0x20 (outb pic2_cmd 0x20 s₁.machine) },
        )))
isr_turn-raises_example =
    isr_turn-raises upcall upcall upcall answer 11 (10 ∷ 11 ∷ []) (λ _. 10 ∷ []) intr_example refl

isr_netinit_lem_example :
    (((pos 11 ≡ pos 10) ⊎ (pos 11 ≡ pos 11))
      × ((s' : Intr) × (isr_netinit 0x4000 0x5000 5 77 (pos 11) intr_example ≡ some (0, s'))
          × IsEstablished 5 77 11 262267 intr_example s'))
    ⊎ ((pos 11 ≢ pos 10)
        × (pos 11 ≢ pos 11)
        × ((s' : Intr) × (isr_netinit 0x4000 0x5000 5 77 (pos 11) intr_example ≡ some (3, s'))
            × IsRefused intr_example s'))
isr_netinit_lem_example =
    isr_netinit_lem 0x4000 0x5000 5 77 262267 (262267 ∷ sched_example.heap) intr_example refl
      (pos 11) (omega arith) refl

Reach-runs_example : ((isr 11 intr_example).isr_todo == 0 || runs (isr 11 intr_example)) ≡ true
Reach-runs_example =
    Reach-runs upcall upcall upcall answer (λ s h. h) (λ s h. h) (λ fun arg s h. h)
      (isr 11 intr_example) (later (start refl) (raised 11 (omega arith)))

irq_map-irq_establish_example :
    (intrs' : List ℤ) × (s' : Intr) × (irq_map (pos 11) 2 (replicate 32 (pos 0)) ≡ some (0, intrs'))
    × ((((pos 11 ≡ pos 10) ⊎ (pos 11 ≡ pos 11))
          × (irq_establish 0x4000 0x5000 2 5 77 intrs' intr_example ≡ some (some 2, s'))
          × IsEstablished 5 77 11 262267 intr_example s')
        ⊎ ((pos 11 ≢ pos 10)
            × (pos 11 ≢ pos 11)
            × (irq_establish 0x4000 0x5000 2 5 77 intrs' intr_example ≡ some (none, s'))
            × IsRefused intr_example s'))
irq_map-irq_establish_example =
    irq_map-irq_establish 0x4000 0x5000 (pos 11) 2 5 77 262267 (262267 ∷ sched_example.heap)
      (replicate 32 (pos 0)) intr_example refl (omega arith) (omega arith) refl refl
