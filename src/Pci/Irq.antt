-- ===== src/Pci/Irq.antt =====
-- `rumpcomp_pci_irq_establish` (rumppci.c): the line that `rumpcomp_pci_irq_map` stored goes to
-- intr.c.
use rumpuser_baremetal.Base.{
  ℤ, ◌≤◌, ◌^◌, neg_part, ℕ, ◌<◌, ◌≡◌, refl, ◌≢◌, false, Option, none, some, List, ◌==◌,
  if◌then◌else◌, ◌>>=◌, arith, ◌⊎◌, inl, inr, ltb, pos, get_elem?, length, has,
}
use rumpuser_baremetal.Queue.{Tailq}
use rumpuser_baremetal.Queue.Slist.{Slist}
use rumpuser_baremetal.Heap.{Alloc}
use rumpuser_baremetal.Intr.{Intr, isr_netinit, as_unsigned, sizeof_intrhand}
use rumpuser_baremetal.Intr.Establish.{IsEstablished, IsRefused, isr_netinit_lem}
use rumpuser_baremetal.Pci.{irq_map, maxintr, set?-some}

module _ ⦃tq : Tailq⦄ ⦃al : Alloc⦄ ⦃sl : Slist⦄ where
  -- The result is the index in `intrs` that the address stands for, if the result is not NULL.
  unfoldable pub irq_establish :
      (isr_10 isr_11 cookie handler arg : ℕ) → List ℤ → Intr → Option (Option ℕ × Intr)
  unfolding isr_netinit
  irq_establish isr_10 isr_11 cookie handler arg intrs s = do
    intr ← get_elem? intrs cookie
    (error, s') ← isr_netinit isr_10 isr_11 handler arg intr s
    some (if error == 0 then some cookie else none, s')

  -- For an array of 32 lines, which are ints, and a cookie below 32, where the allocator has memory for
  -- the handler that is not in the line's list: a line is mapped to the cookie, and is then
  -- established with it if it is 10 or 11: the handler is the first one of that line. For every other
  -- line, negative ones included, the result is NULL, and no handler has been added.
  pub irq_map-irq_establish :
      (isr_10 isr_11 : ℕ) (intrline : ℤ) (cookie handler arg ih : ℕ) (h : al.State) (intrs : List ℤ)
      (s : Intr)
      → length intrs ≡ maxintr
      → cookie < maxintr
      → neg_part intrline ≤ 2 ^ 31
      → al.alloc sizeof_intrhand s.sched.heap ≡ (some ih, h)
      → has ih (sl.items (s.isr_ih (as_unsigned intrline))) ≡ false
      → (intrs' : List ℤ) × (s' : Intr) × (irq_map intrline cookie intrs ≡ some (0, intrs'))
        × ((((intrline ≡ pos 10) ⊎ (intrline ≡ pos 11))
              × (irq_establish isr_10 isr_11 cookie handler arg intrs' s ≡ some (some cookie, s'))
              × IsEstablished handler arg (as_unsigned intrline) ih s s')
            ⊎ ((intrline ≢ pos 10)
                × (intrline ≢ pos 11)
                × (irq_establish isr_10 isr_11 cookie handler arg intrs' s ≡ some (none, s'))
                × IsRefused s s'))
  unfolding irq_map irq_establish
  irq_map-irq_establish isr_10 isr_11 intrline cookie handler arg ih h intrs s all small range given
        new =
      let (intrs', e, there) = set?-some intrs cookie intrline (omega (arith, all, small)) in
      let low : ltb 32 cookie ≡ false = ground arith in
      let mapped : irq_map intrline cookie intrs ≡ some (0, intrs') = rw (low, e) refl in
      elim (isr_netinit_lem isr_10 isr_11 handler arg ih h s given intrline range new) [
        | inl (line, (s', done, est)) ↦ (intrs', s', mapped, inl (line, rw (there, done) refl, est))
        | inr (not_ten, not_eleven, (s', done, ref)) ↦
            (intrs', s', mapped, inr (not_ten, not_eleven, rw (there, done) refl, ref))
      ]
