-- ===== src/Intr/Raise.antt =====
-- A turn of the interrupt thread after any interrupts.
use rumpuser_baremetal.Base.{
  ℕ, zero, suc, ◌+◌, ◌-◌, ◌≡◌, refl, true, false, ◌||◌, some, List, [], ◌∷◌, ◌==◌, if◌then◌else◌,
  has, arith, ap, sym, ◌∙◌, Bool-cases, inl, inr,
}
use rumpuser_baremetal.Bits.Mask.{is_set, is_set-or, is_set-zero}
use rumpuser_baremetal.Queue.{Tailq}
use rumpuser_baremetal.Queue.Slist.{Slist}
use rumpuser_baremetal.Heap.{Alloc}
use rumpuser_baremetal.Machine.{Machine, outb, splhigh, spl0, pic1_cmd, pic2_cmd}
use rumpuser_baremetal.Intr.Held.{isr_turn-busy}
use rumpuser_baremetal.Intr.{Intr, called, isr, arrive, isr_serve, isr_turn, bit_loop, serve}

-- The numbers from `i` on, `n` of them, that occur in a list: each once, in their order.
abbrev pub occurring : (n i : ℕ) → List ℕ → List ℕ
occurring zero i ws = []
occurring (suc n) i ws = let rest = occurring n (i + 1) ws in if has i ws then i ∷ rest else rest

module _ ⦃tq : Tailq⦄ ⦃al : Alloc⦄ ⦃sl : Slist⦄ where
  -- Interrupts one after another.
  pub raises : List ℕ → Intr → Intr
  raises [] s = s
  raises (w ∷ ws) s = raises ws (isr w s)

  raises-is_set :
      (i : ℕ) (ws : List ℕ) (s : Intr)
      → is_set i (raises ws s).isr_todo ≡ (has i ws || is_set i s.isr_todo)
  unfolding raises isr
  raises-is_set i [] s = refl
  raises-is_set i (w ∷ ws) s =
      ground (arith, raises-is_set i ws (isr w s), is_set-or i w s.isr_todo)

  raises_machine : (ws : List ℕ) (s : Intr) → (raises ws s).machine ≡ s.machine
  unfolding raises isr
  raises_machine [] s = refl
  raises_machine (w ∷ ws) s = raises_machine ws (isr w s)

  raised_bits :
      (i : ℕ) (ws : List ℕ) (s : Intr) → s.isr_todo ≡ 0 → is_set i (raises ws s).isr_todo ≡ has i ws
  raised_bits i ws s e = raises-is_set i ws s ∙ rw (e, is_set-zero i) (ground arith)

  some_raised :
      (w : ℕ) (ws : List ℕ) (s : Intr)
      → s.isr_todo ≡ 0
      → ((raises (w ∷ ws) s).isr_todo == 0) ≡ false
  some_raised w ws s e = elim (Bool-cases ((raises (w ∷ ws) s).isr_todo == 0)) [
    | inl none ↦
        let todo : (raises (w ∷ ws) s).isr_todo ≡ 0 = ground arith in
        let bit : is_set w 0 ≡ has w (w ∷ ws) =
          ap (is_set w) (sym todo) ∙ raised_bits w (w ∷ ws) s e in
        ground (arith, bit, is_set-zero w)
    | inr some_todo ↦ some_todo
  ]

  pub high_low : (c : Machine) → (c' : Machine) × (spl0 (splhigh c) ≡ some c')
  unfolding spl0 splhigh
  high_low c =
      let deep : (c.spldepth + 1 == 0) ≡ false = ground arith in
      let depth = c.spldepth + 1 - 1 in
      (record c { spldepth = depth; enabled = if depth == 0 then true else false }, rw deep refl)

  module _ (hyp_schedule hyp_unschedule newlwp : Intr → Intr)
      (call : (fun arg : ℕ) → Intr → ℕ × Intr) where
    -- The handlers of several interrupts, one after another; each has its answer to the next.
    pub serve_all : List ℕ → (rv : ℕ) → Intr → ℕ × Intr
    serve_all [] rv s = (rv, s)
    serve_all (i ∷ is) rv s =
        let (rv', s') = serve hyp_schedule hyp_unschedule newlwp call i rv s in serve_all is rv' s'

    bit_loop-serve_all :
        (n i copy rv : ℕ) (ws : List ℕ) (s : Intr)
        → ((j : ℕ) → is_set j copy ≡ has j ws)
        → bit_loop hyp_schedule hyp_unschedule newlwp call n i copy rv s
          ≡ serve_all (occurring n i ws) rv s
    unfolding bit_loop serve_all
    bit_loop-serve_all zero i copy rv ws s h = refl
    bit_loop-serve_all (suc n) i copy rv ws s h = elim (Bool-cases (has i ws)) [
      | inl in_ws ↦
          let set : is_set i copy ≡ true = h i ∙ in_ws in
          let (rv', s') = serve hyp_schedule hyp_unschedule newlwp call i rv s in
          rw (set, in_ws) (bit_loop-serve_all n (i + 1) copy rv' ws s' h)
      | inr out ↦
          let clear : is_set i copy ≡ false = h i ∙ out in
          rw (clear, out) (bit_loop-serve_all n (i + 1) copy rv ws s h)
    ]

    -- Where nothing is pending and then interrupts come, in any order and any of them several
    -- times: the interrupt thread's next turn calls the handlers of each of them below 32 once, in
    -- the order of their numbers, and of no other. The mask is cleared before that, and interrupts
    -- that come in the turn come behind `spl0` only; behind the last handler the controllers are acknowledged, and the last answer says
    -- whether the interrupt was stray.
    pub isr_turn-raises :
        (w : ℕ) (ws : List ℕ) (come : ℕ → List ℕ) (s : Intr)
        → s.isr_todo ≡ 0
        → let s' = raises (w ∷ ws) s in
          (c : Machine) × (spl0 (splhigh s.machine) ≡ some c)
          × (isr_turn hyp_schedule hyp_unschedule newlwp call come s' ≡ (
              let (rv, s₁) =
                serve_all
                  (occurring 32 0 (w ∷ ws))
                  0
                  (arrive (come 3) (record s' { isr_todo = 0; machine = c })) in
              some (
                called (rv == 0),
                record s₁ { machine = outb pic1_cmd 0x20 (outb pic2_cmd 0x20 s₁.machine) },
              )))
    unfolding isr_serve
    isr_turn-raises w ws come s e =
        let s' = raises (w ∷ ws) s in
        let (c, low) = high_low s.machine in
        let low' : spl0 (splhigh s'.machine) ≡ some c = rw (raises_machine (w ∷ ws) s) low in
        let served =
          bit_loop-serve_all 32 0 s'.isr_todo 0 (w ∷ ws)
            (arrive (come 3) (record s' { isr_todo = 0; machine = c }))
            (λ j. raised_bits j (w ∷ ws) s e) in
        (
          c,
          low,
          isr_turn-busy hyp_schedule hyp_unschedule newlwp call come s' c low'
                (some_raised w ws s e)
              ∙ rw served refl,
        )
