-- ===== src/Memalloc/Blocks/Move.antt =====
-- `bmk_memrealloc` in the runs of clients that free only what they hold.
use rumpuser_baremetal.Base.{
  ℕ, ◌+◌, ◌%◌, ◌^◌, ◌≤◌, ◌<◌, ◌≡◌, refl, ◌≢◌, true, false, List, ◌∷◌, ◌++◌, ◌==◌, leb, arith,
  Bool-cases, inl, inr, ◌⊎◌, Option, some, none,
}
use rumpuser_baremetal.Memalloc.{Malloc, memalloc, memrealloc, room_of}
use rumpuser_baremetal.Memalloc.Blocks.Held.{are_clear, Owns-freed}
use rumpuser_baremetal.Memalloc.Blocks.Steps.{Reach, later, resized, Inv, Reach-Inv}
use rumpuser_baremetal.Memalloc.Blocks.Run.{Reach-memalloc, Reach-memfree}

held_nonzero :
    (before after : List (ℕ × ℕ)) (rv n : ℕ) (m : Malloc)
    → Reach (before ++ (rv, n) ∷ after) m
    → (rv == 0) ≡ false
unfolding Inv
held_nonzero before after rv n m r =
    let (g, wf, o) = Reach-Inv (before ++ (rv, n) ∷ after) m r in
    let (x, used, memory, _, _) = Owns-freed rv n before after g m wf o in
    ground (arith, wf.headers x, used, memory)

-- In every state that clients reach, for memory of 8 bytes or more that is held, a size that is not
-- 0 and does not wrap, and fewer than 2 GB of pages handed out: `bmk_memrealloc` ends. The memory
-- stays where it is and now has that size; or the result is NULL and the memory is held as before;
-- or new memory is held instead, at a multiple of 8 and clear of all that was held, and the old
-- memory's room, which is smaller, was copied to it.
pub Reach-memrealloc :
    (before after : List (ℕ × ℕ)) (rv n nbytes : ℕ) (m : Malloc)
    → Reach (before ++ (rv, n) ∷ after) m
    → 8 ≤ n
    → nbytes ≢ 0
    → nbytes + 2 ^ 3 + 8 < 2 ^ 32
    → m.pages.current < 2 ^ 19
    → (np : ℕ) × (copy : Option (ℕ × ℕ × ℕ)) × (m' : Malloc) × (memrealloc rv nbytes m
        ≡ some (np, copy, m'))
      × (((np ≡ rv) × (copy ≡ none) × Reach (before ++ (rv, nbytes) ∷ after) m')
          ⊎ ((np ≡ 0) × (copy ≡ none) × Reach (before ++ (rv, n) ∷ after) m')
          ⊎ ((np % 2 ^ 3 ≡ 0)
              × (copy ≡ some (np, rv, room_of rv m))
              × (room_of rv m < nbytes)
              × (are_clear np nbytes (before ++ (rv, n) ∷ after) ≡ true)
              × Reach ((np, nbytes) ∷ before ++ after) m'))
unfolding memrealloc
Reach-memrealloc before after rv n nbytes m r eight some_size fits few =
    let held = before ++ (rv, n) ∷ after in
    let there = held_nonzero before after rv n m r in
    let size : (nbytes == 0) ≡ false = ground (arith, some_size) in
    elim (Bool-cases (leb nbytes (room_of rv m))) [
      | inl room ↦
          let e : memrealloc rv nbytes m ≡ some (rv, none, m) =
            rw (memrealloc, there, size, room) refl in
          (
            rv,
            none,
            m,
            e,
            inl (
              refl,
              refl,
              later r (resized before after rv n nbytes eight some_size e (ground (arith, room))),
            ),
          )
      | inr full ↦
          let (np, m₁, e, answer) =
            Reach-memalloc held m nbytes 3 r (omega arith) (omega arith) fits few in
          let e' : memalloc nbytes 8 m ≡ some (np, m₁) = e in
          elim answer [
            | inl (null, r₁) ↦
                let none_got : (np == 0) ≡ true = ground (arith, null) in
                (0, none, m₁, rw (there, size, full, e', none_got) refl, inr (inl (refl, refl, r₁)))
            | inr (aligned, low, high, clear, r₁) ↦
                let some_got : (np == 0) ≡ false = ground (arith, low) in
                let (m₂, _, _, freed, _, _, _, _, _, _, _, r₂) =
                  Reach-memfree ((np, nbytes) ∷ before) after rv n m₁ r₁ in
                (
                  np,
                  some (np, rv, room_of rv m),
                  m₂,
                  rw (there, size, full, e', some_got, freed) refl,
                  inr (inr (aligned, refl, ground (arith, full), clear, r₂)),
                )
          ]
    ]
