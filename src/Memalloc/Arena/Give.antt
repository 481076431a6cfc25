-- ===== src/Memalloc/Arena/Give.antt =====
-- Giving memory back to memalloc.c, and the interface `Alloc` that it and handing out fill.
use rumpuser_baremetal.Base.{
  ℕ, ◌≡◌, refl, Bool, true, false, not, ◌&&◌, ◌||◌, List, [], ◌∷◌, ◌++◌, ◌==◌, arith, ap, sym, ◌∙◌,
  inl, inr, Bool-cases, ◌<◌,
}
use mathlib.Core.Path.{subst}
use rumpuser_baremetal.Heap.{Alloc}
use rumpuser_baremetal.Memalloc.{Malloc}
use rumpuser_baremetal.Memalloc.Blocks.Held.{is_held, held_split, Owns}
use rumpuser_baremetal.Memalloc.Blocks.Steps.{Reach, Inv, Reach-Inv}
use rumpuser_baremetal.Memalloc.Blocks.Run.{Reach-memfree}
use rumpuser_baremetal.Memalloc.Arena.Over.{arena_over}
use rumpuser_baremetal.Memalloc.Arena.{Arena, in_arena, arena_alloc, arena_fresh, membase_freed}

-- Where an address stands among what is held.
record Found (p : ℕ) (held : List (ℕ × ℕ)) : Type 0 where
  before : List (ℕ × ℕ)
  after : List (ℕ × ℕ)
  size : ℕ
  split : held ≡ before ++ (p, size) ∷ after

find : (p : ℕ) (held : List (ℕ × ℕ)) → is_held p held ≡ true → Found p held
find p [] h = ground (arith, h)
find p ((q, n) ∷ held) h = elim (Bool-cases (p == q)) [
  | inl same ↦
      let e : p ≡ q = ground arith in
      record { before = []; after = held; size = n; split = rw e refl }
  | inr other ↦
      let f = find p held (ground (arith, h, other)) in
      record {
        before = (q, n) ∷ f.before;
        after = f.after;
        size = f.size;
        split = ap (λ (xs : List (ℕ × ℕ)). (q, n) ∷ xs) f.split;
      }
]

-- No address is held twice.
once :
    (p n : ℕ) (before after : List (ℕ × ℕ)) (m : Malloc)
    → Reach (before ++ (p, n) ∷ after) m
    → is_held p (before ++ after) ≡ false
unfolding Inv
once p n before after m r = let (g, _, o) = Reach-Inv _ m r in owned before g o
  where
    owned :
        (before : List (ℕ × ℕ)) (g : _)
        → Owns g (before ++ (p, n) ∷ after)
        → is_held p (before ++ after) ≡ false
    owned [] g (_, new, _) = new
    owned ((q, k) ∷ before) g (_, new, o) =
        ground (arith, held_split q p n before after, new, owned before g o)

freed_at : (p : ℕ) (a : Arena) → Found p a.held → Arena
freed_at p a f =
    let r = subst (λ (h : List (ℕ × ℕ)). Reach h a.memory) f.split a.reached in
    let (m', _, _, e, _, _, _, _, _, _, _, r') =
      Reach-memfree f.before f.after p f.size a.memory r in
    record {
      held = f.before ++ f.after;
      memory = m';
      reached = r';
      static = λ q. not (q == p) && a.static q;
      low = λ q h.
          subst (λ (x : ℕ). q < x) (sym (membase_freed p a.memory m' e))
            (a.low q (ground (arith, h)));
    }

forgotten : (p : ℕ) (a : Arena) → Arena
forgotten p a = record a {
  static = λ q. not (q == p) && a.static q;
  low = λ q h. a.low q (ground (arith, h));
}

give : (p : ℕ) (a : Arena) (b : Bool) → is_held p a.held ≡ b → Arena
give p a true h = freed_at p a (find p a.held h)
give p a false h = forgotten p a

-- `bmk_memfree`.
pub arena_free : ℕ → Arena → Arena
arena_free p a = give p a (is_held p a.held) refl

give_lem :
    (p q : ℕ) (a : Arena) (b : Bool) (h : is_held p a.held ≡ b)
    → in_arena (give p a b h) q ≡ (not (q == p) && in_arena a q)
unfolding give forgotten freed_at
give_lem p q a false h = elim (Bool-cases (q == p)) [
  | inl same ↦ let e : q ≡ p = ground arith in rw e (ground (arith, h))
  | inr other ↦ ground arith
]
give_lem p q a true h =
    let f = find p a.held h in
    let r = subst (λ (xs : List (ℕ × ℕ)). Reach xs a.memory) f.split a.reached in
    let gone = once p f.size f.before f.after a.memory r in
    let same : is_held q a.held ≡ (q == p || is_held q (f.before ++ f.after)) =
      ap (is_held q) f.split ∙ held_split q p f.size f.before f.after in
    elim (Bool-cases (q == p)) [
      | inl at ↦
          let e : q ≡ p = ground arith in rw at (ap (λ x. is_held x (f.before ++ f.after)) e ∙ gone)
      | inr other ↦
          let tail : is_held q a.held ≡ is_held q (f.before ++ f.after) =
            same ∙ ground (arith, other) in
          rw (other, tail) refl
    ]

-- Memory that is given back is not in use any more, and nothing else changes.
pub arena_free_lem :
    (p q : ℕ) (a : Arena) → in_arena (arena_free p a) q ≡ (not (q == p) && in_arena a q)
unfolding arena_free
arena_free_lem p q a = give_lem p q a (is_held p a.held) refl

-- memalloc.c is such an allocator.
abbrev pub malloc_alloc : Alloc
malloc_alloc = record {
  State = Arena;
  alloc = arena_alloc;
  free = arena_free;
  live = in_arena;
  over = arena_over;
  alloc_fresh =
      λ n p h h' e. (let (some', was, now, _) = arena_fresh n p h h' e in (some', was, now));
  alloc_frame = λ n p q h h' e d. (arena_fresh n p h h' e).3 q d;
  free_frame = λ p q h d. arena_free_lem p q h ∙ ground (arith, d);
  free_dead = λ p h. arena_free_lem p p h ∙ ground arith;
}
