-- ===== src/Memalloc/Blocks/Run.antt =====
-- Clients of memalloc.c that free only what they hold: every state that they reach.
use rumpuser_baremetal.Base.{
  some, ◌^◌, ◌*◌, ◌%◌, ◌≤◌, ◌<◌, ℕ, ◌+◌, ◌-◌, ◌≢◌, ◌≡◌, true, List, ◌∷◌, ◌++◌, has, arith, inl, inr,
  ◌⊎◌,
}
use rumpuser_baremetal.Kernel.Page.{page_size}
use rumpuser_baremetal.Memalloc.{Malloc, header, minshift, memalloc, memfree}
use rumpuser_baremetal.Memalloc.Blocks.{Blocks, IsWf, is_used}
use rumpuser_baremetal.Memalloc.Blocks.Serve.{memalloc-IsWf}
use rumpuser_baremetal.Memalloc.Blocks.Free.{memfree-IsWf}
use rumpuser_baremetal.Memalloc.Blocks.Held.{
  are_clear, are_all_clear, unheld, Owns-got, Owns-freed, Owns-are_clear, Owns-are_all_clear,
}
use rumpuser_baremetal.Memalloc.Blocks.Steps.{got, refused, freed, Reach, later, Inv, Reach-Inv}

-- In every state that clients reach who free only what they hold, the memories that are held do not
-- overlap, and there are 8 bytes or more between any two.
pub Reach-are_all_clear :
    (held : List (ℕ × ℕ)) (m : Malloc) → Reach held m → are_all_clear held ≡ true
unfolding Inv
Reach-are_all_clear held m r =
    let (g, wf, o) = Reach-Inv held m r in Owns-are_all_clear held g m wf o

-- In every state that clients reach, a request at an alignment of `2 ^ k`, at least 4, whose size
-- does not wrap, with fewer than 2 GB of pages handed out: `bmk_memalloc` ends. It returns NULL, or
-- memory that is aligned, lies in the pages handed out and is clear of all that is held.
pub Reach-memalloc :
    (held : List (ℕ × ℕ)) (m : Malloc) (nbytes k : ℕ)
    → Reach held m
    → 2 ≤ k
    → k < 32
    → nbytes + 2 ^ k + 8 < 2 ^ 32
    → m.pages.current < 2 ^ 19
    → (rv : ℕ) × (m' : Malloc) × (memalloc nbytes (2 ^ k) m ≡ some (rv, m'))
      × (((rv ≡ 0) × Reach held m')
          ⊎ ((rv % 2 ^ k ≡ 0)
              × (m'.pages.membase + header ≤ rv)
              × (rv + nbytes ≤ m'.pages.membase + m'.pages.current * page_size)
              × (are_clear rv nbytes held ≡ true)
              × Reach ((rv, nbytes) ∷ held) m'))
unfolding Inv
Reach-memalloc held m nbytes k r two k32 fits few =
    let (g, wf, o) = Reach-Inv held m r in
    let (rv, m', g', e, wf', answer) = memalloc-IsWf nbytes k g m wf two k32 fits few in
    (
      rv,
      m',
      e,
      elim answer [
        | inl (null, s) ↦
            let e' : memalloc nbytes (2 ^ k) m ≡ some (0, m') = rw⁻¹ null e in
            inl (null, later r (refused nbytes k two k32 fits few e'))
        | inr (x, i) ↦
            let mine : has x g'.blocks ≡ true = ground (arith, i.now) in
            let new = unheld x held g g' m' rv nbytes k wf' i o in
            let o' = Owns-got x held g g' rv nbytes k i o in
            inr (
              i.aligned,
              ground (arith, wf'.inside x, mine, i.low),
              ground (arith, wf'.inside x, mine, i.high, wf'.below),
              Owns-are_clear x rv nbytes held g' m' wf' i.now i.memory i.high new o',
              later r (got nbytes k two k32 fits few e (omega (arith, i.low))),
            )
      ],
    )

header_of :
    (x : ℕ) (g : Blocks) (m : Malloc)
    → IsWf g m
    → is_used g x ≡ true
    → (rv : ℕ) → g.mem x ≡ rv
    → (g.bucket x ≡ m.index (rv - header)) × (x + m.link (rv - header) ≡ rv)
header_of x g m wf used rv memory =
    (ground (arith, wf.headers x, used, memory), ground (arith, wf.headers x, used, memory))

-- In every state that clients reach, `bmk_memfree` of memory that is held goes through. The header
-- before the memory has the number of a bucket and how far before the memory its block starts: all
-- the memory lies in the bucket's size from there, behind room for the header, and that block becomes
-- the head of that bucket's list, before the head that the list had.
pub Reach-memfree :
    (before after : List (ℕ × ℕ)) (rv nbytes : ℕ) (m : Malloc)
    → Reach (before ++ (rv, nbytes) ∷ after) m
    → (m' : Malloc) × (b : ℕ) × (x : ℕ) × (memfree rv m ≡ some m')
      × (m'.nextf b ≡ x)
      × (m'.link x ≡ m.nextf b)
      × (x ≢ 0)
      × (b ≡ m.index (rv - header))
      × (x + m.link (rv - header) ≡ rv)
      × (x + header ≤ rv)
      × (rv + nbytes ≤ x + 2 ^ (b + minshift))
      × Reach (before ++ after) m'
unfolding Inv
Reach-memfree before after rv nbytes m r =
    let (g, wf, o) = Reach-Inv (before ++ (rv, nbytes) ∷ after) m r in
    let (x, used, memory, high, o') = Owns-freed rv nbytes before after g m wf o in
    let (m', e, head, link, wf') = memfree-IsWf x g m wf used in
    let e' : memfree rv m ≡ some m' = rw⁻¹ memory e in
    let facts = header_of x g m wf used rv memory in
    (
      m',
      g.bucket x,
      x,
      e',
      head,
      link,
      ground (arith, wf.inside x, used, wf.room),
      facts.0,
      facts.1,
      ground (arith, wf.headers x, used, memory),
      high,
      later r (freed before after rv nbytes e'),
    )
