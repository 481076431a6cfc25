-- ===== src/Memalloc/Blocks/Free.antt =====
-- Giving a block in use back to its list keeps the blocks well formed.
use rumpuser_baremetal.Base.{
  ℕ, ◌-◌, ◌<◌, ◌≡◌, refl, ◌≢◌, true, false, not, ◌&&◌, ◌||◌, ◌∷◌, ◌==◌, has, Distinct, arith,
  if◌then◌else◌, Bool-cases, inl, inr, some,
}
use rumpuser_baremetal.Memalloc.{Malloc, minus, header, in_use, nbuckets, update, memfree}
use rumpuser_baremetal.Memalloc.Free.{memfree-eq}
use rumpuser_baremetal.Memalloc.Blocks.{
  Blocks, is_used, Chain, has_header, IsWf, Chain-update, inner,
}

-- Block `x` is in its list again.
unfoldable pub given : (x : ℕ) → Blocks → Blocks
given x g = record g { free = λ c. if c == g.bucket x then x ∷ g.free c else g.free c }

module _ (x : ℕ) (g : Blocks) (m : Malloc) (wf : IsWf g m) (used : is_used g x ≡ true) where
  abbrev b : ℕ
  b = g.bucket x

  abbrev g' : Blocks
  g' = given x g

  abbrev m' : Malloc
  m' = record m { link = update x (m.nextf b) m.link; nextf = update b x m.nextf }

  mine : (has x g.blocks ≡ true) × (has x (g.free b) ≡ false)
  mine = ground (arith, used)

  nonzero : x ≢ 0
  nonzero = ground (arith, wf.inside x, mine.0)

  unlisted : (c : ℕ) → has x (g.free c) ≡ false
  unlisted c = elim (Bool-cases (c == b)) [
    | inl same ↦ let e : c ≡ b = ground arith in rw e mine.1
    | inr other ↦ ground (arith, wf.listed c x)
  ]

  given_lists : (c : ℕ) → Chain m'.link (m'.nextf c) (g'.free c)
  unfolding given
  given_lists c = elim (Bool-cases (c == b)) [
    | inl same ↦
        let e : c ≡ b = ground arith in
        let here : update x (m.nextf b) m.link x ≡ m.nextf b = ground arith in
        rw same (
          refl,
          nonzero,
          rw (here, e)
              (Chain-update m.link x (m.nextf b) (m.nextf b) (g.free b) mine.1 (wf.lists b)),
        )
    | inr other ↦
        rw other
          (Chain-update m.link x (m.nextf b) (m.nextf c) (g.free c) (unlisted c) (wf.lists c))
  ]

  given-Distinct : (c : ℕ) → Distinct (g'.free c)
  unfolding given
  given-Distinct c = elim (Bool-cases (c == b)) [
    | inl same ↦ rw same (unlisted c, wf.distinct c)
    | inr other ↦ rw other (wf.distinct c)
  ]

  given_listed : (c y : ℕ) → (not (has y (g'.free c)) || (has y g.blocks && g.bucket y == c)) ≡ true
  unfolding given
  given_listed c y = ground (arith, wf.listed c y, mine)

  pub given_used : (y : ℕ) → is_used g' y ≡ (is_used g y && not (y == x))
  unfolding given
  given_used y = ground (arith, mine)

  -- The header of a block that stays in use is not at the start of the freed one.
  header_stays : (y : ℕ) → (y == x) ≡ false → is_used g y ≡ true → (g.mem y - header == x) ≡ false
  header_stays y n u = ground (arith, wf.headers y, inner g m y x wf, mine.0)

  given_headers : (y : ℕ) → (not (is_used g' y) || has_header g' m' y) ≡ true
  unfolding given
  given_headers y = ground (arith, given_used y, header_stays y, wf.headers y)

  pub given-IsWf : IsWf g' m'
  unfolding given
  given-IsWf = record {
    page = wf.page;
    pagebucket = wf.pagebucket;
    lists = given_lists;
    distinct = given-Distinct;
    listed = given_listed;
    apart = wf.apart;
    inside = wf.inside;
    headers = given_headers;
    below = wf.below;
    room = wf.room;
    sound = wf.sound;
    whole = wf.whole;
  }

  -- `bmk_memfree` of the memory of a block in use is this step.
  pub memfree-IsWf :
      (m₁ : Malloc) × (memfree (g.mem x) m ≡ some m₁)
      × (m₁.nextf b ≡ x)
      × (m₁.link x ≡ m.nextf b)
      × IsWf (given x g) m₁
  memfree-IsWf =
      let rv = g.mem x in
      let facts = wf.headers x in
      let inside = wf.inside x in
      let there : minus rv header ≡ rv - header = ground (arith, facts, inside, used, wf.room) in
      let magic : m.magic (rv - header) ≡ in_use = ground (arith, facts, used) in
      let index : m.index (rv - header) ≡ b = ground (arith, facts, used) in
      let small : b < nbuckets = ground (arith, inside, mine.0) in
      let pad : minus rv (m.link (rv - header)) ≡ x =
        ground (arith, facts, inside, used, wf.room) in
      let some_memory : rv ≢ 0 = ground (arith, facts, used) in
      (
        m',
        memfree-eq rv x b m some_memory (rw there magic) (rw there index) small (rw there pad),
        ground arith,
        ground arith,
        given-IsWf,
      )
