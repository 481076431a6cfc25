-- ===== src/Memalloc/Blocks/Serve.antt =====
-- `bmk_memalloc` on well-formed blocks: memory in a block that was not in use, or NULL.
use rumpuser_baremetal.Base.{
  ℕ, ◌+◌, ◌%◌, ◌^◌, ◌≤◌, ◌<◌, ◌≡◌, refl, ◌≢◌, true, false, List, [], ◌∷◌, ◌==◌, has, arith, sym,
  ◌∙◌, if◌then◌else◌, inl, inr, ◌⊎◌, some,
}
use mathlib.Core.Path.{subst}
use rumpuser_baremetal.Bits.{and_pred_of_power}
use rumpuser_baremetal.Memalloc.{
  Malloc, Search, found, too_big, out_of_fuel, minshift, header, morecore, take_block, from_bucket,
  memalloc, bucket_of, alloc_bytes,
}
use rumpuser_baremetal.Memalloc.Request.{setup_done, four_le}
use rumpuser_baremetal.Memalloc.Bucket.{IsSearched, bucket_of-IsSearched}
use rumpuser_baremetal.Memalloc.Blocks.{Blocks, ends, is_used, Chain, IsWf}
use rumpuser_baremetal.Memalloc.Blocks.Take.{taken, take_block-IsWf, first_block}
use rumpuser_baremetal.Memalloc.Blocks.Refill.{IsSame, IsSame-refl, IsSame-trans, morecore-IsWf}

-- `rv` lies in block `x`, which was free or is new; the other blocks are in use as before.
pub record IsGot (x rv nbytes k : ℕ) (g g' : Blocks) : Type 0 where
  pub was : is_used g x ≡ false
  pub now : is_used g' x ≡ true
  pub memory : g'.mem x ≡ rv
  pub aligned : rv % 2 ^ k ≡ 0
  pub low : x + header ≤ rv
  pub high : rv + nbytes ≤ ends g' x
  pub used : (y : ℕ) → (y == x) ≡ false → is_used g' y ≡ is_used g y
  pub size : (y : ℕ) → is_used g y ≡ true → ends g' y ≡ ends g y
  pub others : (y : ℕ) → (y == x) ≡ false → g'.mem y ≡ g.mem y

abbrev pub Answer : (rv nbytes k : ℕ) (g g' : Blocks) → Type 0
Answer rv nbytes k g g' = ((rv ≡ 0) × IsSame g g') ⊎ ((x : ℕ) × IsGot x rv nbytes k g g')

taken-IsGot :
    (b x k rv nbytes : ℕ) (xs : List ℕ) (g : Blocks) (m : Malloc)
    → IsWf g m
    → g.free b ≡ x ∷ xs
    → rv % 2 ^ k ≡ 0
    → x + header ≤ rv
    → rv + nbytes ≤ ends g x
    → IsGot x rv nbytes k g (taken b x rv xs g)
unfolding taken
taken-IsGot b x k rv nbytes xs g m wf first aligned low high =
    let mine = first_block b x xs g m wf first in
    let alone : has x xs ≡ false = (rw first at (wf.distinct b)).0 in
    record {
      was = rw (mine.1, first) (ground (arith, mine.0));
      now = ground (arith, mine, alone);
      memory = ground arith;
      aligned = aligned;
      low = low;
      high = high;
      used = λ y n. ground (arith, n, first);
      size = λ y h. refl;
      others = λ y n. ground (arith, n);
    }

-- A block that is got where the same blocks were in use before.
same-IsGot :
    (x rv nbytes k : ℕ) (g g' g'' : Blocks)
    → IsSame g g'
    → IsGot x rv nbytes k g' g''
    → IsGot x rv nbytes k g g''
same-IsGot x rv nbytes k g g' g'' s i = record {
  was = sym (s.used x) ∙ i.was;
  now = i.now;
  memory = i.memory;
  aligned = i.aligned;
  low = i.low;
  high = i.high;
  used = λ y n. i.used y n ∙ s.used y;
  size = λ y h. i.size y (s.used y ∙ h) ∙ s.size y h;
  others = λ y n. i.others y n ∙ s.memory y;
}

list_cases : (xs : List ℕ) → (xs ≡ []) ⊎ ((x : ℕ) × (ys : List ℕ) × (xs ≡ x ∷ ys))
list_cases [] = inl refl
list_cases (x ∷ xs) = inr (x, xs, refl)

empty_head : (b : ℕ) (g : Blocks) (m : Malloc) → IsWf g m → g.free b ≡ [] → m.nextf b ≡ 0
empty_head b g m wf e = rw e at (wf.lists b)

some_head :
    (b x : ℕ) (xs : List ℕ) (g : Blocks) (m : Malloc)
    → IsWf g m
    → g.free b ≡ x ∷ xs
    → (m.nextf b == 0) ≡ false
some_head b x xs g m wf e =
    let c : (m.nextf b ≡ x) × (x ≢ 0) × Chain m.link (m.link x) xs = rw e at (wf.lists b) in
    ground (arith, c.0, c.1)

module _ (b k nbytes : ℕ) (small : b ≤ 26) (two : 2 ≤ k) (k32 : k < 32)
    (fits : nbytes + 2 ^ k + 8 < 2 ^ 32)
    (enough : alloc_bytes nbytes (2 ^ k) ≤ 2 ^ (b + minshift)) where
  abbrev Served : (g : Blocks) → ℕ × Malloc → Type 0
  Served g (rv, m') = (g' : Blocks) × IsWf g' m' × Answer rv nbytes k g g'

  take_block-Served :
      (x : ℕ) (xs : List ℕ) (g : Blocks) (m : Malloc)
      → IsWf g m
      → g.free b ≡ x ∷ xs
      → Served g (take_block b (2 ^ k) m)
  take_block-Served x xs g m wf first =
      let (rv, m₁, e, wf', aligned, low, high) =
        take_block-IsWf b x k nbytes xs g m wf first two k32 fits enough in
      subst (Served g) (sym e) (
        taken b x rv xs g,
        wf',
        inr (x, taken-IsGot b x k rv nbytes xs g m wf first aligned low high),
      )

  -- With the list as `morecore` left it.
  after_morecore :
      (g g' : Blocks) (m : Malloc)
      → IsSame g g'
      → IsWf g' m
      → Served g (if m.nextf b == 0 then (0, m) else take_block b (2 ^ k) m)
  after_morecore g g' m same wf = elim (list_cases (g'.free b)) [
    | inl empty ↦
        let null : m.nextf b ≡ 0 = empty_head b g' m wf empty in rw null (g', wf, inl (refl, same))
    | inr (x, xs, first) ↦
        let (g'', wf'', answer) = take_block-Served x xs g' m wf first in
        rw (some_head b x xs g' m wf first) (
          g'',
          wf'',
          elim answer [
            | inl (null, same') ↦ inl (null, IsSame-trans g g' g'' same same')
            | inr (y, got) ↦ inr (y, same-IsGot y _ nbytes k g g' g'' same got)
          ],
        )
  ]

  from_bucket-Served :
      (g : Blocks) (m : Malloc)
      → IsWf g m
      → m.pages.current < 2 ^ 19
      → Served g (from_bucket b (2 ^ k) m)
  unfolding from_bucket
  from_bucket-Served g m wf few = elim (list_cases (g.free b)) [
    | inl empty ↦
        let null : m.nextf b ≡ 0 = empty_head b g m wf empty in
        let (g', same, wf') = morecore-IsWf b g m wf small few empty in
        rw null (after_morecore g g' (morecore b m) same wf')
    | inr (x, xs, first) ↦
        let head = some_head b x xs g m wf first in
        rw (head, head) (take_block-Served x xs g m wf first)
  ]

searched_cases :
    (need : ℕ) (r : Search)
    → IsSearched 0 need r
    → (r ≡ too_big) ⊎ ((b : ℕ) × (r ≡ found b) × (b ≤ 26) × (need ≤ 2 ^ (b + 5)))
unfolding IsSearched
searched_cases need (found b) s = inr (b, refl, s.1, s.2)
searched_cases need too_big s = inl refl
searched_cases need out_of_fuel s = inl (ground (arith, s))

-- For blocks that are well formed, a request at an alignment of `2 ^ k` that does not wrap, and
-- fewer than 2 GB of pages handed out: the call ends, and the blocks are well formed again. Either
-- it returns NULL and the same blocks are in use, or it returns aligned memory in a block that was
-- not in use.
pub memalloc-IsWf :
    (nbytes k : ℕ) (g : Blocks) (m : Malloc)
    → IsWf g m
    → 2 ≤ k
    → k < 32
    → nbytes + 2 ^ k + 8 < 2 ^ 32
    → m.pages.current < 2 ^ 19
    → (rv : ℕ) × (m' : Malloc) × (g' : Blocks) × (memalloc nbytes (2 ^ k) m ≡ some (rv, m'))
      × IsWf g' m'
      × Answer rv nbytes k g g'
unfolding memalloc
memalloc-IsWf nbytes k g m wf two k32 fits few =
    let need = alloc_bytes nbytes (2 ^ k) in
    elim (searched_cases need (bucket_of need m)
      (bucket_of-IsSearched need m wf.page wf.pagebucket)) [
        | inl big ↦ (
          0,
          m,
          g,
          rw (memalloc, setup_done m wf.page, four_le k two, and_pred_of_power k, big) refl,
          wf,
          inl (refl, IsSame-refl g),
        )
        | inr (b, e, small, enough) ↦
            let (g', wf', answer) =
              from_bucket-Served b k nbytes small two k32 fits enough g m wf few in
            (
              (from_bucket b (2 ^ k) m).0,
              (from_bucket b (2 ^ k) m).1,
              g',
              rw
                  (
                    memalloc,
                    setup_done m wf.page,
                    four_le k two,
                    and_pred_of_power k,
                    e,
                    four_le k two,
                  )
                  refl,
              wf',
              answer,
            )
      ]
