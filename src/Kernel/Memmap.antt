-- ===== src/Kernel/Memmap.antt =====
-- `parsemem` (kernel.c): the walk over the multiboot memory map that finds the memory.
use rumpuser_baremetal.Base.{
  ℕ, zero, suc, ◌∙◌, ◌+◌, ◌-◌, ◌*◌, ◌/◌, ◌%◌, ◌^◌, ◌≤◌, ◌<◌, ◌≡◌, Bool, Option, none, some, ◌&&◌,
  List, [], ◌∷◌, arith, ltb, ◌==◌, if◌then◌else◌, Bool-cases, inl, inr, bit_and,
}
use rumpuser_baremetal.Bits.{clear_low}
use rumpuser_baremetal.Kernel.Page.{Pages, page_size, IsSound}

abbrev pub memstart : ℕ
memstart = 0x100000

-- MULTIBOOT_MEMORY_AVAILABLE
abbrev pub available : ℕ
available = 1

-- `struct multiboot_mmap_entry`: `size` does not count itself.
pub record Entry : Type 0 where
  pub size : ℕ
  pub addr : ℕ
  pub len : ℕ
  pub kind : ℕ

-- How the walk ends: with the entry that it looked for, with a failed `assert(off < len)`, or not.
pub data Walk : Type 0 where
  found : Entry → Walk
  assert_failed : Walk
  out_of_fuel : Walk

abbrev pub is_ours : Entry → Bool
is_ours e = e.addr == memstart && e.kind == available

-- `at off` is what the `off` bytes from the map's start on hold.
module _ (at : ℕ → Entry) (len : ℕ) where
  pub walk : ℕ → ℕ → Walk
  walk zero off = out_of_fuel
  walk (suc fuel) off =
      let next = walk fuel ((off + (at off).size + 4) % 2 ^ 32) in
      if ltb off len then (if is_ours (at off) then found (at off) else next) else assert_failed

-- The mask is `~(PAGE_SIZE-1)`.
unfoldable pub round_page : ℕ → ℕ
round_page x = bit_and ((x + (page_size - 1)) % 2 ^ 32) (2 ^ 32 - page_size)

pub round_page-eq :
    (x : ℕ) → x + page_size ≤ 2 ^ 32 → round_page x ≡ (x + (page_size - 1)) / page_size * page_size
unfolding round_page
round_page-eq x h = omega (arith, clear_low 20 12 ((x + (page_size - 1)) % 2 ^ 32) (omega arith))

-- The rest of `parsemem`: the globals, from the entry and the image's `_begin` and `_end`.
pub set_memory : (begin end : ℕ) → Entry → Pages
set_memory begin end mbm =
    let ossize = (round_page end + 2 ^ 32 - begin) % 2 ^ 32 in
    record {
      membase = (mbm.addr + ossize) % 2 ^ 32;
      memsize = (mbm.len % 2 ^ 32 + 2 ^ 32 - ossize) % 2 ^ 32;
      current = 0;
    }

-- Each step of the walk is four bytes at least, so `len + 1` rounds end it.
pub parsemem : (at : ℕ → Entry) (len begin end : ℕ) → Option Pages
parsemem at len begin end = elim (walk at len (suc len) 0) [
  | found mbm ↦ some (set_memory begin end mbm)
  | assert_failed ↦ none
  | out_of_fuel ↦ none
]

-- The entries of a map: each stands behind the one before, and the last ends at `len` or behind it.
abbrev pub IsMap : (ℕ → Entry) → ℕ → ℕ → List Entry → Type 0
IsMap at len off [] = len ≤ off
IsMap at len off (e ∷ es) =
    (off < len) × (at off ≡ e) × (off + e.size + 4 < 2 ^ 32) × IsMap at len (off + e.size + 4) es

-- The first entry for memory that begins at 1 MB and is free.
abbrev pub first_ours : List Entry → Walk
first_ours [] = assert_failed
first_ours (e ∷ es) = if is_ours e then found e else first_ours es

first_ours-addr : (es : List Entry) (mbm : Entry) → first_ours es ≡ found mbm → mbm.addr ≡ memstart
first_ours-addr [] mbm f = cc
first_ours-addr (e ∷ es) mbm f = elim (Bool-cases (is_ours e)) [
  | inl yes' ↦ ground arith
  | inr no' ↦ first_ours-addr es mbm (rw no' at f)
]

walk-first :
    (at : ℕ → Entry) (len fuel off : ℕ) (es : List Entry)
    → IsMap at len off es
    → len - off < fuel
    → walk at len fuel off ≡ first_ours es
unfolding walk
walk-first at len zero off [] m h = absurd (omega arith)
walk-first at len zero off (e ∷ es) m h = absurd (omega arith)
walk-first at len (suc fuel) off [] m h = ground arith
walk-first at len (suc fuel) off (e ∷ es) m h =
    ground (arith, walk-first at len fuel (off + e.size + 4) es)

-- The memory behind the image: from its last page's end to the end of the memory found.
abbrev pub behind_image : ℕ → Entry → Pages
behind_image end mbm = record {
  membase = (end + (page_size - 1)) / page_size * page_size;
  memsize = memstart + mbm.len - (end + (page_size - 1)) / page_size * page_size;
  current = 0;
}

-- On a map that names free memory from 1 MB up, below 4 GB, with room for the image that is loaded
-- there: the page allocator starts with the memory behind the image's last page, page by page.
pub parsemem-found :
    (at : ℕ → Entry) (len end : ℕ) (es : List Entry) (mbm : Entry)
    → IsMap at len 0 es
    → first_ours es ≡ found mbm
    → memstart ≤ end
    → memstart + mbm.len < 2 ^ 32
    → (end + (page_size - 1)) / page_size * page_size ≤ memstart + mbm.len
    → (parsemem at len memstart end ≡ some (behind_image end mbm))
      × IsSound (behind_image end mbm)
      × ((behind_image end mbm).membase % page_size ≡ 0)
unfolding parsemem set_memory
parsemem-found at len end es mbm m f low fits room = (
  rw (walk-first at len (suc len) 0 es m (omega arith), f, parsemem)
      (ground (arith, round_page-eq end, first_ours-addr es mbm f)),
  record { fits = omega arith; small = omega arith },
  omega arith,
)

-- A map without free memory from 1 MB up fails the assertion: the walk ends and takes no other memory.
pub parsemem-none :
    (at : ℕ → Entry) (len begin end : ℕ) (es : List Entry)
    → IsMap at len 0 es
    → first_ours es ≡ assert_failed
    → (walk at len (suc len) 0 ≡ assert_failed) × (parsemem at len begin end ≡ none)
unfolding parsemem
parsemem-none at len begin end es m f =
    let w = walk-first at len (suc len) 0 es m (omega arith) ∙ f in (w, rw (w, parsemem))
