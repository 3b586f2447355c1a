-- ===== src/Memory/Safe.antt =====
-- Allocations stay inside the working memory and do not overlap.
use wdedup.Prelude.{dec_lt, ℕ, ◌+◌, ◌-◌, ◌*◌, ◌^◌, ◌≤◌, ◌<◌, ◌≡◌, Option, none, some, arith}
use wdedup.Memory.{Memory, Block, alloc, new_memory}

-- The items at the start and the strings at the end leave no byte twice.
abbrev pub Fits : ℕ → Memory → Type 0
Fits item_size m = m.arraysize * item_size + m.poolsize ≤ m.vmsize

-- The addresses from the first on, for a length, lie within bounds.
abbrev pub Within : ℕ → ℕ → ℕ → ℕ → Type 0
Within from size low high = (low ≤ from) × (from + size ≤ high)

-- The string that was handed out, if any, lies behind all items and before the older strings.
abbrev pub StringWithin : Option ℕ → ℕ → ℕ → ℕ → Type 0
StringWithin none size low high = size ≡ 0
StringWithin (some from) size low high = Within from size low high

-- What an allocation promises. Refused: the memory is too small for the items and strings there are
-- with the new ones. Done: an item right behind the items before it and a string between all
-- items and the strings before it, and the memory still fits.
abbrev pub Allocated : ℕ → ℕ → Memory → Option (Memory × Block) → Type 0
Allocated item_size allocpool m none =
    m.vmsize < allocpool + m.poolsize + (m.arraysize + 1) * item_size
Allocated item_size allocpool m (some (m', b)) =
    Fits item_size m'
    × (m'.vmsize ≡ m.vmsize)
    × Within b.item item_size (m.arraysize * item_size) (m'.arraysize * item_size)
    × StringWithin b.pool allocpool (m'.arraysize * item_size) (m.vmsize - m.poolsize)

module _ (item_size allocpool : ℕ) (m : Memory) where
  abbrev need : ℕ
  need = allocpool + m.poolsize + (m.arraysize + 1) * item_size

  alloc_refused : need < 2 ^ 64 → m.vmsize < need → alloc item_size allocpool m ≡ none
  unfolding alloc
  alloc_refused h p = ground arith

  alloc_plain :
      need < 2 ^ 64
      → need ≤ m.vmsize
      → allocpool ≡ 0
      → alloc item_size allocpool m
        ≡ some (
          record m { arraysize = m.arraysize + 1 },
          record { item = m.arraysize * item_size; pool = none },
        )
  unfolding alloc
  alloc_plain h p z = ground arith

  alloc_string :
      need < 2 ^ 64
      → need ≤ m.vmsize
      → 0 < allocpool
      → alloc item_size allocpool m
        ≡ some (
          record m { arraysize = m.arraysize + 1; poolsize = m.poolsize + allocpool },
          record {
            item = m.arraysize * item_size;
            pool = some (m.vmsize - (m.poolsize + allocpool));
          },
        )
  unfolding alloc
  alloc_string h p z = ground arith

  -- An allocation keeps its promise, in a memory that fits, if the sizes do not wrap round.
  pub alloc-Allocated :
      need < 2 ^ 64
      → Fits item_size m
      → Allocated item_size allocpool m (alloc item_size allocpool m)
  alloc-Allocated h f = elim (dec_lt m.vmsize need) [
    | yes p ↦ rw (alloc_refused h p) p
    | no p ↦ elim (dec_lt 0 allocpool) [
      | yes z ↦ rw (alloc_string h (omega arith) z) (omega arith)
      | no z ↦ rw (alloc_plain h (omega arith) (omega arith)) (omega arith)
    ]
  ]

-- An empty memory fits.
pub new_memory-Fits : (item_size vmsize : ℕ) → Fits item_size (new_memory vmsize)
unfolding new_memory
new_memory-Fits item_size vmsize = omega arith
