-- ===== src/Memory.antt =====
-- include/impl/wwmman.hpp: the working memory, with fixed items at its start and strings at its end.
-- Addresses are offsets from `vmaddr`; `item_size` is `sizeof(itemType)`.
pub mod Safe
use wdedup.Prelude.{ℕ, ◌+◌, ◌-◌, ◌*◌, ◌%◌, ◌^◌, ◌≤◌, Option, none, some, ltb, ◌==◌, if◌then◌else◌}

-- `MemoryManager`.
pub record Memory : Type 0 where
  pub vmsize : ℕ
  pub poolsize : ℕ
  pub arraysize : ℕ

-- The constructor.
unfoldable pub new_memory : ℕ → Memory
new_memory vmsize = record { vmsize = vmsize; poolsize = 0; arraysize = 0 }

-- What an allocation hands out: the address of the item, and of the string if one was asked for.
pub record Block : Type 0 where
  pub item : ℕ
  pub pool : Option ℕ

-- The size that is taken after an allocation, as a `size_t`.
abbrev pub size_after : ℕ → ℕ → Memory → ℕ
size_after item_size allocpool m = (allocpool + m.poolsize + (m.arraysize + 1) * item_size) % 2 ^ 64

-- `alloc`; `none` is its result `false`, with the manager unchanged.
unfoldable pub alloc : ℕ → ℕ → Memory → Option (Memory × Block)
alloc item_size allocpool m =
    if ltb m.vmsize (size_after item_size allocpool m)
    then none
    else if allocpool == 0
    then some (
      record m { arraysize = m.arraysize + 1 },
      record { item = m.arraysize * item_size; pool = none },
    )
    else some (
      record m { arraysize = m.arraysize + 1; poolsize = m.poolsize + allocpool },
      record { item = m.arraysize * item_size; pool = some (m.vmsize - (m.poolsize + allocpool)) },
    )
