-- ===== src/Profile.antt =====
-- wprofile.hpp: the items of a profile, and profiles as the tables that stages read and write.
pub mod Status
pub mod Ascending
pub mod Unique
use wdedup.Prelude.{ℕ, Bool, true, false, List, [], ◌∷◌, ◌++◌, Option, none, some}
use wdedup.Word.{Word}

-- `ProfileItem`.
pub record ProfileItem : Type 0 where
  pub word : Word
  pub repeated : Bool
  pub occur : ℕ

-- The constructor of a repeated item.
abbrev pub repeated_item : Word → ProfileItem
repeated_item w = record { word = w; repeated = true; occur = 0 }

-- The constructor of an item that occurs once.
abbrev pub single_item : Word → ℕ → ProfileItem
single_item w off = record { word = w; repeated = false; occur = off }

-- A profile table: an input seen through `ProfileInput` is the items that are left to pop, an
-- output seen through `ProfileOutput` the items that have been pushed.
abbrev pub Profile : Type 0
Profile = List ProfileItem

-- `ProfileOutput::push` at the level of tables.
unfoldable pub push : Profile → ProfileItem → Profile
push out i = out ++ i ∷ []

-- `ProfileInput::pop` at the level of tables: the head item and what is left, or nothing if the
-- table is `empty`.
abbrev pub pop : Profile → Option (ProfileItem × Profile)
pop [] = none
pop (i ∷ p) = some (i, p)
