-- ===== src/Filter.antt =====
-- include/impl/wpflfilter.hpp, src/wpflfilter.cpp: the decorator that hides repeated items.
use wdedup.Prelude.{Option, none, some, [], ◌∷◌, if◌then◌else◌}
use wdedup.Profile.{ProfileItem, Profile, pop}

-- The loop of the constructor and of `pop`: the delegated input loses its repeated head items.
unfoldable pub skip_repeated : Profile → Profile
skip_repeated [] = []
skip_repeated (i ∷ p) = if i.repeated then skip_repeated p else i ∷ p

-- `ProfileInputFilter::ProfileInputFilter`.
unfoldable pub open_filter : Profile → Profile
unfolding skip_repeated
open_filter delegated = skip_repeated delegated

-- `ProfileInputFilter::pop`.
unfoldable pub pop_filter : Profile → Option (ProfileItem × Profile)
unfolding skip_repeated
pop_filter delegated = elim (pop delegated) [
  | none ↦ none
  | some (i, rest) ↦ some (i, skip_repeated rest)
]
