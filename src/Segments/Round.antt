-- ===== src/Segments/Round.antt =====
-- A round of the outer loop of `wprof` keeps the invariant of the profiles, with the new one among them.
use wdedup.Prelude.{
  ℕ, suc, ◌+◌, ◌-◌, ◌^◌, ◌%◌, ◌<◌, ◌≡◌, ◌≢◌, refl, ap, ◌∙◌, true, List, [], ◌∷◌, ◌++◌, some,
  if◌then◌else◌, arith, All, All-mono, All-map, All-both, All-of_Pick, Pick, Pick-map_of,
  Distinct-of_Pick, length,
}
use wdedup.Errors.{ok, fault, Error}
use wdedup.Profile.{Profile, ProfileItem}
use wdedup.Profile.Ascending.{Ascending}
use wdedup.ProfileFile.{encode}
use wdedup.ProfileFile.Stale.{AreStorable}
use wdedup.Rbtree.{Rbtree}
use wdedup.Dedup.{pour}
use wdedup.Config.{content, Config, put_output, remove, set_file, write_log}
use wdedup.Plan.{ProfileSegment}
use wdedup.Merge.Rounds.{Entry, Stored, Inv}
use wdedup.Profiling.{Filled}
use wdedup.Segments.{Recorded, segment_entry, record_segment, write_segment}

-- The state after a table was written under a number, with some bytes logged.
pub after_output : ℕ → Profile → List ℕ → Config → Config
after_output id p bytes c =
    let c' = (put_output id p (remove id c)).1 in record c' { log = c'.log ++ bytes }

pub written_file :
    (id : ℕ) (p : Profile) (bytes : List ℕ) (c : Config)
    → (after_output id p bytes c).files id ≡ some (encode p)
unfolding after_output put_output remove set_file
written_file id p bytes c = ground arith

pub other_file :
    (id : ℕ) (p : Profile) (bytes : List ℕ) (c : Config) (j : ℕ)
    → j ≢ id
    → (after_output id p bytes c).files j ≡ c.files j
unfolding after_output put_output remove set_file
other_file id p bytes c j h = ground arith

pub after_output-log :
    (id : ℕ) (p : Profile) (bytes : List ℕ) (c : Config)
    → (after_output id p bytes c).log ≡ c.log ++ bytes
unfolding after_output put_output remove set_file
after_output-log id p bytes c = refl

pub after_output-ilog :
    (id : ℕ) (p : Profile) (bytes : List ℕ) (c : Config) → (after_output id p bytes c).ilog ≡ c.ilog
unfolding after_output put_output remove set_file
after_output-ilog id p bytes c = refl

-- A table that the merge stage can start from.
pub record IsTable (p : Profile) : Type 0 where
  pub storable : AreStorable p
  pub ascending : Ascending p
  pub worded : All (λ (i : ProfileItem). i.word ≢ []) p

pub write_log_lem :
    (bytes : List ℕ) (c : Config)
    → c.olog ≡ true
    → write_log bytes c ≡ ok (record c { log = c.log ++ bytes })
unfolding write_log
write_log_lem bytes c o = ap (λ b. if b then ok (record c { log = c.log ++ bytes }) else fault) o

-- The log is no part of the profiles.
pub logged-Inv :
    (l : List ℕ) (c : Config) (put : ℕ) (live : List Entry)
    → Inv c put live
    → Inv (record c { log = l }) put live
logged-Inv l c put live inv = record {
  stored =
      All-mono (Stored c) (Stored (record c { log = l })) live
        (λ e s. record {
          file = s.file;
          storable = s.storable;
          ascending = s.ascending;
          worded = s.worded;
        })
        inv.stored;
  fresh = inv.fresh;
  below = inv.below;
  distinct = inv.distinct;
  open_log = inv.open_log;
}

module _ (id : ℕ) (p : Profile) (bytes : List ℕ) (c : Config) (live : List Entry)
    (inv : Inv c id live) (t : IsTable p) where
  abbrev next : Config
  next = after_output id p bytes c

  kept : (e : Entry) → Stored c e × (e.0 < id) → Stored next e
  kept e (s, h) = record {
    file = other_file id p bytes c e.0 (λ k. omega (arith, k)) ∙ s.file;
    storable = s.storable;
    ascending = s.ascending;
    worded = s.worded;
  }

  -- With the new profile put anywhere among the others.
  pub after_output-Inv : {more : List Entry} → Pick (id, p) more live → Inv next (suc id) more
  unfolding after_output put_output remove set_file
  after_output-Inv k = record {
    stored =
        All-of_Pick (Stored next) k
          (record {
            file = written_file id p bytes c;
            storable = t.storable;
            ascending = t.ascending;
            worded = t.worded;
          })
          (All-mono _ (Stored next) live kept
            (All-both (Stored c) (λ e. e.0 < id) live inv.stored inv.below));
    fresh = λ j h.
        ap content (other_file id p bytes c j (λ e. omega (arith, e))) ∙ inv.fresh j (omega arith);
    below =
        All-of_Pick (λ e. e.0 < suc id) k (omega arith)
          (All-mono _ _ live (λ e h. omega arith) inv.below);
    distinct = Distinct-of_Pick (Pick-map_of (λ (e : Entry). e.0) k) inv.distinct (
        (All-map (λ y. y ≢ id) (λ (e : Entry). e.0) live).0
          (All-mono _ _ live (λ e h. omega arith) inv.below));
    open_log = inv.open_log;
  }

module _ (rb : Rbtree) where
  -- What a segment leaves in the result and in the log.
  abbrev pub segment_of : Filled rb → Recorded → ProfileSegment
  segment_of x r = record {
    id = r.segments;
    start = r.offset;
    stop = (x.prevoff + 2 ^ 64 - 1) % 2 ^ 64;
    size = length (encode (pour rb x.dedup));
  }

  abbrev pub recorded_after : Filled rb → Recorded → Recorded
  recorded_after x r = record {
    result = r.result ++ segment_of x r ∷ [];
    segments = r.segments + 1;
    offset = x.prevoff;
  }

  pub write_segment_lem :
      (name : Error) (vmsize sync_distance fuel : ℕ) (x : Filled rb) (r : Recorded) (c : Config)
      → c.olog ≡ true
      → write_segment rb name vmsize sync_distance fuel x r c
        ≡ ok (
          recorded_after x r,
          after_output r.segments (pour rb x.dedup) (segment_entry (segment_of x r)) c,
        )
  unfolding write_segment after_output write_log record_segment put_output remove set_file
  write_segment_lem name vmsize sync_distance fuel x r c o = rw o refl
