-- ===== src/ProfileFile/Fill.antt =====
-- The next item is read ahead, or its word is cut by the end of the buffer.
use wdedup.Prelude.{
  ℕ, ◌+◌, ◌<◌, ◌^◌, ◌≡◌, refl, ap, ◌∙◌, Bool, true, false, List, [], ◌∷◌, ◌++◌, arith,
  if◌then◌else◌, length, length-append, append_assoc, subst,
}
use wdedup.Errors.{Result, ok, fault, Error, ◌>>=◌}
use wdedup.Word.{Word, NoNull}
use wdedup.Serial.{put_char, put_size, put_string}
use wdedup.File.{SequentialFile, read_string, read_char}
use wdedup.File.Stream.{Reads, is_end}
use wdedup.File.Blocks.{IsBlocked}
use wdedup.File.Cut.{
  IsWhole, read_string_whole, read_string_cut, read_char-put_char, read_size-put_size,
}
use wdedup.Profile.{ProfileItem}
use wdedup.ProfileFile.{item_bytes, ProfileInput, fill_occur, pop_fill}
use wdedup.ProfileFile.Stale.{IsStorable}

-- The bytes of an item behind its word.
abbrev pub mark : ProfileItem → List ℕ
mark i = if i.repeated then put_char 1 else put_char 0 ++ put_size i.occur

item_split : (i : ProfileItem) (s : List ℕ) → item_bytes i ++ s ≡ i.word ++ 0 ∷ (mark i ++ s)
unfolding item_bytes put_string
item_split i s =
    append_assoc (i.word ++ 0 ∷ []) (mark i) s ∙ append_assoc i.word (0 ∷ []) (mark i ++ s)

pub length-item : (i : ProfileItem) → length (item_bytes i) ≡ length i.word + 1 + length (mark i)
unfolding item_bytes put_string
length-item i =
    omega (arith, length-append (i.word ++ 0 ∷ []) (mark i), length-append i.word (0 ∷ []))

-- The state after the item `i` was read ahead, with the offset `occur` left from before.
abbrev pub ahead : ProfileItem → ℕ → SequentialFile → ProfileInput
ahead i occur f = record {
  input = f;
  head = record i { occur = if i.repeated then occur else i.occur };
  is_empty = false;
}

not_nil : (w s : List ℕ) → is_end (w ++ 0 ∷ s) ≡ false
not_nil [] s = refl
not_nil (b ∷ w) s = refl

module _ (file : Error) where
  fill_as :
      (word : Word) (repeated : Bool) (off occur pos : ℕ) (s : List ℕ) (f : SequentialFile)
      → off < 2 ^ 64
      → Reads f pos (mark (record { word = word; repeated = repeated; occur = off }) ++ s)
      → IsBlocked f
      → (f' : SequentialFile) × ((read_char file f >>= λ (r, g). fill_occur file word r occur g)
          ≡ ok (ahead (record { word = word; repeated = repeated; occur = off }) occur f'))
        × Reads f'
            (pos + length (mark (record { word = word; repeated = repeated; occur = off })))
            s
        × IsBlocked f'
  unfolding fill_occur put_char put_size
  fill_as word true off occur pos s f h r b =
      let (f', reads, r', b') = read_char-put_char file f pos s b 1 (omega arith) r in
      (
        f',
        ap (λ (m : Result (ℕ × SequentialFile)). m >>= λ (r, g). fill_occur file word r occur g)
            reads,
        r',
        b',
      )
  fill_as word false off occur pos s f h r b =
      let (g, reads, r', b') =
        read_char-put_char file f pos (put_size off ++ s) b 0 (omega arith) r in
      let (f', sizes, r'', b'') = read_size-put_size file g (pos + 1) s b' off h r' in
      (
        f',
        ap (λ (m : Result (ℕ × SequentialFile)). m >>= λ (r, g). fill_occur file word r occur g)
              reads
            ∙ ap
                (λ (m : Result (ℕ × SequentialFile)). m >>= λ (off, g). ok (record {
                  input = g;
                  head = record { word = word; repeated = false; occur = off };
                  is_empty = false;
                }))
                sizes,
        subst (λ n. Reads f' n s) (omega arith) r'',
        b'',
      )

  fill_marked :
      (i : ProfileItem) (s : List ℕ) (occur pos : ℕ) (f : SequentialFile)
      → i.occur < 2 ^ 64
      → Reads f pos (mark i ++ s)
      → IsBlocked f
      → (f' : SequentialFile) × ((read_char file f >>= λ (repeated, g).
            fill_occur file i.word repeated occur g)
          ≡ ok (ahead i occur f'))
        × Reads f' (pos + length (mark i)) s
        × IsBlocked f'
  fill_marked i s occur pos f h r b = fill_as i.word i.repeated i.occur occur pos s f h r b

  pop_fill_open :
      (i : ProfileItem) (s : List ℕ) (pos : ℕ) (old : ProfileItem) (e : Bool) (f : SequentialFile)
      → Reads f pos (item_bytes i ++ s)
      → pop_fill file (record { input = f; head = old; is_empty = e }) ≡ (
          read_string file f >>= λ (word, g).
          read_char file g >>= λ (repeated, g'). fill_occur file word repeated old.occur g')
  unfolding pop_fill
  pop_fill_open i s pos old e f r =
      rw (r.ended ∙ ap is_end (item_split i s) ∙ not_nil i.word (mark i ++ s)) refl

  pub pop_fill_whole :
      (i : ProfileItem) (s : List ℕ) (pos : ℕ) (old : ProfileItem) (e : Bool) (f : SequentialFile)
      → IsStorable i
      → Reads f pos (item_bytes i ++ s)
      → IsBlocked f
      → IsWhole pos i.word
      → (f' : SequentialFile) × (pop_fill file (record { input = f; head = old; is_empty = e })
          ≡ ok (ahead i old.occur f'))
        × Reads f' (pos + length (item_bytes i)) s
        × IsBlocked f'
  pop_fill_whole i s pos old e f (no_null, small) r b whole =
      let (g, reads, r', b') =
        read_string_whole file f pos (item_bytes i ++ s) i.word (mark i ++ s) r b no_null
          (item_split i s) whole in
      let (f', fills, r'', b'') =
        fill_marked i s old.occur (pos + (length i.word + 1)) g small r' b' in
      (
        f',
        pop_fill_open i s pos old e f r
            ∙ ap
                (λ (m : Result (Word × SequentialFile)). m >>= λ (word, g).
                  read_char file g >>= λ (repeated, g'). fill_occur file word repeated old.occur g')
                reads
            ∙ fills,
        subst (λ n. Reads f' n s) (omega (arith, length-item i)) r'',
        b'',
      )

  pub pop_fill_cut :
      (i : ProfileItem) (s : List ℕ) (pos : ℕ) (old : ProfileItem) (e : Bool) (f : SequentialFile)
      → NoNull i.word
      → Reads f pos (item_bytes i ++ s)
      → IsBlocked f
      → ¬ IsWhole pos i.word
      → pop_fill file (record { input = f; head = old; is_empty = e }) ≡ fault
  pop_fill_cut i s pos old e f no_null r b cut =
      pop_fill_open i s pos old e f r
      ∙ ap
          (λ (m : Result (Word × SequentialFile)). m >>= λ (word, g).
            read_char file g >>= λ (repeated, g'). fill_occur file word repeated old.occur g')
          (read_string_cut file f pos (item_bytes i ++ s) i.word (mark i ++ s) r b no_null
            (item_split i s) (omega (arith, cut)))

  pub pop_fill_end :
      (old : ProfileItem) (e : Bool) (f : SequentialFile)
      → f.eof ≡ true
      → pop_fill file (record { input = f; head = old; is_empty = e })
        ≡ ok (record { input = f; head = old; is_empty = true })
  unfolding pop_fill
  pop_fill_end old e f h = rw h refl
