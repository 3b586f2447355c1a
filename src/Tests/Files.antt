-- ===== src/Tests/Files.antt =====
-- Runs of the files on small inputs, and their theorems at concrete inputs.
use wdedup.Prelude.{inl, ℕ, ◌+◌, ◌≡◌, refl, List, [], ◌∷◌, ◌++◌, none, arith, length}
use wdedup.Errors.{Error, ok, fault}
use wdedup.Word.{codes}
use wdedup.Serial.{get_bytes}
use wdedup.File.{SequentialFile, got, open_file, read, read_string}
use wdedup.File.Stream.{bytes_of, Reads, open_file-Reads}
use wdedup.File.Read.{ReadAs, read-ReadAs}
use wdedup.File.Text.{ReadsString, read_string-ReadsString}
use wdedup.Append.{AppendFile, took, open_append, log_sync}
use wdedup.Append.Buffer.{written, concat, write_all, write_all-disk}
use wdedup.Append.Log.{log_all, synced, log_sync-disk}
use wdedup.File.{ReadResult}
use wdedup.Reader.{Reader, read_word, is_whitespace}
use wdedup.Reader.Spaces.{skip_spaces}
use wdedup.Reader.Words.{split_word}
use wdedup.Reader.Text.{InText, ReadsWord, read_word-ReadsWord}

abbrev pub some_file : Error
some_file = record { eno = 0; path = codes "w/0"; role = codes "log" }

-- A file of seven bytes that the kernel gives in two parts.
abbrev two_parts : SequentialFile
two_parts = open_file 3 (got (1 ∷ 2 ∷ 3 ∷ []) ∷ got (4 ∷ 0 ∷ 6 ∷ 7 ∷ []) ∷ [])

two_parts-Reads : Reads two_parts 3 (1 ∷ 2 ∷ 3 ∷ 4 ∷ 0 ∷ 6 ∷ 7 ∷ [])
two_parts-Reads = open_file-Reads 3 (got (1 ∷ 2 ∷ 3 ∷ []) ∷ got (4 ∷ 0 ∷ 6 ∷ 7 ∷ []) ∷ []) tt

read-ReadAs_example :
    ReadAs Reads 3
      (get_bytes some_file 5 (1 ∷ 2 ∷ 3 ∷ 4 ∷ 0 ∷ 6 ∷ 7 ∷ []))
      (read some_file 5 two_parts)
read-ReadAs_example =
    read-ReadAs some_file 5 3 (1 ∷ 2 ∷ 3 ∷ 4 ∷ 0 ∷ 6 ∷ 7 ∷ []) two_parts two_parts-Reads

-- Its first string lies in both parts.
read_string-two_parts : read_string some_file two_parts ≡ fault
unfolding read_string open_file
read_string-two_parts = refl

read_string-ReadsString_example :
    ReadsString some_file two_parts 3 (1 ∷ 2 ∷ 3 ∷ 4 ∷ 0 ∷ 6 ∷ 7 ∷ []) two_parts-Reads
read_string-ReadsString_example =
    read_string-ReadsString some_file two_parts 3 (1 ∷ 2 ∷ 3 ∷ 4 ∷ 0 ∷ 6 ∷ 7 ∷ []) two_parts-Reads

-- A file that holds a byte already, and two pieces longer than its buffer of three bytes.
abbrev one_byte : AppendFile
one_byte = open_append [] (9 ∷ [])

abbrev pieces : List (List ℕ)
pieces = (1 ∷ 2 ∷ []) ∷ (3 ∷ 4 ∷ 5 ∷ 6 ∷ 7 ∷ []) ∷ []

write_all-disk_example :
    (f : AppendFile) × (write_all some_file 3 (omega arith) pieces one_byte ≡ ok f)
    × (f.disk ≡ written one_byte ++ concat pieces)
    × (f.tell ≡ one_byte.tell + length (concat pieces))
write_all-disk_example =
    write_all-disk some_file 3 (omega arith) pieces one_byte
      (unfold open_append in record { within = omega arith; in_full = refl })

-- The log is given a kernel that takes three bytes of the first write.
abbrev some_log : AppendFile
some_log = open_append (took 3 ∷ took 9 ∷ []) (b'l' ∷ [])

log_sync-disk_example :
    ((log_all some_file pieces some_log).disk ≡ some_log.disk)
    × ((log_all some_file pieces some_log).writes ≡ some_log.writes)
    × (log_sync some_file none (log_all some_file pieces some_log)
        ≡ synced some_file (took 3) (took 9 ∷ []) (concat pieces) some_log)
unfolding open_append
log_sync-disk_example = log_sync-disk some_file pieces some_log (took 3) (took 9 ∷ []) refl refl

-- Two words, the first in both parts of the file.
abbrev pub two_words : List ReadResult
two_words = got (b' ' ∷ b's' ∷ []) ∷ got (b'e' ∷ b'a' ∷ b'\n' ∷ b'a' ∷ []) ∷ []

abbrev pub first_reader : Reader
first_reader = record { file = open_file 0 two_words; prevskip = 0 }

pub first_reader-InText : InText first_reader 0 (bytes_of two_words)
first_reader-InText = record {
  origin = 0;
  stream = bytes_of two_words;
  reads = open_file-Reads 0 two_words tt;
  within = omega arith;
  place = refl;
  left_over = (open_file-Reads 0 two_words tt).at.left_over;
  open_or_done = inl refl;
}

read_word-ReadsWord_example :
    ReadsWord some_file
      (skip_spaces 0 (bytes_of two_words)).0
      (skip_spaces 0 (bytes_of two_words)).1
      (read_word some_file 7 first_reader)
read_word-ReadsWord_example =
    read_word-ReadsWord some_file 7 first_reader 0 (bytes_of two_words) (omega arith)
      first_reader-InText

split_word-sea : split_word 1 (b's' ∷ b'e' ∷ b'a' ∷ b'\n' ∷ b'a' ∷ []) ≡ (codes "sea", 5, b'a' ∷ [])
unfolding split_word is_whitespace
split_word-sea = refl
