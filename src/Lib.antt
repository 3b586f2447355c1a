-- ===== src/Lib.antt =====
-- wdedup finds the first word of a large text file that is not repeated, in a bounded working memory. The
-- profiling stage (src/wprof.cpp) cuts the file into segments, deduplicates the words of each in
-- the working memory (src/wtreededup.cpp), and writes them as a sorted table, a profile
-- (src/wpflsimple.cpp). The merge stage (src/wmerge.cpp) merges profiles in pairs by the plans of
-- a planner (src/wmpsimple.cpp, src/wmpdp.cpp) until one is left, and the find stage
-- (src/wfindfirst.cpp) scans that one. The stages keep a log, from which an interrupted run
-- resumes, and work in a directory that the configuration (include/wconfig.hpp, src/main.cpp)
-- stands for.
--
-- The modules and the code:
--   Prelude: the names, tests and lemmas on lists that the others share.
--   Errors: include/wtypes.hpp. `Result` has, besides the value and the thrown error, undefined behaviour
--     (`fault`) and spent fuel (`stuck`).
--   Word: strings as lists of byte values; `std::string` operators. A C string ends at its first 0.
--   Serial: include/wio.hpp, operator<<, and operator>> on numbers, on streams of bytes; a size_t has eight bytes,
--     least significant first.
--   File: include/wio.hpp, src/wiobase.cpp, SequentialFile (`read`, `checkeof`, `bufferptr`, `bufferskip`, and
--     operator>> on a string) over a kernel whose reads are part of the state. A profile and the
--     start of the log are read through it, as regular files whose reads fill the buffer of 4096 bytes
--     (`reads_of`). Where the terminator of a string is not in the buffer, the code writes out of
--     bounds (`fault`): File.Cut says when that is.
--   Append: include/wio.hpp, src/wiobase.cpp, AppendFileLog and AppendFileBuffer (`write`, `sync`) over a
--     kernel whose writes are part of the state.
--   Profile, ProfileFile: include/wprofile.hpp, src/wpflsimple.cpp: ProfileItem, ProfileOutputSimple
--     (`item_bytes`, `encode`) and ProfileInputSimple (`open_bytes`, `pop_fill`, `pop_item`) on a buffered
--     file. A repeated item is delivered with the offset of the item before it. Profile.Status says what a table
--     knows of a word: nothing, its one offset, or that it is repeated, with the sum `⊕`.
--   Filter: src/wpflfilter.cpp.   Find: src/wfindfirst.cpp.
--   Bloom: include/wbloom.hpp.   Memory: include/impl/wwmman.hpp.
--   Rbtree, Dedup: src/wtreededup.cpp. The red-black tree is libbsd's: an interface `Rbtree` with the laws
--     of its manual page, which an ordered list meets.
--   SortDedup: src/wsortdedup.cpp, the same promise kept by sorting; the profiling stage does not use it.
--     `std::sort` is an interface `Sorter`, which an insertion sort meets.
--   Reader: src/wprof.cpp, OriginalFileReader and eliminateWhitespace. The cache is part of the word it gives.
--   Profiling: src/wprof.cpp, the inner loop of `wprof`, which fills the working memory with a segment.
--   Segments: src/wprof.cpp, the rest of `wprof`: its log and the recovery from it, the checks of the file, and
--     the loop over the segments. A word that does not fit an empty working memory ends the program with
--     an exception that nothing catches (`fault`).
--   Tables: src/wmerge.cpp, the loops that merge two profiles.
--   Config: MainConfig in src/main.cpp. The state has the input log, whether the output log is open, the
--     synchronised content of the log and the files of the directory by number.
--   Plan, Simple, Dynamic: include/wdedup.hpp, src/wmpsimple.cpp, src/wmpdp.cpp. Plan.Valid is the contract
--     between a planner and the merge stage: the plans merge the profiles there are until the root is left.
--   Merge: src/wmerge.cpp, `wmerge` with its recovery. Merge.Run has the rounds of a run that is stopped,
--     Merge.Restart what a start on its log does, and Merge.Partial a round whose output file is there already.
--   Pipeline: src/main.cpp, the merge stage and the find stage, one after the other.
--   Cli: src/wcli.cpp, the sizes, the checks of the options and the exit code; what boost makes of the arguments
--     is a parameter.
--   Main: src/main.cpp, the start in the working directory, the stages and what is printed. What `stat`,
--     `mkdir` and the kernel say is a parameter.
--   Tests: runs on small inputs.
--
-- Bounds and fuel. A size_t wraps round at 2 ^ 64 where the code computes sizes (Memory, Dedup); numbers of
-- segments and merges do not reach it. The loops that do not recur on a list have fuel: one round
-- for each plan left (merge_loop), for each byte of the log (the two recover), two for each node (layers),
-- one for each plan (retrace),
-- one for each byte (read_loop, write_loop, the reader of words), one for each item (scan), one for each
-- word (fill_segment, segments_loop),
-- and one more for the end. The theorems on them state results, so that the fuel is shown to be enough.
--
-- Not modelled. A profile is read to its end when it is opened; its reads by the kernel are taken to succeed. Errors of the system other than those of
-- missing files are part of File, Append, Segments and Main only, not of Config. The
-- mapping of the memory and the usage that boost prints have no model here.
pub mod Prelude
pub mod Errors
pub mod Word
pub mod Serial
pub mod Profile
pub mod ProfileFile
pub mod Tables
pub mod Filter
pub mod Find
pub mod Config
pub mod Plan
pub mod Simple
pub mod Merge
pub mod Bloom
pub mod Memory
pub mod Rbtree
pub mod Dedup
pub mod SortDedup
pub mod File
pub mod Append
pub mod Reader
pub mod Profiling
pub mod Segments
pub mod Dynamic
pub mod Cli
pub mod Pipeline
pub mod Main
mod Tests
