-- ===== src/SuffixArray.antt =====
-- The suffix array of the data stream: internal/astrobwt/sa_v114.go, sa_v114_emit.go and
-- sa_v114_merge.go.
pub mod Lex
pub mod View
pub mod Keys
pub mod Suffixes
pub mod Compare
pub mod Sorting
pub mod Sorted
pub mod Heap
pub mod Runs
pub mod Emit
pub mod Order
pub mod Stable
pub mod Merge
pub mod Build
pub mod Unique
mod Tests
