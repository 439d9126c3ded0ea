-- ===== src/Lib.antt =====
-- Dirtybird Go GPU Miner: a model of the miner's own core, from the sources of the repository.
--
-- The miner receives jobs from a DERO daemon (internal/getwork), keeps the current one in a shared
-- state (internal/miner), hashes batches of nonces on the GPU (internal/gpu), and sends a share to
-- the daemon only after the CPU has computed the hash again (cmd/go-gpu-miner). The hash is
-- AstroBWTv3 (internal/astrobwt): a data stream made by the branchy "wolf" loop, its suffix array,
-- and SHA-256 of that. The stream exists twice in Go: the consensus code with a switch of 256 cases,
-- and a table-driven one whose table is also uploaded to the GPU.
--
-- Files:
--   Prelude         Go slices as lists, counted loops, results of functions (Outcome), comparisons
--   Word            the uint8, uint16, uint32 and uint64 arithmetic, with its wrap-around
--   Primitives      the third-party hashes, as a record of functions and their documented sizes
--   Rc4             internal/astrobwt/rc4.go: NewCipher, Reset, XORKeyStream
--   Wolf            internal/astrobwt/pow.go (the switch) and wolftable.go, wolftable_gen.go
--                   (wolfApplyByte, wolfOps, WolfOpTable)
--   Stream          astroBWTv3Stream of pow.go (Stream/Round) and WolfStreamInto of wolftable.go
--                   (Stream/Table), with what both share (Stream/Mix)
--   SuffixArray     internal/astrobwt/sa_v114.go (Build), sa_v114_emit.go (Emit, the sorts in Sorting
--                   and Heap) and sa_v114_merge.go (Merge), with the records in Runs
--   Hash            internal/astrobwt/hasher.go and astroBWTv3 of pow.go: the backends, the fallback,
--                   the bytes that are hashed; sha256mb.go (Hash/Lanes), beside SHA-256 as FIPS 180-4
--                   writes it around its compression function (Hash/Lanes/Standard)
--   Miner           internal/miner/difficulty.go (Miner/Target) and state.go (Miner/State), with
--                   a description of what a sequence of pushes comes to (Miner/History)
--   Mine            cmd/go-gpu-miner/main.go: classify, onMiscompute, processBatch, submitShare
--                   (Mine/Gate), fillBatch and mineLoopStream (Mine/Loop)
--   Getwork         internal/getwork/client.go: the backoff of Run
--
-- A machine word is a natural number below its bound, a byte array a list; a write out of bounds of
-- an array that Go would refuse is an outcome `panicked`, where the sizes do not exclude it. A method
-- that changes its receiver returns the new record. The wolf loops run on fuel: 277 rounds are
-- enough, since both end when the counter passes 276. What the other goroutines do to the job state
-- while a batch is checked is a function from a clock of reads to what each read sees (World), so a
-- theorem for every world holds for every interleaving; the wait for room in the mailbox runs on
-- fuel, one unit for each wakeup. The mine loop may run for ever, so its theorems are on any number
-- of iterations.
--
-- The suffix array stage keeps its slices as lists: two parallel slices are one list of entries, a
-- sorted prefix that is searched from its end is a list with the last entry first, and the stretches
-- of a slice that a list of lengths cuts are a list of lists. A function that reports `false` returns
-- `none`. The loops run over their lists; the sift of the heap runs on fuel, one unit for each entry,
-- and the rounds of the pairwise merge on one unit for each run, since each round leaves fewer. That
-- nothing is lost or doubled is said with weights: every weight has the same sum before and after.
--
-- Not modelled: SAIS (internal/astrobwt/sais.go and sais2.go are a copy of Go's index/suffixarray;
-- the hash takes it as a parameter with its documented result), the assembly kernels of the two-
-- lane SHA-256 (parameters too), HashPair, the loop of the portable path (mineLoop), the
-- connections of the websocket client, the GPU device, sessions and shaders, configuration,
-- console, statistics and the command line tools; internal/refpow is a copy of the upstream code
-- used as a test oracle.
pub mod Prelude
pub mod Word
pub mod Wolf
pub mod Rc4
pub mod Primitives
pub mod Stream
pub mod SuffixArray
pub mod Hash
pub mod Miner
pub mod Mine
pub mod Getwork
