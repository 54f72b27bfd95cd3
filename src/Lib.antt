-- ===== src/Lib.antt =====
-- anamnesis turns a memory image of a Windows machine into a store of MITRE CAR events. Where no
-- symbol file is at hand, its package internal/symbols recovers what it needs from raw bytes, and
-- internal/memprocfs drives that recovery on an image. The package internal/enrich then links the
-- events. This library models these packages, file by file; the names are the Go names in snake case.
--
-- - Prelude: the shared names; Words is Go's unsigned arithmetic with its wrap-around written out
--   and the little-endian reads, Bits and Rotate the bit operations that math/bits documents, Text
--   and Utf16 strings as lists of their bytes, Options the results with an `ok` or an `err`.
-- - Symbols.Kdbg, internal/symbols/kdbg.go: the encoded debugger block; the decoder, the scan for a
--   decoded block and the search for the code that copies it.
-- - Symbols.Decode, internal/symbols/decode.go: the decoder of x86-64 operands. Decode.Assembler
--   has an assembler of accessors, which is the description that the decoder is held against.
-- - Symbols.Globals, internal/symbols/globals.go: references to kernel globals. Walks with the
--   decoder of Symbols.Decode. A CodeSource is a function that answers with code or not.
-- - Symbols.Fingerprint, internal/symbols/fingerprint.go: masked signatures, built from the
--   references that Symbols.Globals finds, and their search.
-- - Symbols.Pool and Symbols.Sweep, internal/symbols/poolscan.go: the scan of a buffer for a pool
--   tag, and the planning of the ranges that are swept for one.
-- - Symbols.OffsetStore, internal/symbols/store.go: the entries that collect recovered offsets and
--   globals, and their convergence. The Go maps are lists with one entry for a key. `sort.Slice` by
--   name leaves the order of equal names open, so the sort of the globals is an argument `GlobalSort`.
-- - Symbols.ProcParams, internal/symbols/procparams.go: the strings and the environment of a
--   process; ProcParams.Walk has the 64-bit and the 32-bit walk. The memory reader is an argument,
--   so the theorems hold for every memory, and so is `strings.ToLower`.
-- - Symbols.PeImage, internal/symbols/pe.go: reads of a PE image, its exports and its identity.
-- - Symbols.Sid, internal/symbols/sid.go: the two forms of a security identifier, the sweep of a
--   token and the choice of the user.
-- - Symbols.Accessors, internal/symbols/accessors.go: the recovery of field offsets from a battery of
--   accessors; uses Symbols.Decode, and fills an entry of Symbols.OffsetStore.
-- - Memprocfs, internal/memprocfs/recover_vmm.go: the reads of kernel memory (the native engine is the
--   record `Machine` of its answers, with that sort), Memprocfs.Ring the ring of processes and its head, Memprocfs.Kdbg
--   the debugger block: the loop over the tagged blocks, and Kdbg.Copies the keys of the encoded one;
--   Memprocfs.Tokens the search for the token of a process, Memprocfs.Objects the gates of the offsets
--   and of the object cookie, Memprocfs.PoolSweep the sweep of the ranges that Symbols.Sweep plans, and
--   Memprocfs.PoolScan the whole scan for processes that only the pool has. Clocks are arguments.
--   Memprocfs.Patterns applies the signatures of Symbols.Fingerprint, behind the gate of the ring, and
--   authors one for a recovered head.
--   What has been recovered so far is the record `Recovered`; messages to the log are left out.
-- - Value, internal/value/value.go and internal/car/car.go: the values of an event and their
--   conversions. A float64 is its text and its two conversions, which is all that the code reads.
-- - Enrich, internal/enrich/enrich.go: Enrich.Mft, Enrich.Sessions and Enrich.Dedupe collapse events,
--   Enrich.Hosts finds users and hosts in the registry, Enrich.Linking links each event with its
--   process and fills what it inherits. Go shares the events by reference: the indices of the model
--   hold positions in the list, so that a read of a process sees what the loop has written to it.
--
-- Numbers are unbounded and every operation of a fixed width is written with its remainder; an int32
-- is its bit pattern. A Go int is a natural number: where an offset could be negative, the model
-- has the code's test instead. A slice read that Go would refuse is `none`.
--
-- Loops that advance through a slice are recursions on the slice, or on fuel as long as the slice:
-- each round of the instruction walk, of the block scans and of the debug directory moves at least
-- one byte on. The planning loop of the sweep gets one round more than margin and gap together,
-- since each round halves one of them. The walk of the process ring has the code's own bound of 8192
-- entries, and the read of the image 16 rounds for its cap of 16 chunks. The sweep gets three rounds
-- more than its range has chunks less a header. The loop over the tagged blocks is not bounded in the
-- code: its number of rounds is an argument.
--
-- Not modelled: the JSON files of the offset store and of the signatures, the package debug/pe and
-- all other I/O; of internal/memprocfs the log, the files, the binding of the engine and the order of
-- the pre-pass; the packages that collect, normalise and store the events. The tables of data.yaml and
-- the CAR model are arguments of the model of internal/enrich, and the patterns of its registry keys
-- fold case in ASCII.
pub mod Prelude
pub mod Value
pub mod Enrich
pub mod Memprocfs
pub mod Symbols
