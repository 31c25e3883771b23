-- ===== src/Lib.antt =====
-- SimpleSSD is a simulator of a solid state drive. Host requests pass the interface layer (hil), the
-- cache (icl) and the flash translation layer (ftl), which issues commands to the flash array (pal).
-- This library models the translation layer and what it is built on, the cache above it, the round-robin
-- and the credit scheduler and the NVMe queues of the interface layer, and the base64 utility.
--
-- Parts, files and code:
--   Bitset    util/bitset.cc, util/bitset.hh: a bitset as the bytes of its allocation. `popcount` and
--             `DIVCEIL` are those of util/algorithm.hh.
--   Block     ftl/common/block.cc: one flash block, with a bitset for validity and one for erasure, in
--             the mode of one unit per page and in that of several. Block/Slots gives both modes one
--             view: a slot is a unit of a page.
--   Ftl       ftl/page_mapping.cc. Ftl/State is the state of `PageMapping`; Ftl/Pool has
--             `getFreeBlock`, `getLastFreeBlock` and `eraseInternal`; Ftl/Access has `readInternal` and
--             `trimInternal`; Ftl/Write has `writeInternal`; Ftl/Collect has `calculateVictimWeight`,
--             `selectVictimBlock` and `doGarbageCollection`; Ftl/Format has `format`, `getStatus` and
--             `calculateTotalPages`; Ftl/Start has the constructor and the writes of `initialize`.
--   Nvme      hil/nvme/queue.cc: the submission and completion queues between host and controller. Their
--             memory is the host's, so that an access is an address in the result.
--   Hil       hil/scheduler/fcfs_scheduler.cc, and in Hil/Request the requests of util/def.hh. Hil/Fcfs has
--             the accounts and what a dispatch does to them, Hil/Fcfs/Dispatch `tryDispatchHost`,
--             `tryDispatchISC`, `tick` and `processUntil`, Hil/Fcfs/Stats the statistics.
--             hil/scheduler/credit_scheduler.cc: Hil/Credit has the accounts, the submission of requests
--             and the charges, Hil/Credit/Start the constructor, Hil/Credit/Refill the refill
--             of `tick`, Hil/Credit/Serve its phases that serve requests, `submitISCRequest` and
--             `processISCRequests`.
--   Icl       icl/generic_cache.cc. Icl/Cache is the state of `GenericCache` with its constructor;
--             Icl/Cache/Lookup has the searches over a set and `checkSequential`, Evict has
--             `compareFunction` and `evictCache`, Read and Write the functions of these names, Range
--             has `flush`, `trim` and `format`.
--   Util      util/b64.cc: `encode` and `decode`.
--   Common    results of code that can stop, arrays, maps and the bits of a word.
-- The schedulers call the cache and the cache the translation layer. Each of the two takes the layer
-- below as a parameter, a function of all calls before, and keeps the calls in its state (`calls`,
-- `issued`); a request to the translation layer is the record that Ftl takes. The mapping calls the
-- blocks, and the blocks call the bitsets. The other modules below Block and Ftl hold invariants and
-- proofs. Ftl/Invariant has the invariant of a mapping, `WellFormed`: blocks in use are valid, free
-- blocks are blank, distinct and not in use, one block per channel is open, and each entry of the
-- table is of the right length and leads to valid slots that hold its page, or nowhere. A write
-- takes some units out of the table first and places them later; in between, the invariant holds but
-- for these units (`WellFormedBut`).
--
-- Numbers and results: a member function is a function from the state to the new state, and code
-- that panics, or leaves a container's range, returns `panic` with its reason. An iterator that is
-- used where the source does not test it against `end()` is the reason `dangling`. Counters that the
-- source keeps in 32 bits wrap around where they are incremented; a state whose lists are longer
-- than that is outside the hypotheses. The counts of blocks and pages of a mapping are those that
-- ftl/ftl.cc passes on from the flash array in 32 bits, so that the cuts of the constructor and of
-- an unmapped entry to 32 bits change nothing and are left out. All loops run over lists or over a
-- count that is known at the start, but for the phases of a refill: the tick plus one is their fuel,
-- as each phase moves on by a tick or more. Ticks are unbounded numbers; the sums that place a page
-- or a request wrap around. An ordered map is a list in ascending order, and an iterator into it the
-- rest of the list. An unordered map is an association list: which entry a walk meets first is not
-- specified by the source, and the list has one such order.
--
-- Not under the model: the flash array, the DRAM and the CPU model decide only when a command ends.
-- They are one parameter, `Devices.finish`, a function of all commands before, the command and its
-- begin, so that they may keep any state of their own. The floating point of the thresholds and
-- weights, the demands and shares of a refill, and std::sort are parameters as well. Request
-- identifiers are passed on only. The victim policies that draw at random, wear levelling,
-- statistics of the mapping and log output are not modelled. Nor are the `processUntil` of the
-- credit scheduler, its statistics and measured windows and its queue of deferred requests of the
-- cache layer, the namespaces, the controller and its DMA, the SATA and UFS hosts, icl/icl.cc, the
-- in-storage computing of isc and the timing models of pal, dram and cpu.
pub mod Common
pub mod Bitset
pub mod Block
pub mod Ftl
pub mod Nvme
pub mod Util
pub mod Hil
pub mod Icl
