-- ===== src/Lib.antt =====
-- A verification library for the branch predictors of this repository's ChampSim, for the components
-- of ChampSim that they stand on, and for the parts of the simulator that keep their own state: the
-- branch target buffer, the caches with three of their prefetchers and the queues between them, the
-- register renaming and the virtual memory.
--
-- ChampSim asks a branch predictor for a prediction of each branch (`predict_branch`) and then tells
-- it the outcome (`last_branch_result`); what a prediction stores in the predictor, the update reads.
-- The model has one record for the state of each predictor and one function for each operation, which
-- returns the new state.
--
--   Prelude          Booleans, tests on numbers, updates of tables, linear search, binary digits.
--   Counter          ChampSim/inc/msl/fwcounter.h: the saturating counters. All predictors use them.
--                    `Counter.Unsigned` has the unsigned ones as natural numbers.
--   Tage             ChampSim/branch/Tage/tage.h and tage.cc. `Tage` has the data and the
--                    initialisation, `Tage.Hash` the functions get_ghist_hash, tagHash and indexHash,
--                    `Tage.Predict` predict_branch, `Tage.Update` last_branch_result.
--   LoopPredictor    ChampSim/branch/LTage/loop_predictor.h.
--   LTage            ChampSim/branch/LTage/ltage.h and ltage.cc, over Tage and LoopPredictor. The file
--                    LTage/tage.h repeats the code of branch/Tage.
--   Bimodal, Gshare  ChampSim/branch/bimodal and ChampSim/branch/gshare.
--   FoldedShiftRegister, HashedPerceptron
--                    ChampSim/branch/hashed_perceptron, and `bitmask` of ChampSim/inc/msl/bits.h.
--   Perceptron       ChampSim/branch/perceptron. `Perceptron.Speculation` has the use of the predictor
--                    in order as a relation between states.
--   Replacement      ChampSim/replacement/lru, srrip, drrip and ship: which way of a cache set
--                    is replaced. `Prelude.Extrema` has the searches for an extremum.
--   Instruction      ChampSim/inc/instruction.h and trace_instruction.h: an instruction of the trace and
--                    the type of branch that its registers make it.
--   LruTable         ChampSim/inc/msl/lru_table.h. `LruTable.Keys` has its invariant.
--   ReturnStack, Btb ChampSim/btb/basic_btb: the return stack, and the whole buffer with the direct
--                    predictor, an LruTable, and the indirect one. `update_btb` gets the type of branch
--                    that Instruction finds.
--   Channel          ChampSim/inc/channel.h and src/channel.cc. `Channel.Collision` has
--                    check_collision, `Channel.Queues` the operations as a relation between states.
--   RegisterAllocator
--                    ChampSim/src/register_allocator.cc. `RegisterAllocator.Runs` has the operations as
--                    a relation between states.
--   VirtualMemory    ChampSim/src/vmem.cc.
--   Cache            ChampSim/src/cache.cc and inc/cache.h. `Cache` has the data, `Cache.Fill` handle_fill,
--                    `Cache.Check` try_hit, handle_miss and handle_write, `Cache.Finish` finish_packet,
--                    finish_translation and issue_translation, `Cache.Prefetch` prefetch_line, and
--                    `Cache.Cycle` operate. A cache sends its requests to a Channel and answers on others.
--                    The prefetcher and the replacement policy are a parameter, `Modules`; a hook is a
--                    tree of calls of prefetch_line that goes on by each answer.
--   Spp              ChampSim/prefetcher/spp_dev: a module for each table of the prefetcher, and
--                    `Spp.Operate` for an access with its lookahead.
--   IpStride         ChampSim/prefetcher/ip_stride, over an LruTable, and `offset` of
--                    ChampSim/inc/address.h.
--   VaAmpm           ChampSim/prefetcher/va_ampm_lite, over an LruTable, as a hook of a Cache.
--   Bits             ChampSim/inc/msl/bits.h: lg2, is_power_of_2 and ipow.
--
-- Arrays are functions of their indices. Words keep their wrap-around, written `% 2 ^ w`. Most loops
-- run a number of rounds that the source fixes. The loops of `lg2` and `ipow` have as many rounds as
-- the type has bits, which is enough since each halves the number; `set_union` has one round for each
-- element of its two vectors and one more; the lookahead of Spp has as many as the cache has MSHRs and
-- one more, which is enough since each round that asks for another has advanced the head of the queue.
-- A failed assertion and an exception are values, `none` or `throws`. What the C library's `rand()`
-- returns, the permutation of `std::shuffle` and the numbers of `std::knuth_b` are arguments. An
-- address is the number `to<unsigned long>()` gives.
--
-- Not modelled: the rest of the simulator (core, memory controller, page table walker, the random
-- replacement policy and the other prefetchers), the phases and reports of a cache, the typed
-- addresses, the configuration scripts, printers and trace readers.
pub mod Prelude
pub mod Bimodal
pub mod Bits
pub mod Btb
pub mod Cache
pub mod Channel
pub mod Counter
pub mod FoldedShiftRegister
pub mod Gshare
pub mod HashedPerceptron
pub mod Instruction
pub mod IpStride
pub mod LTage
pub mod LoopPredictor
pub mod LruTable
pub mod Perceptron
pub mod RegisterAllocator
pub mod Replacement
pub mod ReturnStack
pub mod Spp
pub mod Tage
pub mod VaAmpm
pub mod VirtualMemory
