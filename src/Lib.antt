-- ===== src/Lib.antt =====
-- A miner's library: the client of a stratum pool, the conversion of its jobs, the search for a tile
-- whose jackpot is below a bound, and the serializer of the proof.
--
-- How the parts interact. The client (src/stratum.rs) opens a session, numbers its requests, turns
-- notifications into jobs (src/protocol.rs) and hands submissions on. A job and the pool's parameters
-- become an official job with a 256-bit bound (src/stratum_to_official.rs, src/cpu_engine.rs). The
-- engine multiplies noised strips by int8 dot products (src/vnni.rs), folds each tile after every
-- rank-block into a 16-word message, the jackpot (src/pearl_compute.rs, src/cpu_engine.rs,
-- src/official_grind.rs), and a hash of it is compared with the bound. A thread of the engine draws a
-- batch, adds the noise (src/fast_noise.rs), packs the columns, and sweeps all tiles of the batch with
-- the register-blocked kernels where the host has them (src/microkernel.rs, src/cpu_engine.rs). The
-- official search does the same in one attempt after another and returns the proof of the first tile
-- that passes (src/official_grind.rs). With a CUDA device the search is the device's: the host sends it
-- a seed or the noised matrices and reads the hits back (src/gpu_ffi.rs), and packages a hit as a proof
-- from the signal made again or from trees built on the device (src/official_grind.rs).
-- src/mouchard.rs counts what these threads do. The older transcript path builds cells (src/gemm.rs), a
-- Merkle tree over them (src/merkle.rs) and the proof bytes (src/proof.rs).
--
-- The files.
--   Base: numbers, lists, machine words as remainders, bytes, texts, and results that are a value, an
--     error or a panic.
--   Target: Share is share_target_from_difficulty; Scale is scaled_bound_le_from_target_be; Bound is
--     difficulty_bound_from_target_be and share_bound_le; Compare is le_leq and the slice order of the
--     engine's hash test; Nbits is decode_nbits.
--   Cpu, Vnni: the host's features, and dot_i8 with its two vector paths as lists of bytes and lanes.
--   Jackpot: the walk along k that all implementations share, and the message that they are to
--     compute; Pearl is compute_jackpot_pearl, Flat is compute_jackpot_flat with JackpotScratch, Tile
--     is jackpot_tile_flat with its macro and tile_jackpot_flat.
--   Protocol: Job, MiningParams, Job::from_params and Job::from_object.
--   Stratum: Notify is handle_notification, handle_response and share_is_stale; Session is run_session,
--     its local variables as a record and each round of the select loop as a step; Framing is the
--     lines that StratumReader cuts out of WebSocket messages; Reconnect is the outer loop of run.
--   Official: header_from_template, config_from_params, fit_dim and build_official_job.
--   Transcript: gemm.rs, with Tree for merkle.rs and Encode for proof.rs.
--   Grind: Workspace::ensure, bind_root and compute_commitment_hash; Buffers and Roots are their
--     theorems. Partition is threads_partition, Search the panelled loops over tiles, Mine the choice
--     between fast path and fallback on noised matrices, Attempt is try_mine_one_bounded and
--     mine_share, Assemble the siblings of assemble_matrix_proof.
--   Microkernel: the packing of the columns and what the register-blocked kernels share; Tile2 is
--     jackpot_tile_2x64_avx512, Tile8 is both eight-row kernels; Packed puts them on the packing's
--     output; the other children are lemmas on lanes, writes, slots and folds.
--   Noise: add_noise_into_fast, compute_noise_for_indices_fast and their two kernels; Shapes is what
--     the addition keeps of the buffers.
--   Engine: grind_thread, with its tile sweep in Sweep; Attempts, Tested, Hits and Tiles
--     are its theorems.
--   Gpu: the host side of gpu_ffi.rs; Attempts is the attempts on the device and build_proof_from_hit,
--     Shares the loops around them, Configs the tile shapes chosen for the device, Proofs is
--     ProofGpuCtx and the proofs from trees built on the device.
--   Mouchard: the atomic operations of the counters, in any mix of threads.
--   Tests: concrete inputs for the theorems.
--
-- How the code is modelled. A w-bit integer is a natural number below 2^w with the wrap-around written
-- out, a signed one its bit pattern. Vectors and slices are lists. An assignment to a mutable variable
-- is a new state. A panic is a result where the code's behaviour there matters (decode_nbits, the
-- bounds, the root of a tree); a read out of range in the tile loops gives 0 or a shorter slice, and
-- the theorems suppose the shapes that the source asserts. The stop flag of a thread is a
-- function from the number of the read to what it finds; a random draw is an argument.
--
-- Fuel. The walk over the blocks has k + 1 rounds, more than k / r; the loops of the dot product have
-- as many as there are elements, those of the noise as many as there are bytes and those of the sweep
-- as many as there are row groups; the tree has one more than there are leaves. The panels of the
-- official search and the loops in them have as many as there are row tiles, the walk over siblings as
-- many as there are leaves. The theorems show that this is enough: they give the result, not only what
-- it would be.
--
-- Parameters. serde_json, hex, primitive_types, zk_pow and blake3 are arguments, with their documented
-- behaviour as named hypotheses where a theorem relies on it (IsWide for the 256-bit integers, the
-- shapes of what the noise generators return, IsTiling for a pattern that covers its dimension). The
-- foreign functions of the CUDA libraries are arguments with no hypothesis, but for the trees built
-- once for several hits, where each function is supposed to do on a matrix what the device documents of
-- it (Serves); which matrix is resident in which context is explicit state. The panel sizes that the environment sets are arguments.
--
-- Not modelled: the sockets, logs, the random source, src/official_proof.rs, the creation and timing of
-- device contexts, the averages and the sampler of src/mouchard.rs, the CUDA sources and the binaries.
-- The first are input and output or randomness, the last are foreign code or programs around the
-- library. What a kernel leaves in the tile buffer is not handed on, since each kernel zeroes what it
-- reads. A copy out of range panics in the source where the model extends the buffer; the theorems
-- suppose buffers with room, which Workspace::ensure gives.
pub mod Base
pub mod Target
pub mod Cpu
pub mod Vnni
pub mod Jackpot
pub mod Protocol
pub mod Stratum
pub mod Official
pub mod Transcript
pub mod Grind
pub mod Microkernel
pub mod Noise
pub mod Engine
pub mod Gpu
pub mod Mouchard
pub mod Tests
