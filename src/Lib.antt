-- ===== src/Lib.antt =====
-- The Open Network X is a sharded blockchain in Rust. This library models the protocol crates under
-- crates/protocol, and the transfer of large payloads of crates/node/onx-networking, as functions on
-- explicit states, and proves what makes them correct.
--
-- The parts and how they interact. A shard keeps its accounts in a state of cells and executes
-- messages; a message from one shard to another waits in the output queue of its source, is admitted
-- and is marked as processed at its destination. A validator group that an election has chosen decides
-- on each block of a shard with the consensus engine, and is paid and slashed by the economics rules. The
-- shard tree is split and merged by schedule as the load changes. Two parties can move value off the
-- chain with a payment channel, whose arbiter settles the last state that both have signed.
--
-- Which file models which part (a Rust function keeps its name unless noted):
--   Prelude            what the modules share: Boolean tests on the native numbers, lists, results,
--                      orders, big-endian bytes, sorting, integers; Prelude/BTreeMap is the ordered map
--                      of the Rust standard library as an ascending list of entries
--   Primitives         onx-primitives. Uint.encode, read, decode_exact take the width in bytes, as Sint's
--                      do; FixedBytes are Uint256 and Uint512; BoundedBytes; Hash (domain tags and
--                      domain_hash); Signature (PublicKey::verify is verify)
--   DataStructures     onx-data-structures: Address, Shard (ShardIdent), Message, Block (BlockHeader);
--                      Cursor is the slice arithmetic that the decoders write out
--   Consensus          onx-consensus: Engine (ConsensusEngine: new, receive_proposal, receive_vote,
--                      on_timeout, with ValidatorSet and the quorum), Election (run_election), Stake (the
--                      functions of lib.rs)
--   Economics          onx-economics: Fees (lib.rs), Slashing and Rewards (slashing.rs)
--   Transactions       onx-transactions: OutputQueue, Processed (ProcessedMessageTracker), Admission,
--                      Router (plan_hypercube_route, validate_hypercube_route); a hop's from and to are
--                      source and target
--   Channels           onx-payment-channels: State (ChannelState), Arbiter (PaymentChannelArbiter),
--
--                      Merkle (verify_merkle_proof, on the interpreter of Execution), Daemon
--                      (PaymentChannelDaemon)
--   StateModel         onx-state-model: Cell (hash and codec), Account (AccountState)
--   Execution          onx-execution: Dictionary, the Patricia tree. get on a node is get, get of the
--                      dictionary is lookup_key, insert and remove of a node are insert_node, remove_node.
--                      Types (types.rs, continuation.rs), Machine (the state of the Interpreter and the calls
--                      that its instructions share), Instructions (the arms of the match of step, by the
--                      families of the source: Stack, Arithmetic, Bytes, Cells, Hashes, Control), Interpreter
--                      (step and run)
--   Blocks             onx-blocks: Flags, Validity (validate_block_successor), Masterchain
--                      with Codec (entry_ and extra_ are the to_bytes and from_bytes of its two structs), Sync
--                      (BlockSyncEngine is the map of its blocks; header is header_of)
--   Sharding           onx-sharding: Tree (ShardTreeNode) and Schedule (validate_transition_commit and
--                      the load triggers); Migration (ShardState, split_shard_state, merge_shard_states),
--                      where a state is divided and put together again
--   Networking         onx-networking: Error (NetworkError), Rldp (rldp.rs: Frame, Sender, Receiver; Loop and
--                      Transfer are about both). encode and decode of a frame are frame_encode,
--                      frame_decode, ack_encode, ack_decode; RldpSender::new is sender_new
--
-- State and errors. A method on `&mut self` takes the state and returns the next one, in a result where
-- it can fail; where a failing call leaves the state changed, the model returns the state beside the
-- result (Dictionary set and delete, the flow of the daemon, every instruction of the interpreter).
-- Errors are the constructors of the Rust enums. Runs are lists of calls, in any order: Engine runs of proposals, votes and clock ticks, queue
-- runs of enqueues and deliveries, channel runs of settlements, disputes and finalizations, and index
-- runs of trusted anchors and batches of headers. The network of a transfer is the list of the packets that
-- come in, so that what is lost, repeated or reordered is another list.
--
-- Numbers. A u16, u32, u64 or u128 is a natural number with its bound written where a function relies
-- on it. Checked and saturating operations are tested as in the source. A plain product or sum that can
-- pass the width keeps the remainder, as a build without overflow checks does, and so does a cast to a
-- narrower type. The interpreter computes on i128 as integers of Prelude/Int; a division that overflows and a
-- slice out of range panic, which is an outcome of its own.
--
-- Recursion and fuel. All loops are structural recursion. Four take a number of rounds:
-- trailing_zeros looks at 64 bits, the width of its argument; label_tail of the dictionary has a
-- round for each bit that is left and takes up to a thousand bits in each; draining a queue takes the
-- number of messages asked for; run of the interpreter has a round for each step, and twice the gas limit and
-- one are enough where no exception handler is set, as in verify_merkle_proof.
--
-- Parameters. SHA-256 and Ed25519 are not in the repository: the record Crypto of Primitives/Hash holds
-- the hash and the two checks of a key and a signature as functions, about which nothing is assumed: no
-- theorem needs that the hash is free of collisions or that signatures cannot be forged.
--
-- Not modelled: the bag of cells, the state tree and the storage files of onx-state-model. The other crates
-- of the node (the ADNL transport, the DHT, RPC, telemetry, the process), the tools and the contracts'
-- images are input and output around calls of the protocol crates. The text of errors,
-- the derived traits and serialization by serde are left out.
pub mod Prelude
pub mod Primitives
pub mod DataStructures
pub mod Consensus
pub mod Economics
pub mod Transactions
pub mod Channels
pub mod Blocks
pub mod StateModel
pub mod Execution
pub mod Sharding
pub mod Networking
