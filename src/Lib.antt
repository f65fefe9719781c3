-- ===== src/Lib.antt =====
-- The Malda coprocessor: a zero-knowledge guest that reads users' proof data from the state of
-- Ethereum, Optimism, Base and Linea, and the host that prepares its input. The guest
-- checks the blocks that it is given against a sequencer's signature, a dispute game or an Ethereum
-- hash, and that enough blocks follow; the contracts decode the journal that it commits to.
--
-- The parts, and the files that model them:
--   crates/malda_utils/src/constants.rs           Constants
--   crates/malda_utils/src/types.rs               Types/Contracts (the sol! interfaces, a
--       constructor of `Call` for each view function), Types/Abi (SolidityDataType, pack,
--       encode_packed), Types/Payload, Types/Commitment (SequencerCommitment)
--   crates/malda_utils/src/cryptography.rs        Cryptography
--   crates/malda_utils/src/validators.rs          Validators: ChainLength (validate_chain_length),
--       Opstack (validate_opstack_env, get_validated_ethereum_block_hash_via_opstack), DisputeGame,
--       Linea, BlockHash (get_validated_block_hash and its two branches), Params
--       (sort_and_verify_relevant_params), Batch (batch_call_get_proof_data), ProofCall
--       (validate_get_proof_data_call, which composes the others)
--   crates/guest/src/get_proof_data.rs            Guest (main)
--   contracts/src/libraries/mTokenProofDecoderLib.sol and BytesLib.sol
--                                                 Journal (decodeJournal)
--   crates/malda_rs/src/viewcalls.rs and constants.rs
--                                                 Host: Chains (the tables over chain identifiers),
--       Network (environment variables, RPC endpoints), Sequencer, L1Block, LinkingBlocks,
--       DisputeGame, L1Inclusion, CallInput, ZkvmInput (one chain's input, which composes the
--       others), Session (several chains), Bonsai and Boundless (the proving services)
--   crates/fuzz/src                               Fuzz: Commitment, Collision, LineaHeader (the
--       four targets)
--   crates/poc/src/main.rs                        Poc (the five end-to-end runs)
--   contracts/src/mToken/extension/mTokenGateway.sol
--                                                 Contracts: Gateway (the storage and the functions
--       but outHere), OutHere, Calls (calls in any order)
--   the unit tests of validators.rs, cryptography.rs, types.rs and viewcalls.rs
--                                                 UnitTests: ChainLength, Signatures, Packing,
--       Requests
--   Prelude holds what the others share, Bytes the fixed-width encodings and machine arithmetic,
--   Tests the runs at concrete inputs. A file below a part's file proves what it is named for.
--
-- How the code is modelled. A function that can panic returns an `Outcome`, whose error is a
-- `Panic` for each message, `expect` or `unwrap`; a `Result` that the code returns is a `Result`.
-- `&mut output` is passed and returned. An address, a 32-byte word and a U256 are natural numbers,
-- with their bounds as hypotheses where a theorem needs them; a byte string is a list of numbers.
-- Subtraction and addition on u64 and usize panic with overflow checks and wrap without, by the
-- build profile that `Externals` holds. `println!` and tracing are left out. Loops are recursions on
-- their lists, except the polling of Bonsai, which runs on fuel: a number of polls within which each
-- phase answers with an error or with any status but that it runs is enough.
--
-- Parameters. `Externals` holds the libraries: keccak256, k256 and alloy's signatures, snap, SSZ,
-- ABI decoding, and the Steel environments, whose `into_env` and calls are functions of the input.
-- `IsLawful` states what a theorem needs of them: a signature keeps its parts, k256 has the recovery
-- identifiers 0 to 3, and U256 subtraction wraps. That keccak256 does not collide is a hypothesis on
-- the inputs concerned, or the collision is part of the conclusion. `Network` holds what the host is
-- answered: a block asked for by its number is the same each time, the latest finalized dispute game may
-- differ between the two places that ask for it. Externals/Sample and Tests/Inputs give both concrete values.
--
-- The fuzz targets take further libraries from `Tools`, with `AreLawful` for what they document, and
-- the runs of the proofs of concept take risc0's decoder, of which they need that it gives back the
-- request that the host has prepared. What Steel documents of an input, that the guest's environment is
-- of the same block and answers the calls of the preflight as they were answered, is a hypothesis on the
-- input concerned.
--
-- The gateway contract runs on an extension chain and pays what an entry of the journal credits. A call
-- that reverts is an error value and leaves the state. `Deployment` holds the token, whose transfers are
-- taken not to call the gateway back, with the changes of its state that do not come from the gateway, and
-- `Context` what one call sees: its sender and value, the answers of the roles, the blacklist and the
-- verifier, and `abi.decode`. Between calls the owner can change, and others can move the token, to the
-- gateway as well. The log keeps the events of the flow of tokens. The unit tests take what they draw at
-- random as arguments; `Mocks` gives the headers that they build, and k256's signing is that of the fuzz
-- targets.
--
-- Not modelled: the soundness of Steel's inputs and of the prover, the integration tests against live
-- networks, and the Solidity contracts but for the gateway and the journal decoder. The five
-- end-to-end runs are proved to pass chain by chain, where the network and the guest's environments
-- answer as they say.
pub mod Prelude
pub mod Constants
pub mod Bytes
pub mod Types
pub mod Externals
pub mod Cryptography
pub mod Validators
pub mod Guest
pub mod Journal
pub mod Host
pub mod Fuzz
pub mod Poc
pub mod Contracts
pub mod UnitTests
mod Tests
