-- ===== src/Validators/Opstack/Laws.antt =====
-- What a validated OpStack block and a validated Ethereum hash stand on.
use malda_lending_fuzz.Prelude.{
  ℕ, ◌≡◌, ◌↔◌, refl, arith, Option, none, some, ◌==◌, ==_refl, if◌then◌else◌, ok, bind_ok, expect,
  expect_ok, expect-eq-ok, expect_ok-eq-ok, payload_not_converted, env_op_input_none, unwrap_none,
}
use malda_lending_fuzz.Bytes.{Address, B256}
use malda_lending_fuzz.Constants.{
  optimism_chain_id, base_chain_id, optimism_sepolia_chain_id, base_sepolia_chain_id,
  ethereum_chain_id, optimism_sequencer, base_sequencer, optimism_sepolia_sequencer,
  base_sepolia_sequencer, l1_block_address_opstack,
}
use malda_lending_fuzz.Externals.{Externals, eth, eth_mainnet_chain_spec}
use malda_lending_fuzz.Types.Contracts.{hash}
use malda_lending_fuzz.Types.Payload.{ExecutionPayload}
use malda_lending_fuzz.Types.Commitment.{SequencerCommitment, verify, try_from}
use malda_lending_fuzz.Cryptography.{signature_msg}
use malda_lending_fuzz.Validators.Opstack.{
  verify_for_chain, validate_opstack_env, verify_via_chain,
  get_validated_ethereum_block_hash_via_opstack,
}

-- The sequencer of each OpStack chain.
abbrev pub sequencer_of : ℕ → Option Address
sequencer_of chain_id =
    if chain_id == optimism_chain_id
    then some optimism_sequencer
    else if chain_id == base_chain_id
    then some base_sequencer
    else if chain_id == optimism_sepolia_chain_id
    then some optimism_sepolia_sequencer
    else if chain_id == base_sepolia_chain_id
    then some base_sepolia_sequencer
    else none

module _ (X : Externals) where
  -- The signature of the commitment over its data, for the chain, recovers the signer.
  pub record SignedBy (signer : Address) (chain_id : ℕ) (commitment : SequencerCommitment X)
      : Type 0 where
    pub key : X.PublicKey
    pub recovered :
        X.signature_recover_from_prehash commitment.signature
          (signature_msg X commitment.bytes chain_id)
        ≡ ok key
    pub address : signer ≡ X.address_from_public_key key

  -- `verify` accepts a commitment exactly for the signer that its signature recovers, over its data
  -- and the given chain identifier.
  pub verify_iff :
      (commitment : SequencerCommitment X) (signer : Address) (chain_id : ℕ)
      → (verify X commitment signer chain_id ≡ ok tt) ↔ SignedBy signer chain_id commitment
  unfolding verify
  verify_iff commitment signer chain_id = (
    λ h.
        bind_ok
          (X.signature_recover_from_prehash commitment.signature
            (signature_msg X commitment.bytes chain_id))
          _ h
          λ key recovered rest. record { key = key; recovered = recovered; address = ground arith },
    λ s. rw s.recovered (ground (arith, s.address)),
  )

  -- What an accepted commitment is: signed by the chain's sequencer for that chain, and carrying a
  -- payload for the block hash.
  pub record Commits (chain_id : ℕ) (commitment : SequencerCommitment X) (block_hash : B256)
      : Type 0 where
    pub sequencer : Address
    pub known : sequencer_of chain_id ≡ some sequencer
    pub signed : SignedBy sequencer chain_id commitment
    pub payload : ExecutionPayload
    pub decoded : try_from X commitment ≡ ok (ok payload)
    pub same_hash : payload.block_hash ≡ block_hash

  verify_for_chain_sound :
      (chain_id : ℕ) (commitment : SequencerCommitment X)
      → verify_for_chain X chain_id commitment ≡ ok tt
      → (sequencer : Address) × (sequencer_of chain_id ≡ some sequencer)
        × (verify X commitment sequencer chain_id ≡ ok tt)
  unfolding verify_for_chain
  verify_for_chain_sound chain_id commitment h = (
    elim (sequencer_of chain_id) [ none ↦ 0 | some sequencer ↦ sequencer ],
    ground arith,
    ground arith,
  )

  verify_for_chain_complete :
      (chain_id : ℕ) (commitment : SequencerCommitment X) (sequencer : Address)
      → sequencer_of chain_id ≡ some sequencer
      → verify X commitment sequencer chain_id ≡ ok tt
      → verify_for_chain X chain_id commitment ≡ ok tt
  unfolding verify_for_chain
  verify_for_chain_complete chain_id commitment sequencer h k = ground arith

  -- `validate_opstack_env` accepts exactly the commitments that the sequencer of an OpStack chain
  -- signed for that chain, and whose payload decodes and has the given block hash.
  pub validate_opstack_env_iff :
      (chain_id : ℕ) (commitment : SequencerCommitment X) (env_block_hash : B256)
      → (validate_opstack_env X chain_id commitment env_block_hash ≡ ok tt)
        ↔ Commits chain_id commitment env_block_hash
  unfolding validate_opstack_env
  validate_opstack_env_iff chain_id commitment env_block_hash = (
    λ h. bind_ok (verify_for_chain X chain_id commitment) _ h λ _ accepted h₁.
        bind_ok (try_from X commitment) _ h₁ λ decoded tried h₂.
          bind_ok (expect_ok decoded payload_not_converted) _ h₂ λ payload converted h₃.
            let (sequencer, known, verified) =
              verify_for_chain_sound chain_id commitment accepted in
            record {
              sequencer = sequencer;
              known = known;
              signed = (verify_iff commitment sequencer chain_id).0 verified;
              payload = payload;
              decoded = rw (expect_ok-eq-ok decoded payload_not_converted converted) at tried;
              same_hash = ground arith;
            },
    λ c.
        rw
          (
            verify_for_chain_complete chain_id commitment c.sequencer c.known
                ((verify_iff commitment c.sequencer chain_id).1 c.signed),
            c.decoded,
            c.same_hash,
            ==_refl,
          )
          refl,
  )

  -- Where the hash of an Ethereum block comes from.
  pub record VouchedBy (commitment_1 : Option (SequencerCommitment X))
      (input_1 : Option (X.EvmInput eth)) (chain_id : ℕ) (ethereum_hash : B256) : Type 0 where
    pub commitment : SequencerCommitment X
    pub commitment_given : commitment_1 ≡ some commitment
    pub input : X.EvmInput eth
    pub input_given : input_1 ≡ some input
    pub env : X.EvmEnv eth
    pub env_built : X.into_env eth input eth_mainnet_chain_spec ≡ ok env
    pub commits :
        Commits
          (if chain_id == ethereum_chain_id then optimism_chain_id else optimism_sepolia_chain_id)
          commitment
          (X.digest (X.env_commitment eth env))
    pub hash_read : X.call eth env l1_block_address_opstack hash ≡ ok ethereum_hash

  -- The Ethereum hash is returned exactly where the first input builds an environment whose block
  -- the first commitment, signed by the Optimism sequencer (Optimism Sepolia's where the chain is
  -- not Ethereum mainnet), stands for, and the L1Block contract gives the hash there. Whatever the
  -- second commitment and the second input are.
  pub via_opstack_iff :
      (commitment_1 : Option (SequencerCommitment X)) (input_1 : Option (X.EvmInput eth))
      (chain_id : ℕ) (commitment_2 : Option (SequencerCommitment X))
      (input_2 : Option (X.EvmInput eth)) (ethereum_hash : B256)
      → (get_validated_ethereum_block_hash_via_opstack X commitment_1 input_1 chain_id commitment_2
            input_2
          ≡ ok ethereum_hash)
        ↔ VouchedBy commitment_1 input_1 chain_id ethereum_hash
  unfolding get_validated_ethereum_block_hash_via_opstack verify_via_chain
  via_opstack_iff commitment_1 input_1 chain_id commitment_2 input_2 ethereum_hash = (
    λ h. bind_ok (expect input_1 env_op_input_none) _ h λ input given₁ h₁.
        bind_ok (X.into_env eth input eth_mainnet_chain_spec) _ h₁ λ env built h₂.
          bind_ok (expect commitment_1 unwrap_none) _ h₂ λ commitment given₂ h₃.
            bind_ok
              (validate_opstack_env X (verify_via_chain chain_id) commitment
                (X.digest (X.env_commitment eth env)))
              _ h₃
              λ _ accepted h₄. record {
                commitment = commitment;
                commitment_given = expect-eq-ok commitment_1 unwrap_none given₂;
                input = input;
                input_given = expect-eq-ok input_1 env_op_input_none given₁;
                env = env;
                env_built = built;
                commits = (validate_opstack_env_iff _ commitment _).0 accepted;
                hash_read = h₄;
              },
    λ v.
        rw
          (
            v.input_given,
            v.env_built,
            v.commitment_given,
            (validate_opstack_env_iff _ v.commitment _).1 v.commits,
          )
          v.hash_read,
  )
