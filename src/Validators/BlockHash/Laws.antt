-- ===== src/Validators/BlockHash/Laws.antt =====
-- What a validated block hash stands on, for each kind of chain.
use malda_lending_fuzz.Prelude.{
  ℕ, ◌≡◌, ◌↔◌, refl, ap, ◌∙◌, arith, Bool, true, false, Option, some, ◌==◌, ==_refl, ok, bind_ok,
  assert_ok, expect, expect-eq-ok, unwrap_none, hash_mismatch_opstack,
}
use malda_lending_fuzz.Bytes.{B256}
use malda_lending_fuzz.Externals.{Externals, eth, eth_mainnet_chain_spec}
use malda_lending_fuzz.Types.Commitment.{SequencerCommitment}
use malda_lending_fuzz.Validators.Opstack.{get_validated_ethereum_block_hash_via_opstack}
use malda_lending_fuzz.Validators.Opstack.Laws.{
  Commits, VouchedBy, validate_opstack_env_iff, via_opstack_iff,
}
use malda_lending_fuzz.Validators.DisputeGame.Sound.{Answers, dispute_game_iff}
use malda_lending_fuzz.Validators.BlockHash.{
  ethereum_of_opstack, opstack_l1_inclusion, opstack_commitment, get_validated_block_hash_opstack,
}

module _ (X : Externals) (chain_id : ℕ) (commitment_1 : Option (SequencerCommitment X))
    (l1_block_call_1 : Option (X.EvmInput eth)) (eth_for_l1_inclusion : Option (X.EvmInput eth))
    (header : X.Header) where
  -- L1 inclusion of an OpStack state: Ethereum's hash, vouched for by Optimism's sequencer, is the
  -- validated hash, and a dispute game on Ethereum carries the committed root.
  pub record Finalized (op_env_commitment : Option X.Commitment) : Type 0 where
    pub ethereum_chain : ℕ
    pub ethereum_known : ethereum_of_opstack chain_id ≡ ok ethereum_chain
    pub vouched : VouchedBy X commitment_1 l1_block_call_1 ethereum_chain (X.hash_slow header)
    pub eth_input : X.EvmInput eth
    pub eth_given : eth_for_l1_inclusion ≡ some eth_input
    pub eth_env : X.EvmEnv eth
    pub eth_built : X.into_env eth eth_input eth_mainnet_chain_spec ≡ ok eth_env
    pub op_commitment : X.Commitment
    pub op_given : op_env_commitment ≡ some op_commitment
    pub game : Answers X chain_id eth_env op_commitment

  -- What stands behind an OpStack hash, with and without L1 inclusion.
  abbrev pub OpstackProof : Bool → Option X.Commitment → Type 0
  OpstackProof true op_env_commitment = Finalized op_env_commitment
  OpstackProof false op_env_commitment =
      (commitment : SequencerCommitment X) × (commitment_1 ≡ some commitment)
      × Commits X chain_id commitment (X.hash_slow header)

  module _ (op_env_commitment : Option X.Commitment) (commitment_2 : Option (SequencerCommitment X))
      (l1_block_call_2 : Option (X.EvmInput eth)) where
    opstack_l1_inclusion_sound :
        opstack_l1_inclusion X chain_id commitment_1 l1_block_call_1 eth_for_l1_inclusion
            (X.hash_slow header)
            op_env_commitment
            commitment_2
            l1_block_call_2
          ≡ ok tt
        → Finalized op_env_commitment
    unfolding opstack_l1_inclusion
    opstack_l1_inclusion_sound h =
        bind_ok (ethereum_of_opstack chain_id) _ h λ ethereum_chain known h₁.
          bind_ok
            (get_validated_ethereum_block_hash_via_opstack X commitment_1 l1_block_call_1
              ethereum_chain commitment_2 l1_block_call_2)
            _ h₁
            λ ethereum_hash vouched h₂.
              assert_ok (ethereum_hash == X.hash_slow header) hash_mismatch_opstack _ h₂ λ same h₃.
                bind_ok (expect eth_for_l1_inclusion unwrap_none) _ h₃ λ eth_input given₁ h₄.
                  bind_ok (X.into_env eth eth_input eth_mainnet_chain_spec) _ h₄ λ eth_env built h₅.
                    bind_ok (expect op_env_commitment unwrap_none) _ h₅ λ op_commitment given₂ h₆.
                      let equal : ethereum_hash ≡ X.hash_slow header = ground arith in
                      record {
                        ethereum_chain = ethereum_chain;
                        ethereum_known = known;
                        vouched =
                            (via_opstack_iff X commitment_1 l1_block_call_1 ethereum_chain
                                commitment_2 l1_block_call_2 (X.hash_slow header)).0
                              (vouched ∙ ap ok equal);
                        eth_input = eth_input;
                        eth_given = expect-eq-ok eth_for_l1_inclusion unwrap_none given₁;
                        eth_env = eth_env;
                        eth_built = built;
                        op_commitment = op_commitment;
                        op_given = expect-eq-ok op_env_commitment unwrap_none given₂;
                        game = (dispute_game_iff X chain_id eth_env op_commitment).0 h₆;
                      }

    opstack_l1_inclusion_complete :
        Finalized op_env_commitment
        → opstack_l1_inclusion X chain_id commitment_1 l1_block_call_1 eth_for_l1_inclusion
            (X.hash_slow header)
            op_env_commitment
            commitment_2
            l1_block_call_2
          ≡ ok tt
    unfolding opstack_l1_inclusion
    opstack_l1_inclusion_complete f =
        rw
          (
            f.ethereum_known,
            (via_opstack_iff X commitment_1 l1_block_call_1 f.ethereum_chain commitment_2
                  l1_block_call_2 (X.hash_slow header)).1
                f.vouched,
            ==_refl,
            f.eth_given,
            f.eth_built,
            f.op_given,
          )
          ((dispute_game_iff X chain_id f.eth_env f.op_commitment).1 f.game)

    -- On an OpStack chain the validated hash is that of the block header, and it is returned exactly
    -- where the sequencer has committed to it, or with L1 inclusion where Ethereum's hash is the same
    -- and a dispute game has settled the root. The second commitment and input play no part.
    pub get_validated_block_hash_opstack_iff :
        (validate_l1_inclusion : Bool) (hash : B256)
        → (get_validated_block_hash_opstack X chain_id commitment_1 l1_block_call_1
              eth_for_l1_inclusion header validate_l1_inclusion op_env_commitment commitment_2
              l1_block_call_2
            ≡ ok hash)
          ↔ (OpstackProof validate_l1_inclusion op_env_commitment × (X.hash_slow header ≡ hash))
    unfolding get_validated_block_hash_opstack
    get_validated_block_hash_opstack_iff true hash = (
      λ h.
          bind_ok
            (opstack_l1_inclusion X chain_id commitment_1 l1_block_call_1 eth_for_l1_inclusion
              (X.hash_slow header) op_env_commitment commitment_2 l1_block_call_2)
            _ h λ _ included rest. (opstack_l1_inclusion_sound included, cc),
      λ (f, e). rw (opstack_l1_inclusion_complete f, e) refl,
    )
    get_validated_block_hash_opstack_iff false hash = (
      λ h. bind_ok (opstack_commitment X chain_id commitment_1 (X.hash_slow header)) _ h λ _ c rest.
          bind_ok (expect commitment_1 unwrap_none) _ c λ commitment given accepted. (
            (
              commitment,
              expect-eq-ok commitment_1 unwrap_none given,
              (validate_opstack_env_iff X chain_id commitment (X.hash_slow header)).0 accepted,
            ),
            cc,
          ),
      λ ((commitment, given, c), e).
          rw (given, (validate_opstack_env_iff X chain_id commitment (X.hash_slow header)).1 c, e)
            refl,
    )
