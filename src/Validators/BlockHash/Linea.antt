-- ===== src/Validators/BlockHash/Linea.antt =====
-- What a validated Linea hash stands on, and which chains have a validated hash at all.
use malda_lending_fuzz.Prelude.{
  ℕ, ◌≡◌, ◌↔◌, refl, Bool, true, false, Option, some, ok, bind_ok, expect, expect-eq-ok,
  unwrap_none, ◌<◌, ◌^◌,
}
use malda_lending_fuzz.Bytes.{B256}
use malda_lending_fuzz.Externals.{Externals, eth}
use malda_lending_fuzz.Types.Commitment.{SequencerCommitment}
use malda_lending_fuzz.Validators.Opstack.{get_validated_ethereum_block_hash_via_opstack}
use malda_lending_fuzz.Validators.Opstack.Laws.{VouchedBy, via_opstack_iff}
use malda_lending_fuzz.Validators.Linea.{validate_linea_env, validate_linea_env_with_l1_inclusion}
use malda_lending_fuzz.Validators.Linea.Laws.{Sealed, validate_linea_env_iff}
use malda_lending_fuzz.Validators.BlockHash.{
  ethereum_of_linea, linea_l1_inclusion, get_validated_block_hash_linea,
}

module _ (X : Externals) (chain_id : ℕ) (env_header : X.Header)
    (commitment_1 : Option (SequencerCommitment X)) (l1_block_call_1 : Option (X.EvmInput eth))
    (eth_for_l1_inclusion : Option (X.EvmInput eth)) (header : X.Header) where
  -- L1 inclusion of a Linea block number: the Ethereum hash is vouched for by Optimism's sequencer,
  -- and the check of the number passes there.
  pub record NumberPosted : Type 0 where
    pub ethereum_chain : ℕ
    pub ethereum_known : ethereum_of_linea chain_id ≡ ok ethereum_chain
    pub ethereum_hash : B256
    pub vouched : VouchedBy X commitment_1 l1_block_call_1 ethereum_chain ethereum_hash
    pub eth_input : X.EvmInput eth
    pub eth_given : eth_for_l1_inclusion ≡ some eth_input
    pub number_posted :
        validate_linea_env_with_l1_inclusion X chain_id
          (X.number env_header)
          eth_input
          ethereum_hash
        ≡ ok tt

  abbrev pub LineaInclusion : Bool → Type 0
  LineaInclusion true = NumberPosted
  LineaInclusion false = Unit {0}

  module _ (op_env_commitment : Option X.Commitment) (commitment_2 : Option (SequencerCommitment X))
      (l1_block_call_2 : Option (X.EvmInput eth)) where
    linea_l1_inclusion_iff :
        (linea_l1_inclusion X chain_id env_header commitment_1 l1_block_call_1 eth_for_l1_inclusion
            commitment_2 l1_block_call_2
          ≡ ok tt)
        ↔ NumberPosted
    unfolding linea_l1_inclusion
    linea_l1_inclusion_iff = (
      λ h. bind_ok (ethereum_of_linea chain_id) _ h λ ethereum_chain known h₁.
          bind_ok
            (get_validated_ethereum_block_hash_via_opstack X commitment_1 l1_block_call_1
              ethereum_chain commitment_2 l1_block_call_2)
            _ h₁
            λ ethereum_hash vouched h₂.
              bind_ok (expect eth_for_l1_inclusion unwrap_none) _ h₂ λ eth_input given posted.
                record {
                  ethereum_chain = ethereum_chain;
                  ethereum_known = known;
                  ethereum_hash = ethereum_hash;
                  vouched =
                      (via_opstack_iff X commitment_1 l1_block_call_1 ethereum_chain commitment_2
                          l1_block_call_2 ethereum_hash).0
                        vouched;
                  eth_input = eth_input;
                  eth_given = expect-eq-ok eth_for_l1_inclusion unwrap_none given;
                  number_posted = posted;
                },
      λ p.
          rw
            (
              p.ethereum_known,
              (via_opstack_iff X commitment_1 l1_block_call_1 p.ethereum_chain commitment_2
                    l1_block_call_2 p.ethereum_hash).1
                  p.vouched,
              p.eth_given,
            )
            p.number_posted,
    )

    -- On a Linea chain (with a `usize` that holds 65) the validated hash is that of the block header,
    -- and it is returned exactly where the Linea sequencer has sealed that header, and with L1
    -- inclusion the number of the environment's header is posted on Ethereum.
    pub get_validated_block_hash_linea_iff :
        (validate_l1_inclusion : Bool) (hash : B256)
        → 65 < 2 ^ X.usize_bits
        → (get_validated_block_hash_linea X chain_id env_header commitment_1 l1_block_call_1
              eth_for_l1_inclusion header validate_l1_inclusion commitment_2 l1_block_call_2
            ≡ ok hash)
          ↔ (LineaInclusion validate_l1_inclusion
              × Sealed X chain_id header
              × (X.hash_slow header ≡ hash))
    unfolding get_validated_block_hash_linea
    get_validated_block_hash_linea_iff true hash wide = (
      λ h.
          bind_ok
            (linea_l1_inclusion X chain_id env_header commitment_1 l1_block_call_1
              eth_for_l1_inclusion commitment_2 l1_block_call_2)
            _ h
            λ _ included h₁. bind_ok (validate_linea_env X chain_id header) _ h₁ λ _ sealed rest. (
              linea_l1_inclusion_iff.0 included,
              (validate_linea_env_iff X chain_id header wide).0 sealed,
              cc,
            ),
      λ (posted, sealed, e).
          rw
            (
              linea_l1_inclusion_iff.1 posted,
              (validate_linea_env_iff X chain_id header wide).1 sealed,
              e,
            )
            refl,
    )
    get_validated_block_hash_linea_iff false hash wide = (
      λ h.
          bind_ok (validate_linea_env X chain_id header) _ h
            λ _ sealed rest. (tt, (validate_linea_env_iff X chain_id header wide).0 sealed, cc),
      λ (_, sealed, e). rw ((validate_linea_env_iff X chain_id header wide).1 sealed, e) refl,
    )
