-- ===== src/Validators/ProofCall/Sound.antt =====
-- What an accepted request has shown, from the state that is read to the hash that is trusted.
use malda_lending_fuzz.Prelude.{
  ◌<◌, ◌^◌, ◌≡◌, ◌↔◌, arith, true, false, ◌||◌, List, ◌==◌, Outcome, ok, bind_ok, if_ok,
}
use malda_lending_fuzz.Bytes.{Bytes, B256}
use malda_lending_fuzz.Constants.{
  optimism_chain_id, base_chain_id, linea_chain_id, ethereum_chain_id, optimism_sepolia_chain_id,
  base_sepolia_chain_id, linea_sepolia_chain_id, ethereum_sepolia_chain_id,
}
use malda_lending_fuzz.Externals.{Externals}
use malda_lending_fuzz.Validators.ChainLength.{validate_chain_length}
use malda_lending_fuzz.Validators.ChainLength.Linked.{
  Linked, IsProtected, validate_chain_length_iff,
}
use malda_lending_fuzz.Validators.Opstack.Laws.{VouchedBy, via_opstack_iff}
use malda_lending_fuzz.Validators.Linea.Laws.{Sealed}
use malda_lending_fuzz.Validators.BlockHash.{get_validated_block_hash}
use malda_lending_fuzz.Validators.BlockHash.Laws.{
  OpstackProof, get_validated_block_hash_opstack_iff,
}
use malda_lending_fuzz.Validators.BlockHash.Linea.{
  LineaInclusion, get_validated_block_hash_linea_iff,
}
use malda_lending_fuzz.Validators.Params.{RelevantParams, sort_and_verify_relevant_params}
use malda_lending_fuzz.Validators.ProofCall.{Request, batch_call, validate_get_proof_data_call}

module _ (X : Externals) (r : Request X) (p : RelevantParams X) where
  -- What the validated hash of a request stands on: a header that the Linea sequencer has sealed; a
  -- header that the OpStack sequencer has committed to, or a dispute game; or an Ethereum hash that
  -- Optimism vouches for.
  pub data Authentic (hash : B256) : Type 0 where
    by_linea :
        (r.chain_id == linea_chain_id || r.chain_id == linea_sepolia_chain_id) ≡ true
        → LineaInclusion X r.chain_id p.env_header_to_validate r.sequencer_commitment r.env_op_input
            r.env_eth_input p.block_header_to_validate p.validate_l1_inclusion
        → Sealed X r.chain_id p.block_header_to_validate
        → X.hash_slow p.block_header_to_validate ≡ hash
        → Authentic hash
    by_opstack :
        (r.chain_id == optimism_chain_id
            || r.chain_id == base_chain_id
            || r.chain_id == base_sepolia_chain_id
            || r.chain_id == optimism_sepolia_chain_id)
          ≡ true
        → OpstackProof X r.chain_id r.sequencer_commitment r.env_op_input r.env_eth_input
            p.block_header_to_validate p.validate_l1_inclusion p.op_env_commitment
        → X.hash_slow p.block_header_to_validate ≡ hash
        → Authentic hash
    by_l1_block :
        (r.chain_id == ethereum_chain_id || r.chain_id == ethereum_sepolia_chain_id) ≡ true
        → VouchedBy X r.sequencer_commitment r.env_op_input r.chain_id hash
        → Authentic hash

  abbrev validated : Outcome B256
  validated =
      get_validated_block_hash X r.chain_id p.env_header_to_validate r.sequencer_commitment
        r.env_op_input r.env_eth_input p.block_header_to_validate p.validate_l1_inclusion
        p.op_env_commitment r.sequencer_commitment_opstack_2 r.env_op_input_2

  get_validated_block_hash_sound :
      (hash : B256) → 65 < 2 ^ X.usize_bits → validated ≡ ok hash → Authentic hash
  unfolding get_validated_block_hash
  get_validated_block_hash_sound hash wide h =
      if_ok (r.chain_id == linea_chain_id || r.chain_id == linea_sepolia_chain_id) _ _ h
        (λ linea h₁.
          let (inclusion, sealed, e) =
            (get_validated_block_hash_linea_iff X r.chain_id p.env_header_to_validate
                r.sequencer_commitment r.env_op_input r.env_eth_input p.block_header_to_validate
                p.op_env_commitment r.sequencer_commitment_opstack_2 r.env_op_input_2
                p.validate_l1_inclusion hash wide).0
              h₁ in
          by_linea linea inclusion sealed e)
        (λ _ h₁.
          if_ok
            (r.chain_id == optimism_chain_id
              || r.chain_id == base_chain_id
              || r.chain_id == base_sepolia_chain_id
              || r.chain_id == optimism_sepolia_chain_id)
            _ _ h₁
            (λ opstack h₂.
              let (proof, e) =
                (get_validated_block_hash_opstack_iff X r.chain_id r.sequencer_commitment
                    r.env_op_input r.env_eth_input p.block_header_to_validate p.op_env_commitment
                    r.sequencer_commitment_opstack_2 r.env_op_input_2 p.validate_l1_inclusion
                    hash).0
                  h₂ in
              by_opstack opstack proof e)
            (λ _ h₂.
              if_ok (r.chain_id == ethereum_chain_id || r.chain_id == ethereum_sepolia_chain_id) _ _
                h₂
                (λ ethereum h₃. by_l1_block ethereum (
                  (via_opstack_iff X r.sequencer_commitment r.env_op_input r.chain_id
                      r.sequencer_commitment_opstack_2 r.env_op_input_2 hash).0
                    h₃))
                (λ _ h₃. absurd (cc))))

  not_linea_by_opstack :
      (r.chain_id == optimism_chain_id
          || r.chain_id == base_chain_id
          || r.chain_id == base_sepolia_chain_id
          || r.chain_id == optimism_sepolia_chain_id)
        ≡ true
      → (r.chain_id == linea_chain_id || r.chain_id == linea_sepolia_chain_id) ≡ false
  not_linea_by_opstack opstack = ground arith

  not_l2_by_ethereum :
      (r.chain_id == ethereum_chain_id || r.chain_id == ethereum_sepolia_chain_id) ≡ true
      → ((r.chain_id == linea_chain_id || r.chain_id == linea_sepolia_chain_id) ≡ false)
        × ((r.chain_id == optimism_chain_id
              || r.chain_id == base_chain_id
              || r.chain_id == base_sepolia_chain_id
              || r.chain_id == optimism_sepolia_chain_id)
            ≡ false)
  not_l2_by_ethereum ethereum = ground arith

  get_validated_block_hash_complete :
      (hash : B256) → 65 < 2 ^ X.usize_bits → Authentic hash → validated ≡ ok hash
  unfolding get_validated_block_hash
  get_validated_block_hash_complete hash wide (by_linea linea inclusion sealed e) = rw linea (
      (get_validated_block_hash_linea_iff X r.chain_id p.env_header_to_validate
          r.sequencer_commitment r.env_op_input r.env_eth_input p.block_header_to_validate
          p.op_env_commitment r.sequencer_commitment_opstack_2 r.env_op_input_2
          p.validate_l1_inclusion hash wide).1
        (inclusion, sealed, e))
  get_validated_block_hash_complete hash wide (by_opstack opstack proof e) =
      rw (not_linea_by_opstack opstack, opstack)
        ((get_validated_block_hash_opstack_iff X r.chain_id r.sequencer_commitment r.env_op_input
            r.env_eth_input p.block_header_to_validate p.op_env_commitment
            r.sequencer_commitment_opstack_2 r.env_op_input_2 p.validate_l1_inclusion hash).1
          (proof, e))
  get_validated_block_hash_complete hash wide (by_l1_block ethereum vouched) =
      let (not_linea, not_opstack) = not_l2_by_ethereum ethereum in
      rw (not_linea, not_opstack, ethereum)
        ((via_opstack_iff X r.sequencer_commitment r.env_op_input r.chain_id
            r.sequencer_commitment_opstack_2 r.env_op_input_2 hash).1
          vouched)

module _ (X : Externals) where
  -- What an accepted request has shown.
  pub record Accepted (r : Request X) (output out : List Bytes) : Type 0 where
    pub params : RelevantParams X
    pub sorted :
        sort_and_verify_relevant_params X r.chain_id r.env_input r.linking_blocks r.env_eth_input
          r.op_evm_input
        ≡ ok params
    pub hash : B256
    pub authentic : Authentic X r params hash
    pub protected : IsProtected X params.chain_id_for_length_validation r.linking_blocks
    pub linked : Linked X params.env_header_hash_to_validate r.linking_blocks hash
    pub read : batch_call X r params output ≡ ok out

  -- An accepted request, taken apart.
  validate_get_proof_data_call_sound :
      (r : Request X) (output out : List Bytes)
      → 65 < 2 ^ X.usize_bits
      → validate_get_proof_data_call X r output ≡ ok out
      → Accepted r output out
  unfolding validate_get_proof_data_call
  validate_get_proof_data_call_sound r output out wide h =
      bind_ok
        (sort_and_verify_relevant_params X r.chain_id r.env_input r.linking_blocks r.env_eth_input
          r.op_evm_input)
        _ h
        λ p sorted h₁. bind_ok (validated X r p) _ h₁ λ hash trusted h₂.
          bind_ok
            (validate_chain_length X p.chain_id_for_length_validation p.env_header_hash_to_validate
              r.linking_blocks hash)
            _ h₂
            λ _ chain h₃.
              let (protected, linked) =
                (validate_chain_length_iff X p.chain_id_for_length_validation
                    p.env_header_hash_to_validate r.linking_blocks hash).0
                  chain in
              record {
                params = p;
                sorted = sorted;
                hash = hash;
                authentic = get_validated_block_hash_sound X r p hash wide trusted;
                protected = protected;
                linked = linked;
                read = h₃;
              }

  validate_get_proof_data_call_complete :
      (r : Request X) (output out : List Bytes)
      → 65 < 2 ^ X.usize_bits
      → Accepted r output out
      → validate_get_proof_data_call X r output ≡ ok out
  unfolding validate_get_proof_data_call
  validate_get_proof_data_call_complete r output out wide a =
      rw
        (
          a.sorted,
          get_validated_block_hash_complete X r a.params a.hash wide a.authentic,
          (validate_chain_length_iff X a.params.chain_id_for_length_validation
                a.params.env_header_hash_to_validate r.linking_blocks a.hash).1
              (a.protected, a.linked),
        )
        a.read

  -- Where `usize` holds 65, a request is accepted exactly if its parameters are sorted, some hash is
  -- authentic for its chain, the linking blocks are at least as many as the depth of the chain that
  -- they are on and lead from the environment's header to that hash, and the batch on these
  -- parameters gives the output.
  pub validate_get_proof_data_call_iff :
      (r : Request X) (output out : List Bytes)
      → 65 < 2 ^ X.usize_bits
      → (validate_get_proof_data_call X r output ≡ ok out) ↔ Accepted r output out
  validate_get_proof_data_call_iff r output out wide = (
    validate_get_proof_data_call_sound r output out wide,
    validate_get_proof_data_call_complete r output out wide,
  )
