-- ===== src/Tests/Validators.antt =====
-- Examples of the validators.
use malda_lending_fuzz.Prelude.{
  ℕ, ◌≤◌, ◌≡◌, ◌↔◌, ◌⊎◌, ◌%◌, ◌-◌, ◌+◌, refl, arith, true, false, ◌&&◌, ◌||◌, ltb, leb,
  if◌then◌else◌, some, none, List, [], ◌∷◌, ◌++◌, map, length, min, ok,
}
use malda_lending_fuzz.Bytes.{Bytes, Address, to_be_bytes, sub_uint}
use malda_lending_fuzz.Constants.{
  linea_chain_id, base_chain_id, optimism_chain_id, ethereum_chain_id, multicall,
}
use malda_lending_fuzz.Externals.{Externals, eth, eth_mainnet_chain_spec}
use malda_lending_fuzz.Externals.Sample.{sample, sample-IsLawful}
use malda_lending_fuzz.Types.Contracts.{CallResult, aggregate3, current_l2_block_number}
use malda_lending_fuzz.Validators.ChainLength.{required_depth, check_links, validate_chain_length}
use malda_lending_fuzz.Validators.ChainLength.Linked.{
  Linked, IsProtected, Collision, validate_chain_length_iff, historical_hash_unique,
}
use malda_lending_fuzz.Validators.Opstack.{
  validate_opstack_env, get_validated_ethereum_block_hash_via_opstack,
}
use malda_lending_fuzz.Validators.Opstack.Laws.{
  Commits, VouchedBy, validate_opstack_env_iff, via_opstack_iff,
}
use malda_lending_fuzz.Validators.DisputeGame.{
  time_has_passed, validate_opstack_dispute_game_commitment,
}
use malda_lending_fuzz.Validators.DisputeGame.Sound.{Answers, dispute_game_iff, time_has_passed_lem}
use malda_lending_fuzz.Validators.Linea.{
  message_service, validate_linea_env, validate_linea_env_with_l1_inclusion,
}
use malda_lending_fuzz.Validators.Linea.Laws.{
  Sealed, validate_linea_env_iff, validate_linea_env_with_l1_inclusion_iff,
}
use malda_lending_fuzz.Validators.BlockHash.{
  get_validated_block_hash_opstack, get_validated_block_hash_linea,
}
use malda_lending_fuzz.Validators.BlockHash.Laws.{
  OpstackProof, get_validated_block_hash_opstack_iff,
}
use malda_lending_fuzz.Validators.BlockHash.Linea.{
  LineaInclusion, get_validated_block_hash_linea_iff,
}
use malda_lending_fuzz.Validators.Params.{header_to_validate, sort_and_verify_relevant_params}
use malda_lending_fuzz.Validators.Batch.{
  batch_params, query_call, call_data, journal_items, encode_result, encode_results,
  batch_call_get_proof_data,
}
use malda_lending_fuzz.Validators.Batch.Calls.{Encoded, batch_call_get_proof_data_sound}
use malda_lending_fuzz.Types.Abi.{encode_packed, pack}
use malda_lending_fuzz.Journal.RoundTrip.{entry_bytes}
use malda_lending_fuzz.Tests.Inputs.{linea_params, query, commitment}

abbrev blocks : List ℕ
blocks = 99 ∷ 100 ∷ []

linea_depth : required_depth linea_chain_id ≡ ok 2
unfolding required_depth
linea_depth = refl

validate_chain_length_iff_example :
    (validate_chain_length sample linea_chain_id 98 blocks 100 ≡ ok tt)
    ↔ (IsProtected sample linea_chain_id blocks × Linked sample 98 blocks 100)
validate_chain_length_iff_example = validate_chain_length_iff sample linea_chain_id 98 blocks 100

-- A world whose block hash has three digits, so that the blocks 99 and 1099 have one hash, and two chains
-- that start at different blocks.
abbrev colliding : Externals
colliding = record sample { hash_slow = λ h. h % 1000 }

abbrev other_blocks : List ℕ
other_blocks = 1099 ∷ 100 ∷ []

chain_accepted : validate_chain_length colliding linea_chain_id 98 blocks 100 ≡ ok tt
unfolding validate_chain_length required_depth check_links
chain_accepted = refl

other_accepted : validate_chain_length colliding linea_chain_id 1098 other_blocks 100 ≡ ok tt
unfolding validate_chain_length required_depth check_links
other_accepted = refl

abbrev first_hash : ℕ
first_hash = 98

abbrev other_hash : ℕ
other_hash = 1098

historical_hash_unique_example :
    ((first_hash ≡ other_hash)
      × (map colliding.hash_slow blocks ≡ map colliding.hash_slow other_blocks))
    ⊎ Collision colliding blocks other_blocks
historical_hash_unique_example =
    historical_hash_unique colliding linea_chain_id first_hash other_hash 100 blocks other_blocks
      refl chain_accepted other_accepted

validate_opstack_env_iff_example :
    (validate_opstack_env sample optimism_chain_id commitment 100 ≡ ok tt)
    ↔ Commits sample optimism_chain_id commitment 100
validate_opstack_env_iff_example = validate_opstack_env_iff sample optimism_chain_id commitment 100

via_opstack_iff_example :
    (get_validated_ethereum_block_hash_via_opstack sample
        (some commitment)
        (some 100)
        ethereum_chain_id
        none
        none
      ≡ ok 100)
    ↔ VouchedBy sample (some commitment) (some 100) ethereum_chain_id 100
via_opstack_iff_example =
    via_opstack_iff sample (some commitment) (some 100) ethereum_chain_id none none 100

dispute_game_iff_example :
    (validate_opstack_dispute_game_commitment sample optimism_chain_id 100 9 ≡ ok tt)
    ↔ Answers sample optimism_chain_id 100 9
dispute_game_iff_example = dispute_game_iff sample optimism_chain_id 100 9

time_has_passed_lem_example : time_has_passed sample 1100 30 600 ≡ (
    if leb 300 600
    then ltb 1100 30 || ltb 600 (1100 - 30 + 300)
    else ltb 1100 30 && ltb (30 + 600) (1100 + 300))
time_has_passed_lem_example =
    time_has_passed_lem sample 1100 30 600 sample-IsLawful (omega arith) (omega arith) (omega arith)

validate_linea_env_iff_example :
    (validate_linea_env sample linea_chain_id 100 ≡ ok tt) ↔ Sealed sample linea_chain_id 100
validate_linea_env_iff_example = validate_linea_env_iff sample linea_chain_id 100 (omega arith)

validate_linea_env_with_l1_inclusion_iff_example :
    (validate_linea_env_with_l1_inclusion sample linea_chain_id 98 100 100 ≡ ok tt) ↔ (
      (service : Address) × (env_eth : sample.EvmEnv eth) × (l2_block_number : ℕ) × (message_service
          linea_chain_id
        ≡ ok service)
      × (sample.into_env eth 100 eth_mainnet_chain_spec ≡ ok env_eth)
      × (100 ≡ sample.env_seal env_eth)
      × (sample.call eth env_eth service current_l2_block_number ≡ ok l2_block_number)
      × (98 ≤ l2_block_number))
validate_linea_env_with_l1_inclusion_iff_example =
    validate_linea_env_with_l1_inclusion_iff sample linea_chain_id 98 100 100

get_validated_block_hash_opstack_iff_example :
    (get_validated_block_hash_opstack sample optimism_chain_id
        (some commitment)
        (some 100)
        (some 100)
        100
        true
        (some 9)
        none
        none
      ≡ ok 100)
    ↔ (OpstackProof sample optimism_chain_id
          (some commitment)
          (some 100)
          (some 100)
          100
          true
          (some 9)
        × (sample.hash_slow 100 ≡ 100))
get_validated_block_hash_opstack_iff_example =
    get_validated_block_hash_opstack_iff sample optimism_chain_id (some commitment) (some 100)
      (some 100) 100 (some 9) none none true 100

get_validated_block_hash_linea_iff_example :
    (get_validated_block_hash_linea sample linea_chain_id 98
        (some commitment)
        (some 100)
        (some 100)
        100
        true
        none
        none
      ≡ ok 100)
    ↔ (LineaInclusion sample linea_chain_id 98 (some commitment) (some 100) (some 100) 100 true
        × Sealed sample linea_chain_id 100
        × (sample.hash_slow 100 ≡ 100))
get_validated_block_hash_linea_iff_example =
    get_validated_block_hash_linea_iff sample linea_chain_id 98 (some commitment) (some 100)
      (some 100) 100 none none none true 100 (omega arith)

sorted :
    sort_and_verify_relevant_params sample linea_chain_id (some 98) blocks none none
    ≡ ok linea_params
unfolding sort_and_verify_relevant_params header_to_validate
sorted = refl

abbrev batch_output : List Bytes
batch_output = entry_bytes linea_chain_id false query 1000 500 ∷ []

batched :
    batch_call_get_proof_data sample linea_chain_id false eth
      (5 ∷ [])
      (6 ∷ [])
      (base_chain_id ∷ [])
      98
      []
    ≡ ok batch_output
unfolding batch_call_get_proof_data batch_params query_call call_data encode_results encode_result
    journal_items encode_packed pack to_be_bytes sub_uint
batched = refl

batch_call_get_proof_data_sound_example :
    (results : List CallResult) × (entries : List Bytes) × (sample.call eth 98 multicall
        (aggregate3 (map query_call (batch_params (5 ∷ []) (6 ∷ []) (base_chain_id ∷ []))))
      ≡ ok results)
    × (batch_output ≡ [] ++ entries)
    × Encoded sample linea_chain_id false
        (batch_params (5 ∷ []) (6 ∷ []) (base_chain_id ∷ []))
        results
        entries
    × (length entries ≡ min (min 1 (min 1 1)) (length results))
batch_call_get_proof_data_sound_example =
    batch_call_get_proof_data_sound sample linea_chain_id false eth (5 ∷ []) (6 ∷ [])
      (base_chain_id ∷ []) 98 [] batch_output batched
