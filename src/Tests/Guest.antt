-- ===== src/Tests/Guest.antt =====
-- Examples of the guest, of whole requests and of the journal.
use malda_lending_fuzz.Prelude.{
  ◌≡◌, ◌↔◌, ◌%◌, ◌^◌, refl, arith, true, false, List, [], ◌∷◌, length, ok,
}
use malda_lending_fuzz.Bytes.{Bytes, sub_uint, to_be_bytes, slice, from_be_bytes}
use malda_lending_fuzz.Constants.{linea_chain_id, base_chain_id}
use malda_lending_fuzz.Externals.Sample.{sample}
use malda_lending_fuzz.Validators.Batch.{
  encode_result, batch_call_get_proof_data, batch_params, query_call, call_data, encode_results,
  journal_items,
}
use malda_lending_fuzz.Validators.ProofCall.{validate_get_proof_data_call, batch_call}
use malda_lending_fuzz.Validators.ProofCall.Sound.{Accepted, validate_get_proof_data_call_iff}
use malda_lending_fuzz.Guest.{main}
use malda_lending_fuzz.Guest.Laws.{Run, main_iff}
use malda_lending_fuzz.Journal.{decode_journal, entry_size}
use malda_lending_fuzz.Journal.RoundTrip.{entry_bytes, journal_round_trip}
use malda_lending_fuzz.Validators.Params.{
  sort_and_verify_relevant_params, header_to_validate, spec_for_viewcall,
}
use malda_lending_fuzz.Validators.BlockHash.{
  get_validated_block_hash, get_validated_block_hash_linea,
}
use malda_lending_fuzz.Validators.Linea.{validate_linea_env, expected_sequencer}
use malda_lending_fuzz.Cryptography.{
  signature_from_bytes, recover_signer, recover_signer_unchecked, signature_bytes, normalized,
}
use malda_lending_fuzz.Validators.ChainLength.{validate_chain_length, required_depth, check_links}
use malda_lending_fuzz.Types.Abi.{encode_packed, pack}
use malda_lending_fuzz.Tests.Inputs.{linea_request, query, answer}

abbrev linea_output : List Bytes
linea_output = entry_bytes linea_chain_id false query 1000 500 ∷ []

accepted : validate_get_proof_data_call sample linea_request [] ≡ ok linea_output
unfolding validate_get_proof_data_call sort_and_verify_relevant_params header_to_validate
    spec_for_viewcall get_validated_block_hash get_validated_block_hash_linea validate_linea_env
    sub_uint to_be_bytes slice signature_from_bytes recover_signer from_be_bytes
    recover_signer_unchecked signature_bytes normalized expected_sequencer validate_chain_length
    required_depth check_links batch_call batch_call_get_proof_data batch_params query_call
    call_data encode_results encode_result journal_items encode_packed pack
accepted = refl

validate_get_proof_data_call_iff_example :
    (validate_get_proof_data_call sample linea_request [] ≡ ok linea_output)
    ↔ Accepted sample linea_request [] linea_output
validate_get_proof_data_call_iff_example =
    validate_get_proof_data_call_iff sample linea_request [] linea_output (omega arith)

authentic : Accepted sample linea_request [] linea_output
authentic =
    (validate_get_proof_data_call_iff sample linea_request [] linea_output (omega arith)).0 accepted

journal_round_trip_example :
    (entry : Bytes) × (encode_result sample linea_chain_id true query answer ≡ ok entry)
    × (length entry ≡ entry_size)
    × (decode_journal entry
        ≡ ok (record {
          sender = 5;
          market = 6;
          acc_amount_in = 1000;
          acc_amount_out = 500;
          chain_id = linea_chain_id % 2 ^ 32;
          dst_chain_id = base_chain_id % 2 ^ 32;
          l1_inclusion = true;
        }))
journal_round_trip_example =
    journal_round_trip sample linea_chain_id true query answer 1000 500 refl (omega arith)
      (omega arith) (omega arith) (omega arith)

main_iff_example :
    (main sample 1 (linea_request ∷ []) ≡ ok (entry_bytes linea_chain_id false query 1000 500)) ↔ (
      (output : List Bytes) × Run sample 1 (linea_request ∷ []) [] output
      × (sample.abi_encode_journal output ≡ entry_bytes linea_chain_id false query 1000 500))
main_iff_example =
    main_iff sample 1 (linea_request ∷ []) (entry_bytes linea_chain_id false query 1000 500)
