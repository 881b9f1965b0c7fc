-- ===== src/Examples.antt =====
-- Witnesses and tests. `program` unfolds the whole model for a test that runs it.
mod Validation
mod Shrinking
mod Campaign
mod Running
mod Processes
mod Replays
use rechnungsprobe.Campaign.{next_validation, next_target}
use rechnungsprobe.Campaign.Signature.{failure_signature, signature_eq, observation_eq}
use rechnungsprobe.Campaign.Calls.{
  lookup, item_of, put, same_keys, validated, valid_once, validate_output, run_and_evaluate,
  is_valid, missing_of, numbered, record_results, run_batches, all_known, validate_batch,
  preserves_finding,
}
use rechnungsprobe.Campaign.Corpus.{validate_cases, validate_corpus, cache_of}
use rechnungsprobe.Campaign.Finding.{
  mutation_text, check_reproduction, reproduce_once, reproduce, finding_record, emit, confirm,
  reduce_finding, try_candidate,
}
use rechnungsprobe.Campaign.Run.{known_of, search_findings, try_candidates, run_campaign}
use rechnungsprobe.Provenance.{
  is_sha256, is_sound_observation, check_provenance, observation_from_result, rounded,
  resource_policy_payload,
}
use rechnungsprobe.Profiles.{profile_payload}
use rechnungsprobe.Reporting.{is_bounded, agrees, check_record}
use rechnungsprobe.Shrink.Calls.{
  call_validities, call_accepts, call_first, call_search, call_initial, call_round, call_rounds,
  call_shrink, call_verify,
}
use rechnungsprobe.Predicates.Pointer.{
  split_parts, replace_pair, unescape, resolve_part, resolve, json_pointer, is_expected,
  evaluate_json,
}
use rechnungsprobe.Predicates.Evaluate.{evaluate}
use rechnungsprobe.Json.Strict.{scan_inside, scan_outside, scan, strict_json}
use rechnungsprobe.Process.Monitor.{
  has_code, check_argument, validated_command, check_environment, check_policy, add_one, add_up,
  resource_termination, watch_once, watch, last_checks, check_run, run_bounded_process, scan_limit,
}
use rechnungsprobe.Process.Readers.{accepted, store}
use rechnungsprobe.Replay.Defs.{check_specification}
use rechnungsprobe.Process.{rounded_milliseconds}
use rechnungsprobe.Replay.Defs.{milliseconds, check_command, policy_payload}
use rechnungsprobe.Replay.Write.{target_payload, predicate_payload, replay_payload}
use rechnungsprobe.Replay.Read.{read_target, read_predicate, read_policy, parse_replay}
use rechnungsprobe.Json.{get, has_keys, texts_of}
use rechnungsprobe.Predicates.Loss.{
  scalar_decimal, field_selectors, selected_by, field_value, check_fields, lost_fields, parse_both,
  evaluate_loss,
}
use rechnungsprobe.Predicates.{
  evaluate_crash, evaluate_timeout, evaluate_output, check_value, check_json_bounds,
}
use rechnungsprobe.Model.Parse.{
  children_with, find, attribute, optional_text, required_text, parse_decimal, parse_date,
  parse_optional_date, parse_party, check_reported,
}
use rechnungsprobe.Model.Parse.Document.{
  read_amount, parse_line_fields, parse_line, parse_lines, parse_fields, parse_tree,
}
use rechnungsprobe.Mutate.Calendar.{month_length, add_days}
use rechnungsprobe.Mutate.Fields.{
  divided, invoice_id, buyer_reference, invoice_note_unicode, seller_endpoint, buyer_endpoint,
  seller_name, buyer_name, payment_terms, line_order, line_description, line_identifier,
  quantity_scale, price_scale, vat_rate, line_note, seller_identifier, address_variant, add_line,
  remove_optionals, payment_due_date,
}
use rechnungsprobe.Mutate.Named.{mutators, find_mutator, mutate}
use rechnungsprobe.Findings.{predicate_kinds, find_kind, classify_finding}
use rechnungsprobe.Comparison.{
  text_option_eq, date_option_eq, value_eq, changed_by, changed_lines, changed_fields,
  invoice_changes, compare_semantics,
}
use rechnungsprobe.Xmlsafe.{
  split_last, namespace_and_local, start_element, end_element, character_data, handle, handle_all,
  preflight,
}
use rechnungsprobe.Security.{
  portable, pieces, posix_parts, safe_member_parts, file_type, is_dir, entry_kind, joined,
  validate_entries, validate_archive,
}
use rechnungsprobe.Corpus.{
  mutator_order, name_at, names_but, from_hex, shard_indices, candidate_digest, token_for, apply,
  interact, identify, mutate_seed, generate_from, generate_candidates,
}
use rechnungsprobe.Prelude.{ℕ}
use rechnungsprobe.Prelude.Int.{◌+ℤ◌}
use rechnungsprobe.Prelude.{text_eq, contains, digits, show_ℕ, replicate, pad}
use rechnungsprobe.Decimal.{
  is_finite, decimal_eq, is_at_most_zero, is_negative, exceeds, has_more_than_six_places,
  round_quotient, fix, mul, add, hundredth, cents, quantize, normalize, format_plain,
}
use rechnungsprobe.Model.Invoice.{is_before, isoformat}
use rechnungsprobe.Model.Validate.{
  is_control, validate_present, validate_text, validate_texts, validate_decimal, both_or_none,
  in_order, validate_party, validate_line, add_rate, validate_lines, due_in_time, validate,
}
use rechnungsprobe.Model.Totals.{
  line_extension, sum_of, line_total, line_tax, tax_total, payable_total, decimal_text, money_text,
}
use rechnungsprobe.Model.Xml.{tostring}
use rechnungsprobe.Model.Serialize.{
  serialize_party, serialize_line, serialize_lines, invoice_tree, serialize_invoice,
}
use rechnungsprobe.Model.Fingerprint.{
  canonical_decimal, canonical_party, canonical_line, canonical_lines, canonical_invoice,
  semantic_fingerprint, dumps,
}
use rechnungsprobe.Shrink.Operations.{keep_new, text_reductions}
use rechnungsprobe.Shrink.Parties.{
  replace_party, party_optional, remove_party_optional, party_text, replace_party_text,
  party_removal, party_removals, party_text_reductions, party_reductions,
}
use rechnungsprobe.Shrink.Lines.{
  replace_line, line_optional, remove_line_optional, line_text, replace_line_text, line_removals,
  line_group_removals, line_text_reductions, line_number, replace_line_number, number_reduction,
  number_reductions, line_reductions,
}
use rechnungsprobe.Shrink.Steps.{
  invoice_text, replace_invoice_text, line_drops, invoice_text_reductions, all_line_reductions,
  candidates, candidate_fingerprint, keep_unique, one_step_reductions,
}
use rechnungsprobe.Shrink.Loop.{
  validities, first_accepted, check_initial, gather, shrink_round, shrink_rounds, shrink_invoice,
  serialize_all, search_reducing, verify_one_minimal,
}

program : ℕ
unfolding rounded_milliseconds milliseconds check_command policy_payload target_payload
    predicate_payload replay_payload read_target read_predicate read_policy parse_replay get
    has_keys texts_of next_validation next_target failure_signature signature_eq observation_eq
    lookup item_of put same_keys validated valid_once validate_output run_and_evaluate is_valid
    missing_of numbered record_results run_batches all_known validate_batch preserves_finding
    validate_cases validate_corpus cache_of mutation_text check_reproduction reproduce_once
    reproduce finding_record emit confirm reduce_finding try_candidate known_of search_findings
    try_candidates run_campaign is_sha256 is_sound_observation check_provenance
    observation_from_result rounded resource_policy_payload profile_payload is_bounded agrees
    check_record call_validities call_accepts call_first call_search call_initial call_round
    call_rounds call_shrink call_verify split_parts replace_pair unescape resolve_part resolve
    json_pointer is_expected evaluate_json evaluate scan_inside scan_outside scan strict_json
    has_code check_argument validated_command check_environment check_policy add_one add_up
    resource_termination watch_once watch last_checks check_run run_bounded_process scan_limit
    accepted store check_specification ◌+ℤ◌ scalar_decimal field_selectors selected_by field_value
    check_fields lost_fields parse_both evaluate_loss evaluate_crash evaluate_timeout
    evaluate_output check_value check_json_bounds children_with find attribute optional_text
    required_text parse_decimal parse_date parse_optional_date parse_party check_reported
    read_amount parse_line_fields parse_line parse_lines parse_fields parse_tree month_length
    add_days divided invoice_id buyer_reference invoice_note_unicode seller_endpoint buyer_endpoint
    seller_name buyer_name payment_terms line_order line_description line_identifier quantity_scale
    price_scale vat_rate line_note seller_identifier address_variant add_line remove_optionals
    payment_due_date mutators find_mutator mutate predicate_kinds find_kind classify_finding
    text_option_eq date_option_eq value_eq changed_by changed_lines changed_fields invoice_changes
    compare_semantics split_last namespace_and_local start_element end_element character_data handle
    handle_all preflight portable pieces posix_parts safe_member_parts file_type is_dir entry_kind
    joined validate_entries validate_archive mutator_order name_at names_but from_hex shard_indices
    candidate_digest token_for apply interact identify mutate_seed generate_from generate_candidates
    text_eq contains digits show_ℕ replicate pad is_finite decimal_eq is_at_most_zero is_negative
    exceeds has_more_than_six_places round_quotient fix mul add hundredth cents quantize normalize
    format_plain is_before isoformat is_control validate_present validate_text validate_texts
    validate_decimal both_or_none in_order validate_party validate_line add_rate validate_lines
    due_in_time validate line_extension sum_of line_total line_tax tax_total payable_total
    decimal_text money_text tostring serialize_party serialize_line serialize_lines invoice_tree
    serialize_invoice canonical_decimal canonical_party canonical_line canonical_lines
    canonical_invoice semantic_fingerprint dumps keep_new text_reductions replace_party
    party_optional remove_party_optional party_text replace_party_text party_removal party_removals
    party_text_reductions party_reductions replace_line line_optional remove_line_optional line_text
    replace_line_text line_removals line_group_removals line_text_reductions line_number
    replace_line_number number_reduction number_reductions line_reductions invoice_text
    replace_invoice_text line_drops invoice_text_reductions all_line_reductions candidates
    candidate_fingerprint keep_unique one_step_reductions validities first_accepted check_initial
    gather shrink_round shrink_rounds shrink_invoice serialize_all search_reducing
    verify_one_minimal
program = 0
