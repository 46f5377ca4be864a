-- ===== src/Multisig/Operations.antt =====
-- The functions of grainlify-core/src/multisig.rs.
use grainlify_stellar_contra.Base.{
  ℕ, ◌-◌, ◌&&◌, ◌||◌, Bool, true, false, not, Option, none, some, List, [], ◌∷◌, insert, ltb, leb,
  ◌==◌, if◌then◌else◌, is_some, unwrap_or, length, push_back, contains,
}
use grainlify_stellar_contra.Base.Int.{checked_add_u64}
use grainlify_stellar_contra.Base.Host.{
  Address, ◌>>=◌, ◌>>◌, pure, gets, or_fail, or_trap, fail_if, modify, require_auth, overflow,
}
use grainlify_stellar_contra.Multisig.State.{
  MultiSigConfig, ProposalAction, upgrade, Proposal, not_signer, already_approved,
  proposal_not_found, already_executed, threshold_not_met, invalid_threshold, action_mismatch,
  nonce_mismatch, removal_would_break_threshold, already_signer, already_initialized,
  not_initialized, Rotation, add, remove, thresh, Event, Call,
}

abbrev pub emit : Event → Call (Unit {0})
emit v = modify (λ s. record s { events = v ∷ s.events })

-- The loop of `init` over the addresses seen so far.
unfoldable pub has_duplicate : List Address → List Address → Bool
has_duplicate seen [] = false
has_duplicate seen (x ∷ xs) =
    let rest = has_duplicate (push_back seen x) xs in if contains seen x then true else rest

unfoldable pub init : List Address → ℕ → Call (Unit {0})
unfolding has_duplicate
init signers threshold = do
  fail_if (is_some (← gets (λ s. s.config))) already_initialized
  fail_if (threshold == 0 || ltb (length signers) threshold) invalid_threshold
  fail_if (has_duplicate [] signers) already_signer
  modify (λ s. record s {
    config = some (record { signers = signers; threshold = threshold });
    proposal_counter = 0;
    execution_nonce = 0;
  })

unfoldable pub get_config : Call MultiSigConfig
get_config = do or_fail (← gets (λ s. s.config)) not_initialized

unfoldable pub get_proposal : ℕ → Call Proposal
get_proposal proposal_id = do or_fail (← gets (λ s. s.proposals proposal_id)) proposal_not_found

-- `assert_signer` and `assert_proposal_signer`
abbrev pub assert_signer : List Address → Address → Call (Unit {0})
assert_signer signers signer = fail_if (not (contains signers signer)) not_signer

abbrev pub announce_proposal : ProposalAction → ℕ → Address → Call (Unit {0})
announce_proposal (upgrade wasm_hash) counter proposer =
    emit (Event.upgrade_proposed counter proposer wasm_hash)

-- The proposal that `propose` stores: the signers and the threshold are those of the moment.
abbrev pub new_proposal : ProposalAction → MultiSigConfig → Proposal
new_proposal action config = record {
  action = action;
  approvals = [];
  executed = false;
  signers = config.signers;
  threshold = config.threshold;
  executed_nonce = none;
}

unfoldable pub propose : Address → ProposalAction → Call ℕ
unfolding get_config
propose proposer action = do
  require_auth proposer
  config ← get_config
  assert_signer config.signers proposer
  counter ← or_trap (checked_add_u64 (← gets (λ s. s.proposal_counter)) 1) overflow
  modify (λ s. record s {
    proposals = insert counter (new_proposal action config) s.proposals;
    proposal_counter = counter;
  })
  emit (Event.proposal_created counter)
  announce_proposal action counter proposer
  pure counter

-- The proposal with one approval more.
abbrev pub approved_by : Proposal → Address → Proposal
approved_by proposal signer = record proposal { approvals = push_back proposal.approvals signer }

abbrev pub announce_approval : ProposalAction → ℕ → Address → ℕ → Call (Unit {0})
announce_approval (upgrade _) proposal_id signer count =
    emit (Event.upgrade_approved proposal_id signer count)

unfoldable pub approve : ℕ → Address → Call (Unit {0})
unfolding get_proposal
approve proposal_id signer = do
  require_auth signer
  proposal ← get_proposal proposal_id
  assert_signer proposal.signers signer
  fail_if proposal.executed already_executed
  fail_if (contains proposal.approvals signer) already_approved
  let proposal' = approved_by proposal signer
  modify (λ s. record s { proposals = insert proposal_id proposal' s.proposals })
  emit (Event.proposal_approved proposal_id signer)
  announce_approval proposal.action proposal_id signer (length proposal'.approvals)

unfoldable pub can_execute : ℕ → Call Bool
unfolding get_proposal
can_execute proposal_id = do
  proposal ← get_proposal proposal_id
  pure (not proposal.executed && leb proposal.threshold (length proposal.approvals))

abbrev pub nonce : Call ℕ
nonce = gets (λ s. s.execution_nonce)

-- The proposal once it is executed.
abbrev pub executed_with : Proposal → ℕ → Proposal
executed_with proposal n = record proposal { executed = true; executed_nonce = some n }

unfoldable pub mark_executed : ℕ → ℕ → Call (Unit {0})
unfolding get_proposal can_execute
mark_executed proposal_id n = do
  proposal ← get_proposal proposal_id
  fail_if proposal.executed already_executed
  executable ← can_execute proposal_id
  fail_if (not executable) threshold_not_met
  modify (λ s. record s { proposals = insert proposal_id (executed_with proposal n) s.proposals })
  emit (Event.proposal_executed proposal_id n)

abbrev pub same_action : ProposalAction → ProposalAction → Bool
same_action (upgrade h) (upgrade k) = h == k

-- `execute` before the closure runs, with the nonce that it consumes.
unfoldable pub check_execute : ℕ → ProposalAction → ℕ → Call ℕ
unfolding get_proposal can_execute
check_execute proposal_id expected_action expected_nonce = do
  proposal ← get_proposal proposal_id
  fail_if proposal.executed already_executed
  fail_if (not (same_action proposal.action expected_action)) action_mismatch
  executable ← can_execute proposal_id
  fail_if (not executable) threshold_not_met
  current_nonce ← nonce
  fail_if (not (expected_nonce == current_nonce)) nonce_mismatch
  pure current_nonce

-- `action` is the closure that the caller passes.
unfoldable pub execute : ℕ → ProposalAction → ℕ → Call (Unit {0}) → Call (Unit {0})
execute proposal_id expected_action expected_nonce action = do
  current_nonce ← check_execute proposal_id expected_action expected_nonce
  action
  mark_executed proposal_id current_nonce
  next ← or_trap (checked_add_u64 current_nonce 1) overflow
  modify (λ s. record s { execution_nonce = next })

-- The signers without one address.
unfoldable pub without : Address → List Address → List Address
without a [] = []
without a (x ∷ xs) = let rest = without a xs in if x == a then rest else x ∷ rest

abbrev pub set_config : MultiSigConfig → Call (Unit {0})
set_config config = modify (λ s. record s { config = some config })

unfoldable pub remove_signer : Address → Address → Call (Unit {0})
unfolding get_config without
remove_signer caller signer_to_remove = do
  require_auth caller
  config ← get_config
  assert_signer config.signers caller
  assert_signer config.signers signer_to_remove
  fail_if (ltb (length config.signers - 1) config.threshold) removal_would_break_threshold
  set_config (record config { signers = without signer_to_remove config.signers })
  emit (Event.signer_rotated remove caller signer_to_remove config.threshold)

unfoldable pub add_signer : Address → Address → Call (Unit {0})
unfolding get_config
add_signer caller new_signer = do
  require_auth caller
  config ← get_config
  assert_signer config.signers caller
  fail_if (contains config.signers new_signer) already_signer
  set_config (record config { signers = push_back config.signers new_signer })
  emit (Event.signer_rotated add caller new_signer config.threshold)

-- The loops of `rotate_signers` over the removals and the additions.
unfoldable pub remove_each : List Address → List Address → Call (List Address)
unfolding without
remove_each signers [] = pure signers
remove_each signers (a ∷ as_) = do assert_signer signers a; remove_each (without a signers) as_

unfoldable pub add_each : List Address → List Address → Call (List Address)
add_each signers [] = pure signers
add_each signers (a ∷ as_) = do
  fail_if (contains signers a) already_signer
  add_each (push_back signers a) as_

-- One event for each address of a rotation.
unfoldable pub announce_each : Rotation → Address → ℕ → List Address → List Event → List Event
announce_each kind caller threshold [] vs = vs
announce_each kind caller threshold (a ∷ as_) vs =
    announce_each kind caller threshold as_ (Event.signer_rotated kind caller a threshold ∷ vs)

abbrev pub is_empty : List Address → Bool
is_empty [] = true
is_empty (_ ∷ _) = false

unfoldable pub rotate_signers : Address → List Address → List Address → Option ℕ → Call (Unit {0})
unfolding get_config announce_each
rotate_signers caller added removed new_threshold = do
  require_auth caller
  config ← get_config
  assert_signer config.signers caller
  fewer ← remove_each config.signers removed
  signers ← add_each fewer added
  let threshold = unwrap_or new_threshold config.threshold
  fail_if (threshold == 0 || ltb (length signers) threshold) removal_would_break_threshold
  set_config (record { signers = signers; threshold = threshold })
  modify (λ s. record s {
    events =
        announce_each remove caller threshold removed
          (announce_each add caller threshold added s.events);
  })
  modify (λ s.
      if is_empty added && is_empty removed && is_some new_threshold
      then record s { events = Event.signer_rotated thresh caller caller threshold ∷ s.events }
      else s)
