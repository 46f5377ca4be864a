-- ===== src/Multisig/Tests.antt =====
-- The multisig of multisig.rs at concrete inputs.
use grainlify_stellar_contra.Base.{ℕ, ◌≡◌, ◌≤◌, ◌<◌, refl, true, false, some, none, [], ◌∷◌}
use grainlify_stellar_contra.Base.Int.{pos}
use grainlify_stellar_contra.Base.Host.{Env, ok, after, pure}
use grainlify_stellar_contra.Multisig.State.{State, upgrade, Proposal, Call}
use grainlify_stellar_contra.Multisig.Operations.{
  init, get_config, get_proposal, can_execute, propose, approve, check_execute, mark_executed,
  execute, remove_each, add_each, rotate_signers, without,
}
use grainlify_stellar_contra.Multisig.Viability.{IsViable}
use grainlify_stellar_contra.Multisig.Effects.{Keeps}
use grainlify_stellar_contra.Multisig.Steps.{
  Steps, stay, next, initialise, proposes, approves, executes, rotates,
}
use grainlify_stellar_contra.Multisig.Soundness.{
  IsEmpty, IsBacked, Steps-IsViable, executed-IsBacked,
}
use grainlify_stellar_contra.Multisig.Replay.{Fails, no_replay}

-- Everybody signs.
abbrev host : Env
host = record {
  timestamp = 1000;
  authorized = λ _. true;
  current_contract_address = 99;
  balance = λ _ _. pos 0;
  balance_after = λ _ _ _. pos 1000000;
  transfer_ok = λ _ _. true;
  gov_ver = λ _. 1;
  gov_version_numeric = λ _. 10000;
  gov_is_upg_ok = λ _ _. true;
  gov_is_vetoed = λ _ _. false;
  gov_execute_proposal = λ _ _. true;
}

abbrev empty : State
empty = record {
  config = none;
  proposal_counter = 0;
  proposals = λ _. none;
  execution_nonce = 0;
  events = [];
}

empty-IsEmpty : IsEmpty empty
empty-IsEmpty = (refl, λ id. refl)

-- The closure that does nothing to the storage.
abbrev nothing : Call (Unit {0})
nothing = pure tt

nothing-Keeps : Keeps host nothing
nothing-Keeps s t h = cc

-- Three signers, two of whom are enough.
abbrev ready : State
unfolding init
ready = after empty (init (1 ∷ 2 ∷ 3 ∷ []) 2 host empty)

ready_runs : init (1 ∷ 2 ∷ 3 ∷ []) 2 host empty ≡ ok (tt, ready)
unfolding ready
ready_runs = refl

-- One proposes the code 77.
abbrev proposed : State
unfolding propose get_config
proposed = after ready (propose 1 (upgrade 77) host ready)

proposed_runs : propose 1 (upgrade 77) host ready ≡ ok (1, proposed)
unfolding proposed ready
proposed_runs = refl

-- And approves it.
abbrev approved_once : State
unfolding approve get_proposal
approved_once = after proposed (approve 1 1 host proposed)

approved_once_runs : approve 1 1 host proposed ≡ ok (tt, approved_once)
unfolding approved_once proposed ready
approved_once_runs = refl

-- So does another.
abbrev approved_twice : State
unfolding approve get_proposal
approved_twice = after approved_once (approve 1 3 host approved_once)

approved_twice_runs : approve 1 3 host approved_once ≡ ok (tt, approved_twice)
unfolding approved_twice approved_once proposed ready
approved_twice_runs = refl

-- The proposal is executed.
abbrev done : State
unfolding execute check_execute mark_executed get_proposal can_execute
done = after approved_twice (execute 1 (upgrade 77) 0 nothing host approved_twice)

done_runs : execute 1 (upgrade 77) 0 nothing host approved_twice ≡ ok (tt, done)
unfolding done approved_twice approved_once proposed ready
done_runs = refl

-- One signer is replaced and all three are asked for.
abbrev rotated : State
unfolding rotate_signers get_config remove_each add_each without
rotated = after done (rotate_signers 1 (4 ∷ []) (3 ∷ []) (some 3) host done)

rotated_runs : rotate_signers 1 (4 ∷ []) (3 ∷ []) (some 3) host done ≡ ok (tt, rotated)
unfolding rotated done approved_twice approved_once proposed ready
rotated_runs = refl

before : Steps empty approved_twice
before =
    next
      (next
        (next (next stay (initialise host (1 ∷ 2 ∷ 3 ∷ []) 2 ready_runs))
          (proposes host 1 (upgrade 77) 1 proposed_runs))
        (approves host 1 1 approved_once_runs))
      (approves host 1 3 approved_twice_runs)

whole : Steps empty rotated
whole =
    next (next before (executes host 1 (upgrade 77) 0 nothing nothing-Keeps done_runs))
      (rotates host 1 (4 ∷ []) (3 ∷ []) (some 3) rotated_runs)

Steps-IsViable_example : IsViable (record { signers = 1 ∷ 2 ∷ 4 ∷ []; threshold = 3 })
unfolding rotated done approved_twice approved_once proposed ready
Steps-IsViable_example = Steps-IsViable empty rotated empty-IsEmpty whole refl

-- The proposal at the end.
abbrev executed_proposal : Proposal
executed_proposal = record {
  action = upgrade 77;
  approvals = 1 ∷ 3 ∷ [];
  executed = true;
  signers = 1 ∷ 2 ∷ 3 ∷ [];
  threshold = 2;
  executed_nonce = some 0;
}

executed-IsBacked_example :
    IsBacked executed_proposal
    × (2 ≤ 2)
    × ((n : ℕ) × (executed_proposal.executed_nonce ≡ some n) × (n < rotated.execution_nonce))
unfolding rotated done approved_twice approved_once proposed ready
executed-IsBacked_example = executed-IsBacked empty rotated 1 empty-IsEmpty whole refl refl

no_replay_example :
    Fails (execute 1 (upgrade 77) 1 nothing host rotated)
    × Fails (execute 2 (upgrade 78) 0 nothing host rotated)
unfolding rotated done approved_twice approved_once proposed ready
no_replay_example =
    no_replay host host empty approved_twice done rotated 1 2 (upgrade 77) (upgrade 77) (upgrade 78)
      0 1 nothing nothing nothing empty-IsEmpty before nothing-Keeps done_runs
      (next stay (rotates host 1 (4 ∷ []) (3 ∷ []) (some 3) rotated_runs))
