-- ===== src/Program/Quiet.antt =====
-- The calls of program-escrow/src/lib.rs that move no tokens and touch no schedule: the settings
-- and the disputes.
use grainlify_stellar_contra.Base.{ℕ, ◌≡◌, Bool, Option, none, some, arith}
use grainlify_stellar_contra.Base.Int.{ℤ}
use grainlify_stellar_contra.Base.Host.{Address, Hash, Symbol, Env, ok}
use grainlify_stellar_contra.Bounty.Circuit.{CircuitBreakerConfig}
use grainlify_stellar_contra.Program.State.{
  State, DisputeScope, global, of_recipient, of_schedule, Operation,
}
use grainlify_stellar_contra.Program.Guards.{check_governance_requirements}
use grainlify_stellar_contra.Program.Admin.{
  initialize_contract, setadmin, propose_admin, accept_admin, set_paused, upgrade,
  execute_governance_proposal, set_governance_contract, set_min_governance_version,
  set_circuitadmin, reset_circuit_breaker, configure_circuit_breaker, emergency_open_circuit,
  update_rate_limit_config, set_fund_cap_config, set_whitelist, set_whitelist_enforced,
  set_rate_limit_whitelist, set_large_payout_threshold, check_upgrade_approval,
  try_governance_proposal, announce_pause,
}
use grainlify_stellar_contra.Program.Disputes.{
  open_dispute_at, resolve_dispute_at, cancel_dispute_at,
}
use grainlify_stellar_contra.Program.Books.{SameBooks}

-- One such call that succeeds.
pub data Quiet (s s' : State) : Type 0 where
  initialize_contract_call :
      (e : Env) (a : Address) → initialize_contract a e s ≡ ok (tt, s') → Quiet s s'
  setadmin_call : (e : Env) (a : Address) → setadmin a e s ≡ ok (tt, s') → Quiet s s'
  propose_admin_call : (e : Env) (a : Address) → propose_admin a e s ≡ ok (tt, s') → Quiet s s'
  accept_admin_call : (e : Env) (a : Address) → accept_admin a e s ≡ ok (tt, s') → Quiet s s'
  set_paused_call :
      (e : Env) (l r f : Option Bool) → set_paused l r f e s ≡ ok (tt, s') → Quiet s s'
  upgrade_call : (e : Env) (w : Hash) → upgrade w e s ≡ ok (tt, s') → Quiet s s'
  execute_governance_proposal_call :
      (e : Env) (id : ℕ) → execute_governance_proposal id e s ≡ ok (tt, s') → Quiet s s'
  set_governance_contract_call :
      (e : Env) (a : Address) → set_governance_contract a e s ≡ ok (tt, s') → Quiet s s'
  set_min_governance_version_call :
      (e : Env) (n : ℕ) → set_min_governance_version n e s ≡ ok (tt, s') → Quiet s s'
  set_circuitadmin_call :
      (e : Env) (a : Address) (c : Option Address)
      → set_circuitadmin a c e s ≡ ok (tt, s')
      → Quiet s s'
  reset_circuit_breaker_call :
      (e : Env) (a : Address) → reset_circuit_breaker a e s ≡ ok (tt, s') → Quiet s s'
  configure_circuit_breaker_call :
      (e : Env) (a : Address) (c : CircuitBreakerConfig)
      → configure_circuit_breaker a c e s ≡ ok (tt, s')
      → Quiet s s'
  emergency_open_circuit_call :
      (e : Env) (a : Address) → emergency_open_circuit a e s ≡ ok (tt, s') → Quiet s s'
  update_rate_limit_config_call :
      (e : Env) (w m c : ℕ) → update_rate_limit_config w m c e s ≡ ok (tt, s') → Quiet s s'
  set_fund_cap_config_call :
      (e : Env) (t l : Option ℤ) → set_fund_cap_config t l e s ≡ ok (tt, s') → Quiet s s'
  set_whitelist_call :
      (e : Env) (a : Address) (b : Bool) → set_whitelist a b e s ≡ ok (tt, s') → Quiet s s'
  set_whitelist_enforced_call :
      (e : Env) (b : Bool) → set_whitelist_enforced b e s ≡ ok (tt, s') → Quiet s s'
  set_rate_limit_whitelist_call :
      (e : Env) (a : Address) (b : Bool)
      → set_rate_limit_whitelist a b e s ≡ ok (tt, s')
      → Quiet s s'
  set_large_payout_threshold_call :
      (e : Env) (n : ℕ) → set_large_payout_threshold n e s ≡ ok (tt, s') → Quiet s s'
  open_dispute_at_call :
      (e : Env) (k : DisputeScope) (r : Symbol) → open_dispute_at k r e s ≡ ok (tt, s') → Quiet s s'
  resolve_dispute_at_call :
      (e : Env) (k : DisputeScope) → resolve_dispute_at k e s ≡ ok (tt, s') → Quiet s s'
  cancel_dispute_at_call :
      (e : Env) (k : DisputeScope) → cancel_dispute_at k e s ≡ ok (tt, s') → Quiet s s'

initialize_contract-SameBooks :
    (e : Env) (s s' : State) (a : Address)
    → initialize_contract a e s ≡ ok (tt, s')
    → SameBooks s s'
unfolding initialize_contract
initialize_contract-SameBooks e s s' a h = ground arith

setadmin-SameBooks :
    (e : Env) (s s' : State) (a : Address) → setadmin a e s ≡ ok (tt, s') → SameBooks s s'
unfolding setadmin
setadmin-SameBooks e s s' a h = ground arith

propose_admin-SameBooks :
    (e : Env) (s s' : State) (a : Address) → propose_admin a e s ≡ ok (tt, s') → SameBooks s s'
unfolding propose_admin
propose_admin-SameBooks e s s' a h = ground arith

accept_admin-SameBooks :
    (e : Env) (s s' : State) (a : Address) → accept_admin a e s ≡ ok (tt, s') → SameBooks s s'
unfolding accept_admin
accept_admin-SameBooks e s s' a h = ground arith

upgrade-SameBooks :
    (e : Env) (s s' : State) (w : Hash) → upgrade w e s ≡ ok (tt, s') → SameBooks s s'
unfolding upgrade check_upgrade_approval
upgrade-SameBooks e s s' w h = ground arith

execute_governance_proposal-SameBooks :
    (e : Env) (s s' : State) (id : ℕ)
    → execute_governance_proposal id e s ≡ ok (tt, s')
    → SameBooks s s'
unfolding execute_governance_proposal check_governance_requirements try_governance_proposal
execute_governance_proposal-SameBooks e s s' id h = ground arith

set_governance_contract-SameBooks :
    (e : Env) (s s' : State) (a : Address)
    → set_governance_contract a e s ≡ ok (tt, s')
    → SameBooks s s'
unfolding set_governance_contract
set_governance_contract-SameBooks e s s' a h = ground arith

set_min_governance_version-SameBooks :
    (e : Env) (s s' : State) (n : ℕ)
    → set_min_governance_version n e s ≡ ok (tt, s')
    → SameBooks s s'
unfolding set_min_governance_version
set_min_governance_version-SameBooks e s s' n h = ground arith

set_circuitadmin-SameBooks :
    (e : Env) (s s' : State) (a : Address) (c : Option Address)
    → set_circuitadmin a c e s ≡ ok (tt, s')
    → SameBooks s s'
unfolding set_circuitadmin
set_circuitadmin-SameBooks e s s' a c h = ground arith

reset_circuit_breaker-SameBooks :
    (e : Env) (s s' : State) (a : Address)
    → reset_circuit_breaker a e s ≡ ok (tt, s')
    → SameBooks s s'
unfolding reset_circuit_breaker
reset_circuit_breaker-SameBooks e s s' a h = ground arith

configure_circuit_breaker-SameBooks :
    (e : Env) (s s' : State) (a : Address) (c : CircuitBreakerConfig)
    → configure_circuit_breaker a c e s ≡ ok (tt, s')
    → SameBooks s s'
unfolding configure_circuit_breaker
configure_circuit_breaker-SameBooks e s s' a c h = ground arith

emergency_open_circuit-SameBooks :
    (e : Env) (s s' : State) (a : Address)
    → emergency_open_circuit a e s ≡ ok (tt, s')
    → SameBooks s s'
unfolding emergency_open_circuit
emergency_open_circuit-SameBooks e s s' a h = ground arith

update_rate_limit_config-SameBooks :
    (e : Env) (s s' : State) (w m c : ℕ)
    → update_rate_limit_config w m c e s ≡ ok (tt, s')
    → SameBooks s s'
unfolding update_rate_limit_config check_governance_requirements
update_rate_limit_config-SameBooks e s s' w m c h = ground arith

set_whitelist-SameBooks :
    (e : Env) (s s' : State) (a : Address) (b : Bool)
    → set_whitelist a b e s ≡ ok (tt, s')
    → SameBooks s s'
unfolding set_whitelist
set_whitelist-SameBooks e s s' a b h = ground arith

set_whitelist_enforced-SameBooks :
    (e : Env) (s s' : State) (b : Bool)
    → set_whitelist_enforced b e s ≡ ok (tt, s')
    → SameBooks s s'
unfolding set_whitelist_enforced
set_whitelist_enforced-SameBooks e s s' b h = ground arith

set_rate_limit_whitelist-SameBooks :
    (e : Env) (s s' : State) (a : Address) (b : Bool)
    → set_rate_limit_whitelist a b e s ≡ ok (tt, s')
    → SameBooks s s'
unfolding set_rate_limit_whitelist
set_rate_limit_whitelist-SameBooks e s s' a b h = ground arith

set_large_payout_threshold-SameBooks :
    (e : Env) (s s' : State) (n : ℕ)
    → set_large_payout_threshold n e s ≡ ok (tt, s')
    → SameBooks s s'
unfolding set_large_payout_threshold
set_large_payout_threshold-SameBooks e s s' n h = ground arith

announce_pause-same :
    (e : Env) (s s' : State) (o : Operation) (v : Option Bool) (a : Address)
    → announce_pause o v a e s ≡ ok (tt, s')
    → SameBooks s s'
announce_pause-same e s s' o none a h = ground arith
announce_pause-same e s s' o (some b) a h = ground arith

set_paused-SameBooks :
    (e : Env) (s s' : State) (l r f : Option Bool)
    → set_paused l r f e s ≡ ok (tt, s')
    → SameBooks s s'
unfolding set_paused check_governance_requirements
set_paused-SameBooks e s s' l r f h = ground arith

set_fund_cap_config-SameBooks :
    (e : Env) (s s' : State) (t l : Option ℤ)
    → set_fund_cap_config t l e s ≡ ok (tt, s')
    → SameBooks s s'
unfolding set_fund_cap_config
set_fund_cap_config-SameBooks e s s' t l h = ground arith

open_dispute_at-SameBooks :
    (e : Env) (s s' : State) (k : DisputeScope) (r : Symbol)
    → open_dispute_at k r e s ≡ ok (tt, s')
    → SameBooks s s'
unfolding open_dispute_at
open_dispute_at-SameBooks e s s' global r h = ground arith
open_dispute_at-SameBooks e s s' (of_recipient a) r h = ground arith
open_dispute_at-SameBooks e s s' (of_schedule i) r h = ground arith

resolve_dispute_at-SameBooks :
    (e : Env) (s s' : State) (k : DisputeScope)
    → resolve_dispute_at k e s ≡ ok (tt, s')
    → SameBooks s s'
unfolding resolve_dispute_at
resolve_dispute_at-SameBooks e s s' global h = ground arith
resolve_dispute_at-SameBooks e s s' (of_recipient a) h = ground arith
resolve_dispute_at-SameBooks e s s' (of_schedule i) h = ground arith

cancel_dispute_at-SameBooks :
    (e : Env) (s s' : State) (k : DisputeScope)
    → cancel_dispute_at k e s ≡ ok (tt, s')
    → SameBooks s s'
unfolding cancel_dispute_at
cancel_dispute_at-SameBooks e s s' global h = ground arith
cancel_dispute_at-SameBooks e s s' (of_recipient a) h = ground arith
cancel_dispute_at-SameBooks e s s' (of_schedule i) h = ground arith

pub Quiet-SameBooks : (s s' : State) → Quiet s s' → SameBooks s s'
Quiet-SameBooks s s' (initialize_contract_call e a h) = initialize_contract-SameBooks e s s' a h
Quiet-SameBooks s s' (setadmin_call e a h) = setadmin-SameBooks e s s' a h
Quiet-SameBooks s s' (propose_admin_call e a h) = propose_admin-SameBooks e s s' a h
Quiet-SameBooks s s' (accept_admin_call e a h) = accept_admin-SameBooks e s s' a h
Quiet-SameBooks s s' (set_paused_call e l r f h) = set_paused-SameBooks e s s' l r f h
Quiet-SameBooks s s' (upgrade_call e w h) = upgrade-SameBooks e s s' w h
Quiet-SameBooks s s' (execute_governance_proposal_call e id h) =
    execute_governance_proposal-SameBooks e s s' id h
Quiet-SameBooks s s' (set_governance_contract_call e a h) =
    set_governance_contract-SameBooks e s s' a h
Quiet-SameBooks s s' (set_min_governance_version_call e n h) =
    set_min_governance_version-SameBooks e s s' n h
Quiet-SameBooks s s' (set_circuitadmin_call e a c h) = set_circuitadmin-SameBooks e s s' a c h
Quiet-SameBooks s s' (reset_circuit_breaker_call e a h) = reset_circuit_breaker-SameBooks e s s' a h
Quiet-SameBooks s s' (configure_circuit_breaker_call e a c h) =
    configure_circuit_breaker-SameBooks e s s' a c h
Quiet-SameBooks s s' (emergency_open_circuit_call e a h) =
    emergency_open_circuit-SameBooks e s s' a h
Quiet-SameBooks s s' (update_rate_limit_config_call e w m c h) =
    update_rate_limit_config-SameBooks e s s' w m c h
Quiet-SameBooks s s' (set_fund_cap_config_call e t l h) = set_fund_cap_config-SameBooks e s s' t l h
Quiet-SameBooks s s' (set_whitelist_call e a b h) = set_whitelist-SameBooks e s s' a b h
Quiet-SameBooks s s' (set_whitelist_enforced_call e b h) =
    set_whitelist_enforced-SameBooks e s s' b h
Quiet-SameBooks s s' (set_rate_limit_whitelist_call e a b h) =
    set_rate_limit_whitelist-SameBooks e s s' a b h
Quiet-SameBooks s s' (set_large_payout_threshold_call e n h) =
    set_large_payout_threshold-SameBooks e s s' n h
Quiet-SameBooks s s' (open_dispute_at_call e k r h) = open_dispute_at-SameBooks e s s' k r h
Quiet-SameBooks s s' (resolve_dispute_at_call e k h) = resolve_dispute_at-SameBooks e s s' k h
Quiet-SameBooks s s' (cancel_dispute_at_call e k h) = cancel_dispute_at-SameBooks e s s' k h
