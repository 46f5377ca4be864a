-- ===== src/Governance/Safety.antt =====
-- What a governance proposal of governance.rs goes through: one vote for each voter, the delay before
-- it is executed, and what finalising it again does.
use grainlify_stellar_contra.Base.{ℕ, ◌≡◌, ◌≢◌, ◌≤◌, refl, true, some, arith, is_some}
use grainlify_stellar_contra.Base.Int.{saturating_add_u64}
use grainlify_stellar_contra.Base.Host.{Address, Env, ok, Outcome}
use grainlify_stellar_contra.Governance.State.{
  State, Error, Proposal, VoteType, ProposalStatus, approved, cancelled, executed,
}
use grainlify_stellar_contra.Governance.Proposals.{
  get_proposal, with_status, proposal_of, cancel_proposal,
}
use grainlify_stellar_contra.Governance.Voting.{cast_vote, finalize_proposal}
use grainlify_stellar_contra.Governance.Execution.{execute_proposal}
use grainlify_stellar_contra.Governance.Effects.{
  finalize_proposal-ok, finalize_proposal-ignores_status, execute_proposal-ok,
  execute_proposal-runs,
}
use grainlify_stellar_contra.Governance.Steps.{Steps, Steps-keeps_vote}

-- The call did not succeed.
abbrev pub Fails : {A : Type 0} → Outcome Error (A × State) → Type 0
Fails {A} o = (r : A × State) → o ≢ ok r

cast_vote-votes :
    (e : Env) (s s' : State) (a : Address) (id : ℕ) (v : VoteType)
    → cast_vote a id v e s ≡ ok (tt, s')
    → is_some (s'.votes id a) ≡ true
unfolding cast_vote get_proposal
cast_vote-votes e s s' a id v h = ground arith

cast_vote_again :
    (e : Env) (s : State) (a : Address) (id : ℕ) (v : VoteType)
    → is_some (s.votes id a) ≡ true
    → Fails (cast_vote a id v e s)
unfolding cast_vote get_proposal
cast_vote_again e s a id v k r h = ground arith

cancel_proposal-ok :
    (e : Env) (s s' : State) (caller : Address) (id : ℕ) {p : Proposal}
    → proposal_of s id ≡ some p
    → cancel_proposal caller id e s ≡ ok (tt, s')
    → (proposal_of s' id ≡ some (with_status cancelled p))
      × (s'.governance_config ≡ s.governance_config)
unfolding cancel_proposal get_proposal
cancel_proposal-ok e s s' caller id found h = ground arith

-- Once an address has voted on a proposal, no `cast_vote` of it on that proposal succeeds, whatever
-- calls succeed in between and whichever way it votes.
pub one_vote_each :
    (e e' : Env) (s s' t : State) (a : Address) (id : ℕ) (v w : VoteType)
    → cast_vote a id v e s ≡ ok (tt, s')
    → Steps s' t
    → Fails (cast_vote a id w e' t)
one_vote_each e e' s s' t a id v w h path =
    cast_vote_again e' t a id w (Steps-keeps_vote id a path (cast_vote-votes e s s' a id v h))

-- Where `finalize_proposal` succeeds before a `cancel_proposal` that succeeds, it succeeds after it
-- with the same verdict, and overwrites the cancellation.
pub finalize_after_cancel :
    (e e' : Env) (s s' t : State) (caller : Address) (id : ℕ) {v : ProposalStatus}
    → cancel_proposal caller id e s ≡ ok (tt, s')
    → finalize_proposal id e' s ≡ ok (v, t)
    → (t' : State) × (p : Proposal) × (finalize_proposal id e' s' ≡ ok (v, t'))
      × (proposal_of t' id ≡ some p)
      × (p.status ≡ v)
finalize_after_cancel e e' s s' t caller id {v} h k =
    let (p, c, found, _, _, _, _) = finalize_proposal-ok e' s t id k in
    let (cancelled_, same) = cancel_proposal-ok e s s' caller id found h in
    let again = finalize_proposal-ignores_status e' s t s' id cancelled found cancelled_ same k in
    (_, with_status v p, again, ground arith, refl)

-- A proposal that `finalize_proposal` approved and `execute_proposal` executed can be finalised as
-- approved and executed again, in the same circumstances: finalising does not look at the status.
pub executed_twice :
    (e e' : Env) (s s1 s2 : State) (id : ℕ)
    → finalize_proposal id e s ≡ ok (approved, s1)
    → execute_proposal id e' s1 ≡ ok (tt, s2)
    → (s3 : State) × (s4 : State) × (finalize_proposal id e s2 ≡ ok (approved, s3))
      × (execute_proposal id e' s3 ≡ ok (tt, s4))
executed_twice e e' s s1 s2 id h k =
    let (p, c, found, _, _, _, written) = finalize_proposal-ok e s s1 id h in
    let (q, found', _, late, written') = execute_proposal-ok e' s1 s2 id k in
    let is_p : q ≡ with_status approved p = ground arith in
    let again =
      finalize_proposal-ignores_status e s s1 s2 id executed found (ground arith) (ground arith)
        h in
    (
      _,
      _,
      again,
      execute_proposal-runs e' _ id {p = with_status approved p} (ground arith) refl (ground arith),
    )

-- `execute_proposal` succeeds only on a proposal that is approved, once its end of voting plus its
-- delay, a sum that stops at the top of u64, is not after the present time, and leaves it executed.
pub execute_proposal-timelock :
    (e : Env) (s s' : State) (id : ℕ)
    → execute_proposal id e s ≡ ok (tt, s')
    → (p : Proposal) × (proposal_of s id ≡ some p)
      × (p.status ≡ approved)
      × (saturating_add_u64 p.voting_end p.execution_delay ≤ e.timestamp)
      × (proposal_of s' id ≡ some (with_status executed p))
execute_proposal-timelock e s s' id h =
    let (p, found, is_approved_, late, written) = execute_proposal-ok e s s' id h in
    (p, found, is_approved_, late, ground arith)
