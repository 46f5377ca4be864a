-- ===== src/Multisig/Replay.antt =====
-- What stops a second execution in the multisig of multisig.rs.
use grainlify_stellar_contra.Base.{ℕ, ◌≡◌, ◌≢◌, ◌≤◌, ◌<◌, refl, true, some, arith}
use grainlify_stellar_contra.Base.Host.{Env, ok, Outcome}
use grainlify_stellar_contra.Multisig.State.{State, MultiSigError, ProposalAction, Proposal, Call}
use grainlify_stellar_contra.Multisig.Operations.{
  check_execute, get_proposal, can_execute, execute, executed_with,
}
use grainlify_stellar_contra.Multisig.Effects.{
  Keeps, SameProposals, init-ok, propose-ok, approve-ok, execute-ok, remove_signer-SameProposals,
  add_signer-SameProposals, rotate_signers-SameProposals,
}
use grainlify_stellar_contra.Multisig.Steps.{
  Step, Steps, initialise, proposes, approves, executes, removes, adds, rotates, stay, next,
}
use grainlify_stellar_contra.Multisig.Soundness.{IsSound, IsEmpty, Step-IsSound, Steps-IsSound}

-- The proposal stays executed, and the nonce does not fall.
abbrev IsDone : State → State → ℕ → Type 0
IsDone s s' id =
    ((q : Proposal) × (s'.proposals id ≡ some q) × (q.executed ≡ true))
    × (s.execution_nonce ≤ s'.execution_nonce)

same-IsDone :
    (s s' : State) (id : ℕ) {p : Proposal}
    → s.proposals id ≡ some p
    → p.executed ≡ true
    → SameProposals s s'
    → IsDone s s' id
same-IsDone s s' id {p} f ex same =
    ((p, rw same.same_proposals f, ex), rw same.same_nonce (omega arith))

Step-IsDone :
    (s s' : State) (id : ℕ) {p : Proposal}
    → IsSound s
    → s.proposals id ≡ some p
    → p.executed ≡ true
    → Step s s'
    → IsDone s s' id
Step-IsDone s s' id sound f ex (initialise e as_ n h) =
    let (unset, _, _, _) = init-ok e s s' as_ n h in absurd (ground (arith, sound.unset unset id))
Step-IsDone s s' id {p} sound f ex (proposes e a act i h) =
    let (c, k, next_, count, w, same, same_nonce) = propose-ok e s s' a act h in
    let old = sound.counted id p f in ((p, ground arith, ex), omega arith)
Step-IsDone s s' id {p} sound f ex (approves e i a h) =
    let (q, g, _, _, open_, _, w, _, _, same_nonce) = approve-ok e s s' i a h in
    ((p, ground arith, ex), omega arith)
Step-IsDone s s' id {p} sound f ex (executes e i act n run keeps h) =
    let (q, g, fresh, _, now, next_, w, _, _) = execute-ok e s s' i act n run keeps h in
    ((p, ground arith, ex), omega arith)
Step-IsDone s s' id sound f ex (removes e a b h) =
    same-IsDone s s' id f ex (remove_signer-SameProposals e s s' a b h)
Step-IsDone s s' id sound f ex (adds e a b h) =
    same-IsDone s s' id f ex (add_signer-SameProposals e s s' a b h)
Step-IsDone s s' id sound f ex (rotates e a add remove n h) =
    let (same, _) = rotate_signers-SameProposals e s s' a add remove n h in
    same-IsDone s s' id f ex same

Steps-IsDone :
    {s s' : State} (id : ℕ) {p : Proposal}
    → IsSound s
    → s.proposals id ≡ some p
    → p.executed ≡ true
    → Steps s s'
    → IsSound s' × IsDone s s' id
Steps-IsDone id {p} sound f ex stay = (sound, ((p, f, ex), omega arith))
Steps-IsDone id sound f ex (next {t} {u} path step) =
    let (sound', ((q, g, done), low)) = Steps-IsDone id sound f ex path in
    let (last, low') = Step-IsDone t u id sound' g done step in
    (Step-IsSound t u step sound', (last, omega arith))

-- The call did not succeed.
abbrev pub Fails : {A : Type 0} → Outcome MultiSigError (A × State) → Type 0
Fails {A} o = (r : A × State) → o ≢ ok r

executed-Fails :
    (e : Env) (s : State) (id : ℕ) (act : ProposalAction) (n : ℕ) (run : Call (Unit {0}))
    {p : Proposal}
    → s.proposals id ≡ some p
    → p.executed ≡ true
    → Fails (execute id act n run e s)
unfolding execute check_execute get_proposal can_execute
executed-Fails e s id act n run f ex r h = ground arith

old_nonce-Fails :
    (e : Env) (s : State) (id : ℕ) (act : ProposalAction) (n : ℕ) (run : Call (Unit {0}))
    → n < s.execution_nonce
    → Fails (execute id act n run e s)
unfolding execute check_execute get_proposal can_execute
old_nonce-Fails e s id act n run low r h = ground arith

-- In every history that starts with nothing set up, after an `execute` that succeeds with a closure
-- that leaves the storage of the multisig alone, and whatever calls succeed after it, the proposal
-- is never executed again and no proposal is executed with the nonce that was used.
pub no_replay :
    (e e' : Env) (s0 s s' t : State) (id j : ℕ) (act act' act'' : ProposalAction) (n m : ℕ)
    (run run' run'' : Call (Unit {0}))
    → IsEmpty s0
    → Steps s0 s
    → Keeps e run
    → execute id act n run e s ≡ ok (tt, s')
    → Steps s' t
    → Fails (execute id act' m run' e' t) × Fails (execute j act'' n run'' e' t)
no_replay e e' s0 s s' t id j act act' act'' n m run run' run'' start before keeps h path =
    let (p, f, _, _, _, next_, w, _, _) = execute-ok e s s' id act n run keeps h in
    let sound = Steps-IsSound start (next before (executes e id act n run keeps h)) in
    let (_, ((q, g, done), low)) =
      Steps-IsDone id {p = executed_with p n} sound (ground arith) refl path in
    (executed-Fails e' t id act' m run' g done, old_nonce-Fails e' t j act'' n run'' (omega arith))
