-- ===== src/Multisig/Effects.antt =====
-- What the functions of multisig.rs leave of the configuration, the proposals and the nonce.
use grainlify_stellar_contra.Base.{
  ℕ, ◌+◌, ◌≡◌, ◌≤◌, true, false, Option, some, none, List, arith, inl, inr, Option-cases, contains,
  length, insert, [], ◌∷◌, push_back,
}
use grainlify_stellar_contra.Base.Host.{Address, Env, ok, Outcome-cases}
use grainlify_stellar_contra.Multisig.State.{
  State, MultiSigConfig, ProposalAction, upgrade, Proposal, Call,
}
use grainlify_stellar_contra.Multisig.Operations.{
  init, get_config, get_proposal, can_execute, propose, new_proposal, approve, approved_by,
  check_execute, mark_executed, executed_with, execute, remove_signer, add_signer, remove_each,
  add_each, rotate_signers, without,
}

-- The proposals, their counter and the nonce are as they were.
pub record SameProposals (s s' : State) : Type 0 where
  pub same_proposals : s'.proposals ≡ s.proposals
  pub same_counter : s'.proposal_counter ≡ s.proposal_counter
  pub same_nonce : s'.execution_nonce ≡ s.execution_nonce

-- A closure that leaves the multisig's storage alone, as the update of the code does.
abbrev pub Keeps : Env → Call (Unit {0}) → Type 0
Keeps e action = (s t : State) → action e s ≡ ok (tt, t) → t ≡ s

pub propose-ok :
    (e : Env) (s s' : State) (a : Address) (act : ProposalAction) {id : ℕ}
    → propose a act e s ≡ ok (id, s')
    → (c : MultiSigConfig) × (s.config ≡ some c)
      × (id ≡ s.proposal_counter + 1)
      × (s'.proposal_counter ≡ id)
      × (s'.proposals ≡ insert id (new_proposal act c) s.proposals)
      × (s'.config ≡ s.config)
      × (s'.execution_nonce ≡ s.execution_nonce)
unfolding propose get_config
propose-ok e s s' a (upgrade w) h = elim (Option-cases s.config) [
  | inl missing ↦ absurd (ground arith)
  | inr (c, k) ↦ (c, k, ground arith, ground arith, ground arith, ground arith, ground arith)
]

pub approve-ok :
    (e : Env) (s s' : State) (id : ℕ) (a : Address)
    → approve id a e s ≡ ok (tt, s')
    → (p : Proposal) × (s.proposals id ≡ some p)
      × (e.authorized a ≡ true)
      × (contains p.signers a ≡ true)
      × (p.executed ≡ false)
      × (contains p.approvals a ≡ false)
      × (s'.proposals ≡ insert id (approved_by p a) s.proposals)
      × (s'.config ≡ s.config)
      × (s'.proposal_counter ≡ s.proposal_counter)
      × (s'.execution_nonce ≡ s.execution_nonce)
unfolding approve get_proposal
approve-ok e s s' id a h = elim (Option-cases (s.proposals id)) [
  | inl missing ↦ absurd (ground arith)
  | inr (p, k) ↦ (
    p,
    k,
    ground arith,
    ground arith,
    ground arith,
    ground arith,
    ground arith,
    ground arith,
    ground arith,
    ground arith,
  )
]

-- An `execute` that succeeds found the proposal unexecuted and approved often enough, and the nonce
-- the one expected; it marks the proposal and moves the nonce on.
pub execute-ok :
    (e : Env) (s s' : State) (id : ℕ) (act : ProposalAction) (n : ℕ) (run : Call (Unit {0}))
    → Keeps e run
    → execute id act n run e s ≡ ok (tt, s')
    → (p : Proposal) × (s.proposals id ≡ some p)
      × (p.executed ≡ false)
      × (p.threshold ≤ length p.approvals)
      × (n ≡ s.execution_nonce)
      × (s'.execution_nonce ≡ n + 1)
      × (s'.proposals ≡ insert id (executed_with p n) s.proposals)
      × (s'.config ≡ s.config)
      × (s'.proposal_counter ≡ s.proposal_counter)
unfolding execute check_execute mark_executed get_proposal can_execute
execute-ok e s s' id act n run keeps h = elim (Option-cases (s.proposals id)) [
  | inl missing ↦ absurd (ground arith)
  | inr (p, k) ↦ elim (Outcome-cases (run e s)) [
    | inr (inl (x, failed)) ↦ absurd (ground arith)
    | inr (inr (x, failed)) ↦ absurd (ground arith)
    | inl (x, ran) ↦
        let same = keeps s x.1 ran in
        (
          p,
          k,
          ground arith,
          ground arith,
          ground arith,
          ground arith,
          ground arith,
          ground arith,
          ground arith,
        )
  ]
]

pub remove_signer-SameProposals :
    (e : Env) (s s' : State) (a b : Address)
    → remove_signer a b e s ≡ ok (tt, s')
    → SameProposals s s'
unfolding remove_signer get_config
remove_signer-SameProposals e s s' a b h = record {
  same_proposals = ground arith;
  same_counter = ground arith;
  same_nonce = ground arith;
}

pub add_signer-SameProposals :
    (e : Env) (s s' : State) (a b : Address) → add_signer a b e s ≡ ok (tt, s') → SameProposals s s'
unfolding add_signer get_config
add_signer-SameProposals e s s' a b h = record {
  same_proposals = ground arith;
  same_counter = ground arith;
  same_nonce = ground arith;
}

remove_each-same :
    (e : Env) (s : State) (signers as_ : List Address) {r : List Address × State}
    → remove_each signers as_ e s ≡ ok r
    → r.1 ≡ s
unfolding remove_each
remove_each-same e s signers [] h = cc
remove_each-same e s signers (a ∷ as_) {r} h =
    remove_each-same e s (without a signers) as_ {r = r} (ground arith)

add_each-same :
    (e : Env) (s : State) (signers as_ : List Address) {r : List Address × State}
    → add_each signers as_ e s ≡ ok r
    → r.1 ≡ s
unfolding add_each
add_each-same e s signers [] h = cc
add_each-same e s signers (a ∷ as_) {r} h =
    add_each-same e s (push_back signers a) as_ {r = r} (ground arith)

-- A `rotate_signers` that succeeds leaves some configuration, and the proposals alone.
pub rotate_signers-SameProposals :
    (e : Env) (s s' : State) (a : Address) (added removed : List Address) (n : Option ℕ)
    → rotate_signers a added removed n e s ≡ ok (tt, s')
    → SameProposals s s' × ((c : MultiSigConfig) × (s.config ≡ some c))
unfolding rotate_signers get_config
rotate_signers-SameProposals e s s' a added removed n h = elim (Option-cases s.config) [
  | inl missing ↦ absurd (ground arith)
  | inr (c, k) ↦ elim (Outcome-cases (remove_each c.signers removed e s)) [
    | inr (inl (x, failed)) ↦ absurd (ground arith)
    | inr (inr (x, failed)) ↦ absurd (ground arith)
    | inl (fewer, removes) ↦
        let same = remove_each-same e s c.signers removed removes in
        elim (Outcome-cases (add_each fewer.0 added e s)) [
          | inr (inl (x, failed)) ↦ absurd (ground arith)
          | inr (inr (x, failed)) ↦ absurd (ground arith)
          | inl (all, adds) ↦
              let same' = add_each-same e s fewer.0 added adds in
              (
                record {
                  same_proposals = ground arith;
                  same_counter = ground arith;
                  same_nonce = ground arith;
                },
                (c, k),
              )
        ]
  ]
]

pub init-ok :
    (e : Env) (s s' : State) (as_ : List Address) (n : ℕ)
    → init as_ n e s ≡ ok (tt, s')
    → (s.config ≡ none)
      × (s'.proposals ≡ s.proposals)
      × (s'.proposal_counter ≡ 0)
      × (s'.execution_nonce ≡ 0)
unfolding init
init-ok e s s' as_ n h = (ground arith, ground arith, ground arith, ground arith)

pub remove_signer-configured :
    (e : Env) (s s' : State) (a b : Address)
    → remove_signer a b e s ≡ ok (tt, s')
    → (c : MultiSigConfig) × (s.config ≡ some c)
unfolding remove_signer get_config
remove_signer-configured e s s' a b h = elim (Option-cases s.config) [
  | inl missing ↦ absurd (ground arith)
  | inr (c, k) ↦ (c, k)
]

pub add_signer-configured :
    (e : Env) (s s' : State) (a b : Address)
    → add_signer a b e s ≡ ok (tt, s')
    → (c : MultiSigConfig) × (s.config ≡ some c)
unfolding add_signer get_config
add_signer-configured e s s' a b h = elim (Option-cases s.config) [
  | inl missing ↦ absurd (ground arith)
  | inr (c, k) ↦ (c, k)
]
