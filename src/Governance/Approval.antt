-- ===== src/Governance/Approval.antt =====
-- When a vote passes, for governance.rs: `finalize_proposal` against the two thresholds written without
-- division, and `is_upgrade_approved` against the proposals it is about.
use grainlify_stellar_contra.Base.{
  ℕ, zero, suc, ◌+◌, ◌*◌, ◌≡◌, ◌≤◌, ◌<◌, ◌⊎◌, ◌↔◌, true, false, some, none, refl, Option, Map,
  arith, Option-cases, Bool-cases, inl, inr, ◌==◌,
}
use grainlify_stellar_contra.Base.Int.{
  pos, saturating_add_u64, ◌+ℤ◌, ◌*ℤ◌, ltb_ℤ, checked_add, checked_mul, quot,
}
use grainlify_stellar_contra.Base.Host.{Hash, Env, ok}
use native.Mathlib.Nat.{le-div_iff_mul-le}
use grainlify_stellar_contra.Governance.State.{
  State, Proposal, GovernanceConfig, ProposalStatus, approved, rejected, executed,
}
use grainlify_stellar_contra.Governance.Proposals.{total_voting_power, proposal_of}
use grainlify_stellar_contra.Governance.Voting.{judge, judge_approval, finalize_proposal}
use grainlify_stellar_contra.Governance.Execution.{
  is_executed, grants, scan_proposals, is_upgrade_approved,
}
use grainlify_stellar_contra.Governance.Effects.{finalize_proposal-ok}

-- The tallies are not negative.
pub record IsTallied (p : Proposal) : Type 0 where
  pub for_count : ℕ
  pub against_count : ℕ
  pub abstain_count : ℕ
  pub for_is : p.votes_for ≡ pos for_count
  pub against_is : p.votes_against ≡ pos against_count
  pub abstain_is : p.votes_abstain ≡ pos abstain_count

-- Of the votes that take sides, enough are for the proposal: the threshold is in basis points.
abbrev pub IsCarried : ℕ → (f a : ℕ) → Type 0
IsCarried threshold f a = (0 < f + a) × (threshold * (f + a) ≤ f * 10000)

-- Enough of the voting power was cast.
abbrev pub IsQuorate : ℕ → (power cast : ℕ) → Type 0
IsQuorate quorum power cast = quorum * power ≤ cast * 10000

checked_add-pos :
    (a b : ℕ)
    → (checked_add (pos a) (pos b) ≡ none) ⊎ (checked_add (pos a) (pos b) ≡ some (pos (a + b)))
unfolding checked_add ◌+ℤ◌
checked_add-pos a b = ground arith

checked_mul-pos :
    (a b : ℕ)
    → (checked_mul (pos a) (pos b) ≡ none) ⊎ (checked_mul (pos a) (pos b) ≡ some (pos (a * b)))
unfolding checked_mul ◌*ℤ◌
checked_mul-pos a b = ground arith

-- The test of a rounded quotient against a bound needs no division.
ltb_quot :
    (x n q : ℕ)
    → 0 < n
    → (ltb_ℤ (quot (pos x) (pos n)) (pos q) ≡ true × (x < q * n))
      ⊎ (ltb_ℤ (quot (pos x) (pos n)) (pos q) ≡ false × (q * n ≤ x))
unfolding quot
ltb_quot x n q h = ground (arith, le-div_iff_mul-le {k = n} {x = q} {y = x} h)

-- `scan_proposals` finds a proposal exactly if one of those it looks at is granted.
scan_finds :
    (m : Map Proposal) (h : Hash) (now k i j : ℕ)
    → i ≤ j
    → j < i + k
    → grants h now (m j) ≡ true
    → scan_proposals m h now k i ≡ true
unfolding scan_proposals
scan_finds m h now zero i j low high g = absurd (omega arith)
scan_finds m h now (suc k) i j low high g = elim (Bool-cases (i == j)) [
  | inl same ↦ ground arith
  | inr other ↦ ground (arith, scan_finds m h now k (i + 1) j (ground arith) (ground arith) g)
]

scan_found :
    (m : Map Proposal) (h : Hash) (now k i : ℕ)
    → scan_proposals m h now k i ≡ true
    → (j : ℕ) × (j < i + k) × (grants h now (m j) ≡ true)
unfolding scan_proposals
scan_found m h now zero i found = absurd (ground arith)
scan_found m h now (suc k) i found = elim (Bool-cases (grants h now (m i))) [
  | inl here ↦ (i, omega arith, here)
  | inr later ↦
      let (j, high, g) = scan_found m h now k (i + 1) (ground arith) in (j, omega arith, g)
]

-- A proposal that lets the code `h` be installed at `now`: it carries the hash, it is executed, and
-- its delay after the vote, a sum that stops at the top of `u64`, is over.
pub record Permits (h : Hash) (now : ℕ) (p : Proposal) : Type 0 where
  pub carries : p.new_wasm_hash ≡ h
  pub done : p.status ≡ executed
  pub delayed : saturating_add_u64 p.voting_end p.execution_delay ≤ now

is_executed-eq_true : (v : ProposalStatus) → is_executed v ≡ true → v ≡ executed
is_executed-eq_true v h = ground arith

grants-Permits :
    (h : Hash) (now : ℕ) (o : Option Proposal)
    → grants h now o ≡ true
    → (p : Proposal) × (o ≡ some p) × Permits h now p
grants-Permits h now none g = absurd (ground arith)
grants-Permits h now (some p) g = (
  p,
  refl,
  record {
    carries = ground arith;
    done = is_executed-eq_true p.status (ground arith);
    delayed = ground arith;
  },
)

Permits-grants :
    (h : Hash) (now : ℕ) {o : Option Proposal} (p : Proposal)
    → o ≡ some p
    → Permits h now p
    → grants h now o ≡ true
Permits-grants h now p found k = rw (found, k.done) (ground (arith, k.carries, k.delayed))

-- `is_upgrade_approved` answers yes exactly if some proposal, of an identifier below the number of
-- proposals, carries the hash, has the status executed, and its end of voting plus its delay, a sum
-- that stops at the top of u64, is not after the present time.
pub is_upgrade_approved_iff :
    (h : Hash) (e : Env) (s : State)
    → (is_upgrade_approved h e s ≡ true) ↔ (
        (id : ℕ) × (p : Proposal) × (id < s.proposal_count)
        × (proposal_of s id ≡ some p)
        × Permits h e.timestamp p)
unfolding is_upgrade_approved
is_upgrade_approved_iff h e s = elim (Option-cases s.proposals) [
  | inl missing ↦ (λ yes. absurd (ground arith), λ (id, p, high, found, k). absurd (ground arith))
  | inr (m, stored) ↦ (
    λ yes.
        let (j, high, g) = scan_found m h e.timestamp s.proposal_count 0 (ground arith) in
        let (p, found, k) = grants-Permits h e.timestamp (m j) g in
        (j, p, ground arith, ground arith, k),
    λ (id, p, high, there, k).
        let g : grants h e.timestamp (m id) ≡ true =
          Permits-grants h e.timestamp p (ground arith) k in
        let found =
          scan_finds m h e.timestamp s.proposal_count 0 id (omega arith) (ground arith) g in
        ground arith,
  )
]

-- The verdict on tallies that met the quorum.
judge_approval-verdict :
    (c : GovernanceConfig) (p : Proposal) (e : Env) (s s' : State) {v : ProposalStatus}
    (t : IsTallied p)
    → judge_approval c p e s ≡ ok (v, s')
    → ((v ≡ approved) × IsCarried c.approval_threshold t.for_count t.against_count)
      ⊎ ((v ≡ rejected) × ¬ IsCarried c.approval_threshold t.for_count t.against_count)
unfolding judge_approval
judge_approval-verdict c p e s s' t h =
    let f = t.for_count in
    let n = f + t.against_count in
    let sides : (checked_add p.votes_for p.votes_against ≡ none)
        ⊎ (checked_add p.votes_for p.votes_against ≡ some (pos n)) =
      rw (t.for_is, t.against_is) (checked_add-pos f t.against_count) in
    let scaled : (checked_mul p.votes_for (pos 10000) ≡ none)
        ⊎ (checked_mul p.votes_for (pos 10000) ≡ some (pos (f * 10000))) =
      rw t.for_is (checked_mul-pos f 10000) in
    elim (Bool-cases (n == 0)) [
      | inl nobody ↦ inr (ground arith, λ k. ground arith)
      | inr somebody ↦ elim (ltb_quot (f * 10000) n c.approval_threshold (ground arith)) [
        | inl (below, less) ↦ inr (ground arith, λ k. omega arith)
        | inr (above, enough) ↦ inl (ground arith, ground arith)
      ]
    ]

-- The verdict on a proposal.
pub judge-verdict :
    (c : GovernanceConfig) (p : Proposal) (e : Env) (s s' : State) {v : ProposalStatus} {power : ℕ}
    (t : IsTallied p)
    → total_voting_power c ≡ pos power
    → judge c p e s ≡ ok (v, s')
    → ((v ≡ approved)
        × IsQuorate c.quorum_percentage power (t.for_count + t.against_count + t.abstain_count)
        × IsCarried c.approval_threshold t.for_count t.against_count)
      ⊎ ((v ≡ rejected)
          × ¬ (
              IsQuorate c.quorum_percentage power (t.for_count + t.against_count + t.abstain_count)
              × IsCarried c.approval_threshold t.for_count t.against_count))
unfolding judge
judge-verdict c p e s s' {v} {power} t total h =
    let n = t.for_count + t.against_count in
    let cast = n + t.abstain_count in
    let sides : (checked_add p.votes_for p.votes_against ≡ none)
        ⊎ (checked_add p.votes_for p.votes_against ≡ some (pos n)) =
      rw (t.for_is, t.against_is) (checked_add-pos t.for_count t.against_count) in
    let all : (checked_add (pos n) p.votes_abstain ≡ none)
        ⊎ (checked_add (pos n) p.votes_abstain ≡ some (pos cast)) =
      rw t.abstain_is (checked_add-pos n t.abstain_count) in
    let scaled = checked_mul-pos cast 10000 in
    let powered : 0 < power = ground arith in
    elim (ltb_quot (cast * 10000) power c.quorum_percentage powered) [
      | inl (below, less) ↦ inr (ground arith, λ (k, _). omega arith)
      | inr (above, enough) ↦
          let judged : judge_approval c p e s ≡ ok (v, s') = ground arith in
          elim (judge_approval-verdict c p e s s' t judged) [
            | inl (verdict, carried) ↦ inl (verdict, enough, carried)
            | inr (verdict, lost) ↦ inr (verdict, λ (_, k). lost k)
          ]
    ]

-- A `finalize_proposal` that succeeds, on tallies that are not negative and with a voting power
-- that is a natural number, returns approved exactly if quorum and threshold are met, written
-- without division, and rejected otherwise.
pub finalize_proposal-verdict :
    (e : Env) (s s' : State) (id : ℕ) {v : ProposalStatus} {p : Proposal} {c : GovernanceConfig}
    {power : ℕ} (t : IsTallied p)
    → proposal_of s id ≡ some p
    → s.governance_config ≡ some c
    → total_voting_power c ≡ pos power
    → finalize_proposal id e s ≡ ok (v, s')
    → ((v ≡ approved)
        × IsQuorate c.quorum_percentage power (t.for_count + t.against_count + t.abstain_count)
        × IsCarried c.approval_threshold t.for_count t.against_count)
      ⊎ ((v ≡ rejected)
          × ¬ (
              IsQuorate c.quorum_percentage power (t.for_count + t.against_count + t.abstain_count)
              × IsCarried c.approval_threshold t.for_count t.against_count))
finalize_proposal-verdict e s s' id {v} {p} {c} t found configured total h =
    let (q, d, found', configured', _, judged, _) = finalize_proposal-ok e s s' id h in
    let one : q ≡ p = cc in
    let same : d ≡ c = cc in
    let judged' : judge c p e s ≡ ok (v, s) = rw (← one, ← same) judged in
    judge-verdict c p e s s t total judged'
