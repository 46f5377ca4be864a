-- ===== src/Multisig/Soundness.antt =====
-- What every history of the multisig of multisig.rs keeps.
use grainlify_stellar_contra.Base.{
  ℕ, ◌≡◌, ◌≤◌, ◌<◌, refl, true, false, some, none, arith, inl, inr, Option-cases, Bool-cases,
  contains, length, insert, ◌==◌, IsDistinct, push_back-IsDistinct, contains-push_back,
}
use grainlify_stellar_contra.Base.Host.{Address}
use grainlify_stellar_contra.Multisig.State.{State, MultiSigConfig, Proposal}
use grainlify_stellar_contra.Multisig.Operations.{approved_by}
use grainlify_stellar_contra.Multisig.Viability.{
  IsViable, init-IsViable, remove_signer-IsViable, add_signer-IsViable, rotate_signers-IsViable,
}
use grainlify_stellar_contra.Multisig.Effects.{
  SameProposals, init-ok, propose-ok, approve-ok, execute-ok, remove_signer-SameProposals,
  add_signer-SameProposals, rotate_signers-SameProposals, remove_signer-configured,
  add_signer-configured,
}
use grainlify_stellar_contra.Multisig.Steps.{
  Step, Steps, initialise, proposes, approves, executes, removes, adds, rotates, stay, next,
}

-- The approvals are those of distinct signers of the proposal.
pub record IsBacked (p : Proposal) : Type 0 where
  pub distinct : IsDistinct p.approvals
  pub signers : (a : Address) → contains p.approvals a ≡ true → contains p.signers a ≡ true

-- An executed proposal was approved often enough, under a nonce below `limit`.
abbrev pub IsSettled : ℕ → Proposal → Type 0
IsSettled limit p =
    p.executed ≡ true
    → (p.threshold ≤ length p.approvals) × ((n : ℕ) × (p.executed_nonce ≡ some n) × (n < limit))

pub record IsSound (s : State) : Type 0 where
  pub viable : (c : MultiSigConfig) → s.config ≡ some c → IsViable c
  pub unset : s.config ≡ none → (id : ℕ) → s.proposals id ≡ none
  pub counted : (id : ℕ) (p : Proposal) → s.proposals id ≡ some p → id ≤ s.proposal_counter
  pub backed : (id : ℕ) (p : Proposal) → s.proposals id ≡ some p → IsBacked p
  pub settled : (id : ℕ) (p : Proposal) → s.proposals id ≡ some p → IsSettled s.execution_nonce p

-- A change of the signers alone keeps the storage sound.
rotated-IsSound :
    (s s' : State) {c c' : MultiSigConfig}
    → IsSound s
    → SameProposals s s'
    → s.config ≡ some c
    → s'.config ≡ some c'
    → IsViable c'
    → IsSound s'
rotated-IsSound s s' {c} {c'} sound same k k' v = record {
  viable = λ d j. let one : c' ≡ d = cc in rw (← one) v;
  unset = λ j. absurd (ground arith);
  counted = λ id p f. rw same.same_counter (sound.counted id p (rw same.same_proposals at f));
  backed = λ id p f. sound.backed id p (rw same.same_proposals at f);
  settled = λ id p f. rw same.same_nonce (sound.settled id p (rw same.same_proposals at f));
}

-- So does writing one proposal, if it is backed and settled and the nonce does not fall.
written-IsSound :
    (s s' : State) (id : ℕ) (q : Proposal) {c : MultiSigConfig}
    → IsSound s
    → s.config ≡ some c
    → s'.config ≡ s.config
    → s'.proposals ≡ insert id q s.proposals
    → s.proposal_counter ≤ s'.proposal_counter
    → id ≤ s'.proposal_counter
    → s.execution_nonce ≤ s'.execution_nonce
    → IsBacked q
    → IsSettled s'.execution_nonce q
    → IsSound s'
written-IsSound s s' id q sound k same w above bound later b t = record {
  viable = λ d j. sound.viable d (rw same at j);
  unset = λ j. absurd (ground arith);
  counted = λ i p f. elim (Bool-cases (i == id)) [
    | inl here ↦ ground arith
    | inr other ↦ ground (arith, sound.counted i p (ground arith))
  ];
  backed = λ i p f. elim (Bool-cases (i == id)) [
    | inl here ↦ let one : q ≡ p = ground arith in rw (← one) b
    | inr other ↦ sound.backed i p (ground arith)
  ];
  settled = λ i p f ex. elim (Bool-cases (i == id)) [
    | inl here ↦
        let one : q ≡ p = ground arith in
        let moved : IsSettled s'.execution_nonce p = rw (← one) t in moved ex
    | inr other ↦
        let (enough, (n, used, low)) = sound.settled i p (ground arith) ex in
        (enough, (n, used, omega arith))
  ];
}

approved_by-IsBacked :
    (p : Proposal) (a : Address)
    → contains p.signers a ≡ true
    → contains p.approvals a ≡ false
    → IsBacked p
    → IsBacked (approved_by p a)
approved_by-IsBacked p a member fresh b = record {
  distinct = push_back-IsDistinct p.approvals a b.distinct fresh;
  signers = λ x h. ground (arith, contains-push_back p.approvals x a, b.signers x);
}

pub Step-IsSound : (s s' : State) → Step s s' → IsSound s → IsSound s'
Step-IsSound s s' (initialise e as_ n h) sound =
    let (c, k, v) = init-IsViable e s s' as_ n h in
    let (unset, same, _, _) = init-ok e s s' as_ n h in
    let nothing = sound.unset unset in
    record {
      viable = λ d j. let one : c ≡ d = cc in rw (← one) v;
      unset = λ j. absurd (ground arith);
      counted = λ id p f. absurd (ground (arith, nothing id));
      backed = λ id p f. absurd (ground (arith, nothing id));
      settled = λ id p f. absurd (ground (arith, nothing id));
    }
Step-IsSound s s' (proposes e a act id h) sound =
    let (c, k, next_, count, w, same, same_nonce) = propose-ok e s s' a act h in
    written-IsSound s s' id _ sound k same w (omega arith) (omega arith) (omega arith)
      (record { distinct = tt; signers = λ x h. absurd (ground arith) })
      (λ ex. absurd (ground arith))
Step-IsSound s s' (approves e id a h) sound =
    let (p, f, _, member, open_, fresh, w, same, count, same_nonce) = approve-ok e s s' id a h in
    elim (Option-cases s.config) [
      | inl missing ↦ absurd (ground (arith, sound.unset missing id))
      | inr (c, k) ↦
          written-IsSound s s' id _ sound k same w (omega arith)
            (omega (arith, sound.counted id p f)) (omega arith)
            (approved_by-IsBacked p a member fresh (sound.backed id p f))
            (λ ex. absurd (ground arith))
    ]
Step-IsSound s s' (executes e id act n run keeps h) sound =
    let (p, f, fresh, enough, now, next_, w, same, count) =
      execute-ok e s s' id act n run keeps h in
    let b = sound.backed id p f in
    elim (Option-cases s.config) [
      | inl missing ↦ absurd (ground (arith, sound.unset missing id))
      | inr (c, k) ↦
          written-IsSound s s' id _ sound k same w (omega arith)
            (omega (arith, sound.counted id p f)) (omega arith)
            (record { distinct = b.distinct; signers = b.signers })
            (λ ex. (enough, (n, refl, omega arith)))
    ]
Step-IsSound s s' (removes e a b h) sound =
    let (c, k) = remove_signer-configured e s s' a b h in
    let (c', k', v, _, _) = remove_signer-IsViable e s s' a b k (sound.viable c k) h in
    rotated-IsSound s s' sound (remove_signer-SameProposals e s s' a b h) k k' v
Step-IsSound s s' (adds e a b h) sound =
    let (c, k) = add_signer-configured e s s' a b h in
    let (c', k', v, _, _) = add_signer-IsViable e s s' a b k (sound.viable c k) h in
    rotated-IsSound s s' sound (add_signer-SameProposals e s s' a b h) k k' v
Step-IsSound s s' (rotates e a add remove n h) sound =
    let (same, (c, k)) = rotate_signers-SameProposals e s s' a add remove n h in
    let (c', k', v) = rotate_signers-IsViable e s s' a add remove n k (sound.viable c k) h in
    rotated-IsSound s s' sound same k k' v

-- The storage before anything was set up.
abbrev pub IsEmpty : State → Type 0
IsEmpty s = (s.config ≡ none) × ((id : ℕ) → s.proposals id ≡ none)

pub Steps-IsSound : {s s' : State} → IsEmpty s → Steps s s' → IsSound s'
Steps-IsSound {s} (unset, nothing) stay = record {
  viable = λ c k. absurd cc;
  unset = λ _. nothing;
  counted = λ id p f. absurd (ground (arith, nothing id));
  backed = λ id p f. absurd (ground (arith, nothing id));
  settled = λ id p f. absurd (ground (arith, nothing id));
}
Steps-IsSound start (next {t} {u} path step) = Step-IsSound t u step (Steps-IsSound start path)

-- In every history that starts with nothing set up, the signers of the configuration are distinct,
-- and the threshold is positive and no more than their number.
pub Steps-IsViable :
    (s s' : State) {c : MultiSigConfig} → IsEmpty s → Steps s s' → s'.config ≡ some c → IsViable c
Steps-IsViable s s' {c} start path k = (Steps-IsSound start path).viable c k

-- In every history that starts with nothing set up, an executed proposal has the approvals of
-- distinct signers of it, at least as many as its threshold, and used a nonce that is no longer
-- accepted.
pub executed-IsBacked :
    (s s' : State) (id : ℕ) {p : Proposal}
    → IsEmpty s
    → Steps s s'
    → s'.proposals id ≡ some p
    → p.executed ≡ true
    → IsBacked p
      × (p.threshold ≤ length p.approvals)
      × ((n : ℕ) × (p.executed_nonce ≡ some n) × (n < s'.execution_nonce))
executed-IsBacked s s' id {p} start path f ex =
    let sound = Steps-IsSound start path in
    let (enough, used) = sound.settled id p f ex in (sound.backed id p f, enough, used)
