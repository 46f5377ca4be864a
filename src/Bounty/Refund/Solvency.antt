-- ===== src/Bounty/Refund/Solvency.antt =====
-- Solvency under `sweep_expired_refunds`.
use grainlify_stellar_contra.Base.{
  ℕ, ◌≡◌, ◌≤◌, refl, some, none, true, ◌⊎◌, List, [], ◌∷◌, arith, insert, ◌≢◌,
}
use grainlify_stellar_contra.Base.Int.{ℤ, pos, ◌<ℤ◌}
use grainlify_stellar_contra.Base.Host.{Address, Env, ok}
use grainlify_stellar_contra.Bounty.State.{
  State, Escrow, EscrowStatus, locked, partially_refunded, released, refunded,
}
use grainlify_stellar_contra.Bounty.Guards.{
  is_refundable, check_circuit, check_governance_requirements,
}
use grainlify_stellar_contra.Bounty.Payment.{Pays}
use grainlify_stellar_contra.Base.{All, length, ◌+◌, ◌∙◌, sym, Option-cases, inl, inr}
use grainlify_stellar_contra.Base.Int.{exact_refund}
use grainlify_stellar_contra.Base.Host.{>>=-eq_ok, >>-eq_ok, ◌>>=◌, ◌>>◌, pure}
use grainlify_stellar_contra.Bounty.State.{Error}
use grainlify_stellar_contra.Bounty.Guards.{leave, validate_unique_bounty_ids}
use grainlify_stellar_contra.Bounty.Accounts.{
  surplus, IsIndexed, Pays-surplus, Pays-IsIndexed, SameBooks, SameBooks-surplus,
  SameBooks-IsIndexed,
}
use grainlify_stellar_contra.Bounty.Refund.{
  check_sweep_item, check_sweep, open_sweep, sweep_one, sweep_loop, enter_sweep,
  sweep_expired_refunds,
}
use grainlify_stellar_contra.Bounty.Refund.Effects.{sweep_one-Pays, sweep_one-found}

-- No escrow was locked by the contract itself.
abbrev pub NoSelfDeposit : Env → State → Type 0
NoSelfDeposit e s =
    (b : ℕ) (x : Escrow) → s.escrows b ≡ some x → x.depositor ≢ e.current_contract_address

Pays-NoSelfDeposit :
    (e : Env) (s s' : State) (b : ℕ) {x : Escrow} (x' : Escrow) (r : Address) (a : ℤ)
    → x'.depositor ≡ x.depositor
    → NoSelfDeposit e s
    → Pays e s s' b x x' r a
    → NoSelfDeposit e s'
Pays-NoSelfDeposit e s s' b {x} x' r a same n p c y found =
    let found' : insert b x' s.escrows c ≡ some y = rw p.written at found in
    ground (arith, n c y, n b x p.found)

sweep_loop-surplus :
    (e : Env) (t : Address) (ids : List ℕ) (s s' : State) {n : ℕ}
    → IsIndexed s
    → s.token ≡ some t
    → NoSelfDeposit e s
    → sweep_loop t ids e s ≡ ok (n, s')
    → IsIndexed s' × (surplus e s' ≡ surplus e s) × (n ≡ length ids)
unfolding sweep_loop
sweep_loop-surplus e t [] s s' v k f h = let same : s ≡ s' = cc in (rw (← same) v, rw (← same), cc)
sweep_loop-surplus e t (b ∷ ids) s s' {n} v k f h =
    let (_, s1, first, h1) =
      >>-eq_ok (sweep_loop t ids >>= λ n. pure (n + 1)) e (sweep_one t b) s h in
    let (m, s2, rest, h2) = >>=-eq_ok (λ n. pure (n + 1)) e (sweep_loop t ids) s1 h1 in
    let (x, found, _) = sweep_one-found e s s1 t b first in
    let p = sweep_one-Pays e s s1 t b first found k in
    let kept =
      exact_refund _ _ x.remaining_amount (Pays-surplus e s s1 b x _ _ _ v p (f b x found)) in
    let (v', same, count) =
      sweep_loop-surplus e t ids s1 s2 (Pays-IsIndexed e s s1 b x _ _ _ v p) (p.same_token ∙ k)
        (Pays-NoSelfDeposit e s s1 b _ _ _ refl f p) rest in
    let last : s2 ≡ s' = cc in
    let counted : m + 1 ≡ n = cc in (rw (← last) v', rw (← last) (same ∙ kept), omega arith)

-- What the validation of a sweep asks of a bounty.
abbrev pub CanSweep : Env → State → ℕ → Type 0
CanSweep e s b =
    (x : Escrow) × (s.escrows b ≡ some x)
    × ((x.status ≡ locked) ⊎ (x.status ≡ partially_refunded))
    × (s.pending_claims b ≡ none)
    × (x.deadline ≤ e.timestamp)
    × (pos 0 <ℤ x.remaining_amount)

refundable : (v : EscrowStatus) → is_refundable v ≡ true → (v ≡ locked) ⊎ (v ≡ partially_refunded)
refundable locked h = inl refl
refundable partially_refunded h = inr refl
refundable released h = absurd (ground arith)
refundable refunded h = absurd (ground arith)

check_sweep_item-ok :
    (e : Env) (s s' : State) (b : ℕ)
    → check_sweep_item b e s ≡ ok (tt, s')
    → (s' ≡ s) × CanSweep e s b
unfolding check_sweep_item
check_sweep_item-ok e s s' b h = elim (Option-cases (s.escrows b)) [
  | inl missing ↦ absurd (ground arith)
  | inr (x, found) ↦ (
    ground arith,
    (x, found, refundable x.status (ground arith), ground arith, ground arith, ground arith),
  )
]

pub check_sweep-ok :
    (e : Env) (s s' : State) (ids : List ℕ)
    → check_sweep ids e s ≡ ok (tt, s')
    → (s' ≡ s) × All (CanSweep e s) ids
unfolding check_sweep
check_sweep-ok e s s' [] h = (cc, tt)
check_sweep-ok e s s' (b ∷ ids) h =
    let (_, t, first, rest) = >>-eq_ok (check_sweep ids) e (check_sweep_item b) s h in
    let (same, facts) = check_sweep_item-ok e s t b first in
    let (same', all) = check_sweep-ok e s s' ids (rw same at rest) in (same', (facts, all))

pub open_sweep-same :
    (e : Env) (s s' : State) (ids : List ℕ) → open_sweep ids e s ≡ ok (tt, s') → s' ≡ s
unfolding open_sweep check_circuit check_governance_requirements validate_unique_bounty_ids
open_sweep-same e s s' ids h = ground arith

enter_sweep-ok :
    (e : Env) (s s' : State) {t : Address}
    → enter_sweep e s ≡ ok (t, s')
    → SameBooks s s' × (s'.token ≡ some t)
unfolding enter_sweep
enter_sweep-ok e s s' h = ground arith

-- Where the index lists every escrow once and nothing else, a `sweep_expired_refunds` that
-- succeeds, with no escrow locked by the contract itself, keeps the index so and the surplus; every
-- bounty it was given was locked or partially refunded and had passed its deadline, with no pending
-- claim and something left, and it counts them all.
pub sweep-surplus :
    (e : Env) (s s' : State) (ids : List ℕ) {n : ℕ}
    → IsIndexed s
    → NoSelfDeposit e s
    → sweep_expired_refunds ids e s ≡ ok (n, s')
    → IsIndexed s' × (surplus e s' ≡ surplus e s) × (n ≡ length ids) × All (CanSweep e s) ids
unfolding sweep_expired_refunds
sweep-surplus e s s' ids {n} v f h =
    let finish = λ (n : ℕ). leave >> pure {S = State} {E = Error} n in
    let loop = λ (t : Address). sweep_loop t ids >>= finish in
    let (_, s1, opened, h1) =
      >>-eq_ok (check_sweep ids >> (enter_sweep >>= loop)) e (open_sweep ids) s h in
    let (_, s2, checked, h2) = >>-eq_ok (enter_sweep >>= loop) e (check_sweep ids) s1 h1 in
    let (t, s3, entered, h3) = >>=-eq_ok loop e enter_sweep s2 h2 in
    let (m, s4, done, h4) = >>=-eq_ok finish e (sweep_loop t ids) s3 h3 in
    let same1 = open_sweep-same e s s1 ids opened in
    let (same2, all) = check_sweep-ok e s s2 ids (rw same1 at checked) in
    let (books, token) = enter_sweep-ok e s s3 (rw same2 at entered) in
    let f' : NoSelfDeposit e s3 = λ b x k. f b x (rw books.same_escrows at k) in
    let (v', kept, count) =
      sweep_loop-surplus e t ids s3 s4 (SameBooks-IsIndexed s s3 books v) token f' done in
    let books' : SameBooks s4 s' = ground arith in
    let last : m ≡ n = ground arith in
    (
      SameBooks-IsIndexed s4 s' books' v',
      SameBooks-surplus e s4 s' books' ∙ kept ∙ SameBooks-surplus e s s3 books,
      sym last ∙ count,
      all,
    )
