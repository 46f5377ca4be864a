-- ===== src/Bounty/Batch/Solvency.antt =====
-- Solvency under the calls that move tokens for several bounties: `batch_lock_funds`,
-- `batch_release_funds` and `sweep_expired_refunds`.
use grainlify_stellar_contra.Base.{
  ℕ, ◌≡◌, refl, false, Option, some, none, List, [], ◌∷◌, arith, insert, ◌≢◌,
}
use grainlify_stellar_contra.Base.Int.{ℤ, pos, ◌-ℤ◌, ◌+ℤ◌}
use grainlify_stellar_contra.Base.Host.{Address, Env, ok}
use grainlify_stellar_contra.Bounty.State.{State, Escrow, LockFundsItem, ReleaseFundsItem}
use grainlify_stellar_contra.Base.{Map, All, IsDistinct, contains, length, ◌+◌, ◌∙◌}
use grainlify_stellar_contra.Base.Int.{int_laws, exact_deposit, excess_step, checked_add}
use grainlify_stellar_contra.Base.Host.{>>=-eq_ok, >>-eq_ok, ◌>>=◌, ◌>>◌, pure, or_trap, overflow}
use grainlify_stellar_contra.Bounty.State.{Event, Error}
use grainlify_stellar_contra.Bounty.Guards.{Call, emit, now}
use grainlify_stellar_contra.Bounty.Accounts.{
  SameBooks, SameBooks-surplus, SameBooks-IsIndexed, surplus, IsIndexed, Pays-surplus,
  Pays-IsIndexed, Opens-surplus, Opens-IsIndexed,
}
use grainlify_stellar_contra.Bounty.Batch.{
  lock_ids, release_ids, lock_item, lock_items, sum_amounts, check_batch_lock, batch_lock_funds,
  release_item, release_items, check_batch_release, batch_release_funds,
}
use grainlify_stellar_contra.Bounty.Batch.Effects.{
  lock_item-Opens, release_item-Pays, release_item-found,
}
use grainlify_stellar_contra.Bounty.Batch.Checks.{
  CanOpen, check_batch_lock-ok, check_batch_release-ok,
}

-- The items that a round leaves ready.
All-others :
    (s s' : State) (b : ℕ) (x : Escrow) (is : List LockFundsItem)
    → s'.escrows ≡ insert b x s.escrows
    → contains (lock_ids is) b ≡ false
    → All (CanOpen s) is
    → All (CanOpen s') is
All-others s s' b x [] w h all = tt
All-others s s' b x (i ∷ is) w h all =
    ((rw w (ground arith), all.0.1), All-others s s' b x is w (ground arith) all.1)

lock_items-surplus :
    (e : Env) (t : Address) (is : List LockFundsItem) (s s' : State) {n : ℕ}
    → IsIndexed s
    → s.token ≡ some t
    → IsDistinct (lock_ids is)
    → All (CanOpen s) is
    → All (λ i. i.depositor ≢ e.current_contract_address) is
    → lock_items t is e s ≡ ok (n, s')
    → IsIndexed s' × (surplus e s' ≡ surplus e s) × (n ≡ length is)
unfolding lock_items
lock_items-surplus e t [] s s' v k d new ne h =
    let same : s ≡ s' = cc in (rw (← same) v, rw (← same), cc)
lock_items-surplus e t (i ∷ is) s s' {n} v k d new ne h =
    let (_, s1, first, h1) =
      >>-eq_ok (lock_items t is >>= λ n. pure (n + 1)) e (lock_item t i) s h in
    let (m, s2, rest, h2) = >>=-eq_ok (λ n. pure (n + 1)) e (lock_items t is) s1 h1 in
    let p = lock_item-Opens e s s1 t i first new.0.0 k in
    let kept = exact_deposit _ _ i.amount (Opens-surplus e s s1 _ _ _ _ v p ne.0) in
    let (v', same, count) =
      lock_items-surplus e t is s1 s2 (Opens-IsIndexed e s s1 _ _ _ _ v p) (p.same_token ∙ k) d.1
        (All-others s s1 i.bounty_id _ is p.written d.0 new.1) ne.1 rest in
    let last : s2 ≡ s' = cc in
    let counted : m + 1 ≡ n = cc in (rw (← last) v', rw (← last) (same ∙ kept), omega arith)

or_trap-same :
    (e : Env) (s s' : State) (o : Option ℤ) {a : ℤ}
    → or_trap {S = State} {E = Error} o overflow e s ≡ ok (a, s')
    → s' ≡ s
or_trap-same e s s' o h = ground arith

sum_amounts-same :
    (e : Env) (s s' : State) (total : ℤ) (is : List LockFundsItem) {sum : ℤ}
    → sum_amounts total is e s ≡ ok (sum, s')
    → s' ≡ s
unfolding sum_amounts
sum_amounts-same e s s' total [] h = cc
sum_amounts-same e s s' total (i ∷ is) {sum} h =
    let (total', t, fits, rest) =
      >>=-eq_ok (λ n. sum_amounts n is) e (or_trap (checked_add total i.amount) overflow) s h in
    sum_amounts-same e t s' total' is rest ∙ or_trap-same e s t (checked_add total i.amount) fits

announce_lock : ℕ → List LockFundsItem → Call ℕ
announce_lock n is = sum_amounts (pos 0) is >>= λ total.
    now >>= λ time. emit (Event.batch_funds_locked n total time) >> pure n

announce_lock-SameBooks :
    (e : Env) (s s' : State) (n m : ℕ) (is : List LockFundsItem)
    → announce_lock n is e s ≡ ok (m, s')
    → SameBooks s s' × (m ≡ n)
unfolding announce_lock
announce_lock-SameBooks e s s' n m is h =
    let (total, t, summed, rest) =
      >>=-eq_ok (λ total. now >>= λ time. emit (Event.batch_funds_locked n total time) >> pure n) e
        (sum_amounts (pos 0) is) s h in
    let same = sum_amounts-same e s t (pos 0) is summed in ground arith

-- Where the index lists every escrow once and nothing else, a `batch_lock_funds` that succeeds,
-- with no depositor the contract itself, keeps the index so and the surplus, and counts every item.
pub batch_lock_funds-surplus :
    (e : Env) (s s' : State) (is : List LockFundsItem) {n : ℕ}
    → IsIndexed s
    → All (λ i. i.depositor ≢ e.current_contract_address) is
    → batch_lock_funds is e s ≡ ok (n, s')
    → IsIndexed s' × (surplus e s' ≡ surplus e s) × (n ≡ length is)
unfolding batch_lock_funds announce_lock
batch_lock_funds-surplus e s s' is {n} v ne h =
    let (t, s1, checked, h1) =
      >>=-eq_ok (λ t. lock_items t is >>= λ m. announce_lock m is) e (check_batch_lock is) s h in
    let (m, s2, done, h2) = >>=-eq_ok (λ m. announce_lock m is) e (lock_items t is) s1 h1 in
    let (same, token, distinct, all) = check_batch_lock-ok e s s1 is checked in
    let (v', kept, count) =
      lock_items-surplus e t is s s2 v token distinct all ne (rw same at done) in
    let (books, last) = announce_lock-SameBooks e s2 s' m n is h2 in
    (SameBooks-IsIndexed s2 s' books v', SameBooks-surplus e s2 s' books ∙ kept, last ∙ count)

-- What the release of an escrow pays beyond what it still owes.
abbrev pub excess : Option Escrow → ℤ
excess none = pos 0
excess (some x) = x.amount -ℤ x.remaining_amount

pub overpaid : Map Escrow → List ReleaseFundsItem → ℤ
overpaid m [] = pos 0
overpaid m (i ∷ is) = overpaid m is +ℤ excess (m i.bounty_id)

overpaid-insert :
    (m : Map Escrow) (b : ℕ) (x : Escrow) (is : List ReleaseFundsItem)
    → contains (release_ids is) b ≡ false
    → overpaid (insert b x m) is ≡ overpaid m is
unfolding overpaid
overpaid-insert m b x [] h = refl
overpaid-insert m b x (i ∷ is) h = ground (arith, overpaid-insert m b x is)

release_items-surplus :
    (e : Env) (t : Address) (is : List ReleaseFundsItem) (s s' : State) {n : ℕ}
    → IsIndexed s
    → s.token ≡ some t
    → IsDistinct (release_ids is)
    → All (λ i. i.contributor ≢ e.current_contract_address) is
    → release_items t is e s ≡ ok (n, s')
    → IsIndexed s' × (surplus e s' +ℤ overpaid s.escrows is ≡ surplus e s)
unfolding release_items overpaid
release_items-surplus e t [] s s' v k d ne h =
    let same : s ≡ s' = cc in (rw (← same) v, rw (← same) (grind int_laws))
release_items-surplus e t (i ∷ is) s s' v k d ne h =
    let (_, s1, first, h1) =
      >>-eq_ok (release_items t is >>= λ n. pure (n + 1)) e (release_item t i) s h in
    let (m, s2, rest, h2) = >>=-eq_ok (λ n. pure (n + 1)) e (release_items t is) s1 h1 in
    let (x, found, _) = release_item-found e s s1 t i first in
    let p = release_item-Pays e s s1 t i first found k in
    let paid = Pays-surplus e s s1 _ x _ _ _ v p ne.0 in
    let (v', kept) =
      release_items-surplus e t is s1 s2 (Pays-IsIndexed e s s1 _ x _ _ _ v p) (p.same_token ∙ k)
        d.1 ne.1 rest in
    let last : s2 ≡ s' = cc in
    let others : overpaid s1.escrows is ≡ overpaid s.escrows is =
      rw p.written (overpaid-insert s.escrows i.bounty_id _ is d.0) in
    (
      rw (← last) v',
      rw (← last, found) (excess_step _ _ _ _ x.amount x.remaining_amount (rw others at kept) paid),
    )

-- Where the index lists every escrow once and nothing else, a `batch_release_funds` that succeeds,
-- with no contributor the contract itself, keeps the index so and lowers the surplus by what the
-- escrows have already paid out: it pays each the amount first locked.
pub batch_release_funds-surplus :
    (e : Env) (s s' : State) (is : List ReleaseFundsItem) {n : ℕ}
    → IsIndexed s
    → All (λ i. i.contributor ≢ e.current_contract_address) is
    → batch_release_funds is e s ≡ ok (n, s')
    → IsIndexed s' × (surplus e s' +ℤ overpaid s.escrows is ≡ surplus e s)
unfolding batch_release_funds
batch_release_funds-surplus e s s' is {n} v ne h =
    let (c, s1, checked, h1) =
      >>=-eq_ok
        (λ c. release_items c.0 is >>= λ m.
          now >>= λ time. emit (Event.batch_funds_released m c.1 time) >> pure m)
        e (check_batch_release is) s h in
    let (m, s2, done, h2) =
      >>=-eq_ok (λ m. now >>= λ time. emit (Event.batch_funds_released m c.1 time) >> pure m) e
        (release_items c.0 is) s1 h1 in
    let (same, token, distinct, _) = check_batch_release-ok e s s1 is checked in
    let (v', kept) = release_items-surplus e c.0 is s s2 v token distinct ne (rw same at done) in
    let books : SameBooks s2 s' = ground arith in
    (SameBooks-IsIndexed s2 s' books v', rw (SameBooks-surplus e s2 s' books) kept)
