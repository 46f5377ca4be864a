-- ===== src/Bounty/Batch/Effects.antt =====
-- What a round of a batch call does.
use grainlify_stellar_contra.Base.{◌≡◌, some, none, [], arith, Option-cases, inl, inr}
use grainlify_stellar_contra.Base.Host.{Address, Env, ok}
use grainlify_stellar_contra.Bounty.State.{State, Escrow, locked, LockFundsItem, ReleaseFundsItem}
use grainlify_stellar_contra.Bounty.Guards.{client_transfer}
use grainlify_stellar_contra.Bounty.Payment.{Pays, Opens}
use grainlify_stellar_contra.Bounty.Analytics.{update_analytics_on_release}
use grainlify_stellar_contra.Bounty.Lock.{store_escrow}
use grainlify_stellar_contra.Bounty.Release.{released_escrow}
use grainlify_stellar_contra.Bounty.Batch.{lock_item, release_item}

-- A round of `batch_lock_funds` opens one escrow.
pub lock_item-Opens :
    (e : Env) (s s' : State) (t : Address) (i : LockFundsItem)
    → lock_item t i e s ≡ ok (tt, s')
    → s.escrows i.bounty_id ≡ none
    → s.token ≡ some t
    → Opens e s s' i.bounty_id
        (record {
          depositor = i.depositor;
          amount = i.amount;
          remaining_amount = i.amount;
          status = locked;
          deadline = i.deadline;
          refund_history = [];
        })
        i.depositor
        i.amount
unfolding lock_item client_transfer store_escrow
lock_item-Opens e s s' t i h k l = ground arith

-- A round of `batch_release_funds` pays the amount that was locked at the start.
pub release_item-Pays :
    (e : Env) (s s' : State) (t : Address) (i : ReleaseFundsItem) {x : Escrow}
    → release_item t i e s ≡ ok (tt, s')
    → s.escrows i.bounty_id ≡ some x
    → s.token ≡ some t
    → Pays e s s' i.bounty_id x (released_escrow x) i.contributor x.amount
unfolding release_item client_transfer update_analytics_on_release
release_item-Pays e s s' t i h k l = ground arith

-- A successful round of `batch_release_funds` has found its escrow.
pub release_item-found :
    (e : Env) (s s' : State) (t : Address) (i : ReleaseFundsItem)
    → release_item t i e s ≡ ok (tt, s')
    → (x : Escrow) × (s.escrows i.bounty_id ≡ some x) × (s'.token ≡ s.token)
unfolding release_item client_transfer update_analytics_on_release
release_item-found e s s' t i h = elim (Option-cases (s.escrows i.bounty_id)) [
  | inl none_there ↦ absurd (ground arith)
  | inr (x, found) ↦ (x, found, ground arith)
]
