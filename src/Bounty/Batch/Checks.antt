-- ===== src/Bounty/Batch/Checks.antt =====
-- What the validation of the batch calls establishes.
use grainlify_stellar_contra.Base.{ℕ, ◌≡◌, refl, true, false, some, none, List, [], ◌∷◌, arith}
use grainlify_stellar_contra.Base.Int.{ℤ, pos, ◌<ℤ◌}
use grainlify_stellar_contra.Base.Host.{Address, Env, ok}
use grainlify_stellar_contra.Bounty.State.{State, Escrow, locked, LockFundsItem, ReleaseFundsItem}
use grainlify_stellar_contra.Bounty.Guards.{
  check_circuit, check_governance_requirements, check_amount_policy,
}
use mathlib.Core.Path.{subst}
use grainlify_stellar_contra.Base.{
  All, IsDistinct, contains, Bool-cases, push_back, inl, inr, Option-cases,
}
use grainlify_stellar_contra.Base.Host.{>>=-eq_ok, >>-eq_ok, ◌>>=◌, ◌>>◌, pure, require_auth}
use grainlify_stellar_contra.Bounty.Guards.{has_duplicate, validate_unique_bounty_ids}
use grainlify_stellar_contra.Bounty.State.{Error}
use grainlify_stellar_contra.Bounty.Batch.{
  lock_ids, release_ids, check_lock_item, check_lock_items, require_depositors, enter_batch_lock,
  check_batch_lock, enter_batch_release, check_release_item, check_release_items,
  check_batch_release,
}

-- No duplicate among the identifiers, and none seen before.
pub has_duplicate-IsDistinct :
    (seen ids : List ℕ)
    → has_duplicate seen ids ≡ false
    → IsDistinct ids × ((a : ℕ) → contains seen a ≡ true → contains ids a ≡ false)
unfolding has_duplicate
has_duplicate-IsDistinct seen [] h = (tt, λ a k. refl)
has_duplicate-IsDistinct seen (x ∷ ids) h =
    let unseen : contains seen x ≡ false = ground arith in
    let (distinct, apart) = has_duplicate-IsDistinct (x ∷ seen) ids (ground arith) in
    ((apart x (ground arith), distinct), λ a k. ground (arith, apart a))

check_lock_item-ok :
    (e : Env) (s s' : State) (i : LockFundsItem)
    → check_lock_item i e s ≡ ok (tt, s')
    → (s' ≡ s) × (s.escrows i.bounty_id ≡ none) × (pos 0 <ℤ i.amount)
unfolding check_lock_item check_amount_policy
check_lock_item-ok e s s' i h = ground arith

-- What the validation of a lock item asks of the escrows and of the item.
abbrev pub CanOpen : State → LockFundsItem → Type 0
CanOpen s i = (s.escrows i.bounty_id ≡ none) × (pos 0 <ℤ i.amount)

check_lock_items-ok :
    (e : Env) (s s' : State) (is : List LockFundsItem)
    → check_lock_items is e s ≡ ok (tt, s')
    → (s' ≡ s) × All (CanOpen s) is
unfolding check_lock_items
check_lock_items-ok e s s' [] h = (cc, tt)
check_lock_items-ok e s s' (i ∷ is) h =
    let (_, t, first, rest) = >>-eq_ok (check_lock_items is) e (check_lock_item i) s h in
    let (same, new, positive) = check_lock_item-ok e s t i first in
    let rest' : check_lock_items is e s ≡ ok (tt, s') = rw same at rest in
    let (same', all) = check_lock_items-ok e s s' is rest' in (same', ((new, positive), all))

require_auth-ok :
    (e : Env) (s s' : State) (a : Address)
    → require_auth {S = State} {E = Error} a e s ≡ ok (tt, s')
    → s' ≡ s
require_auth-ok e s s' a h = ground arith

require_depositors-ok :
    (e : Env) (s s' : State) (seen : List Address) (is : List LockFundsItem)
    → require_depositors seen is e s ≡ ok (tt, s')
    → s' ≡ s
unfolding require_depositors
require_depositors-ok e s s' seen [] h = cc
require_depositors-ok e s s' seen (i ∷ is) h = elim (Bool-cases (contains seen i.depositor)) [
  | inl old ↦ require_depositors-ok e s s' seen is (rw old at h)
  | inr new ↦
      let seen' = push_back seen i.depositor in
      let (_, t, signed, rest) =
        >>-eq_ok (require_depositors seen' is) e (require_auth i.depositor) s (rw new at h) in
      require_depositors-ok e s s' seen' is (rw (require_auth-ok e s t i.depositor signed) at rest)
]

enter_batch_lock-ok :
    (e : Env) (s s' : State) (is : List LockFundsItem) {t : Address}
    → enter_batch_lock is e s ≡ ok (t, s')
    → (s' ≡ s) × (s.token ≡ some t) × (has_duplicate [] (lock_ids is) ≡ false)
unfolding enter_batch_lock check_circuit validate_unique_bounty_ids
enter_batch_lock-ok e s s' is h = ground arith

-- A batch that passes the checks of `batch_lock_funds` has new and distinct identifiers.
pub check_batch_lock-ok :
    (e : Env) (s s' : State) (is : List LockFundsItem) {t : Address}
    → check_batch_lock is e s ≡ ok (t, s')
    → (s' ≡ s) × (s.token ≡ some t) × IsDistinct (lock_ids is) × All (CanOpen s) is
unfolding check_batch_lock
check_batch_lock-ok e s s' is {t} h =
    let (u, s1, entered, h1) =
      >>=-eq_ok (λ t. check_lock_items is >> (require_depositors [] is >> pure t)) e
        (enter_batch_lock is) s h in
    let (_, s2, checked, h2) =
      >>-eq_ok (require_depositors [] is >> pure u) e (check_lock_items is) s1 h1 in
    let (_, s3, signed, h3) = >>-eq_ok (pure u) e (require_depositors [] is) s2 h2 in
    let (same1, token, distinct) = enter_batch_lock-ok e s s1 is entered in
    let (same2, all) = check_lock_items-ok e s1 s2 is checked in
    let same3 = require_depositors-ok e s2 s3 [] is signed in
    (
      cc,
      cc,
      (has_duplicate-IsDistinct [] (lock_ids is) distinct).0,
      subst (λ s. All (CanOpen s) is) same1 all,
    )

-- What the validation of a release item asks of the storage.
abbrev pub CanRelease : State → ReleaseFundsItem → Type 0
CanRelease s i =
    (x : Escrow) × (s.escrows i.bounty_id ≡ some x)
    × (x.status ≡ locked)
    × (s.pending_claims i.bounty_id ≡ none)

check_release_item-ok :
    (e : Env) (s s' : State) (total : ℤ) (i : ReleaseFundsItem) {total' : ℤ}
    → check_release_item total i e s ≡ ok (total', s')
    → (s' ≡ s) × CanRelease s i
unfolding check_release_item
check_release_item-ok e s s' total i h = elim (Option-cases (s.escrows i.bounty_id)) [
  | inl missing ↦ absurd (ground arith)
  | inr (x, found) ↦ (ground arith, (x, found, ground arith, ground arith))
]

check_release_items-ok :
    (e : Env) (s s' : State) (total : ℤ) (is : List ReleaseFundsItem) {total' : ℤ}
    → check_release_items total is e s ≡ ok (total', s')
    → (s' ≡ s) × All (CanRelease s) is
unfolding check_release_items
check_release_items-ok e s s' total [] h = (cc, tt)
check_release_items-ok e s s' total (i ∷ is) h =
    let (total1, t, first, rest) =
      >>=-eq_ok (λ n. check_release_items n is) e (check_release_item total i) s h in
    let (same, facts) = check_release_item-ok e s t total i first in
    let (same', all) = check_release_items-ok e s s' total1 is (rw same at rest) in
    (same', (facts, all))

enter_batch_release-ok :
    (e : Env) (s s' : State) (is : List ReleaseFundsItem) {t : Address}
    → enter_batch_release is e s ≡ ok (t, s')
    → (s' ≡ s) × (s.token ≡ some t) × (has_duplicate [] (release_ids is) ≡ false)
unfolding enter_batch_release check_circuit check_governance_requirements validate_unique_bounty_ids
enter_batch_release-ok e s s' is h = ground arith

-- A batch that passes the checks of `batch_release_funds` names distinct locked escrows with no
-- pending claim.
pub check_batch_release-ok :
    (e : Env) (s s' : State) (is : List ReleaseFundsItem) {c : Address × ℤ}
    → check_batch_release is e s ≡ ok (c, s')
    → (s' ≡ s) × (s.token ≡ some c.0) × IsDistinct (release_ids is) × All (CanRelease s) is
unfolding check_batch_release
check_batch_release-ok e s s' is {c} h =
    let (u, s1, entered, h1) =
      >>=-eq_ok (λ t. check_release_items (pos 0) is >>= λ n. pure (t, n)) e
        (enter_batch_release is) s h in
    let (n, s2, checked, h2) =
      >>=-eq_ok (λ n. pure (u, n)) e (check_release_items (pos 0) is) s1 h1 in
    let (same1, token, distinct) = enter_batch_release-ok e s s1 is entered in
    let (same2, all) = check_release_items-ok e s1 s2 (pos 0) is checked in
    (
      cc,
      cc,
      (has_duplicate-IsDistinct [] (release_ids is) distinct).0,
      subst (λ s. All (CanRelease s) is) same1 all,
    )
