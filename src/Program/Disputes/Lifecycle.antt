-- ===== src/Program/Disputes/Lifecycle.antt =====
-- The life of a dispute of program-escrow/src/lib.rs, from its opening to its end.
use grainlify_stellar_contra.Base.{◌≡◌, true, some, arith}
use grainlify_stellar_contra.Base.Host.{Address, Symbol, Env, ok, after}
use grainlify_stellar_contra.Program.State.{State, DisputeScope, global, of_recipient, of_schedule}
use grainlify_stellar_contra.Program.Guards.{is_dispute_open_for_key}
use grainlify_stellar_contra.Program.Disputes.{open_dispute_at, resolve_dispute_at}

-- The disputes that are open in two states are the same.
abbrev pub SameDisputes : State → State → Type 0
SameDisputes s s' = (j : DisputeScope) → is_dispute_open_for_key j s' ≡ is_dispute_open_for_key j s

module _ (e e' : Env) (s s' : State) (r : Symbol) (a : Address) where
  open_then_resolve :
      (k : DisputeScope)
      → open_dispute_at k r e s ≡ ok (tt, s')
      → s.admin ≡ some a
      → e'.authorized a ≡ true
      → resolve_dispute_at k e' s' ≡ ok (tt, after s' (resolve_dispute_at k e' s'))
  unfolding open_dispute_at resolve_dispute_at is_dispute_open_for_key
  open_then_resolve global h k l = ground arith
  open_then_resolve (of_recipient b) h k l = ground arith
  open_then_resolve (of_schedule i) h k l = ground arith

  resolved_disputes :
      (k j : DisputeScope)
      → open_dispute_at k r e s ≡ ok (tt, s')
      → s.admin ≡ some a
      → e'.authorized a ≡ true
      → is_dispute_open_for_key j (after s' (resolve_dispute_at k e' s'))
        ≡ is_dispute_open_for_key j s
  unfolding open_dispute_at resolve_dispute_at is_dispute_open_for_key
  resolved_disputes global global h k l = ground arith
  resolved_disputes global (of_recipient c) h k l = ground arith
  resolved_disputes global (of_schedule j) h k l = ground arith
  resolved_disputes (of_recipient b) global h k l = ground arith
  resolved_disputes (of_recipient b) (of_recipient c) h k l = ground arith
  resolved_disputes (of_recipient b) (of_schedule j) h k l = ground arith
  resolved_disputes (of_schedule i) global h k l = ground arith
  resolved_disputes (of_schedule i) (of_recipient c) h k l = ground arith
  resolved_disputes (of_schedule i) (of_schedule j) h k l = ground arith

  opened_dispute_blocks :
      (k : DisputeScope)
      → open_dispute_at k r e s ≡ ok (tt, s')
      → is_dispute_open_for_key k s' ≡ true
  unfolding open_dispute_at is_dispute_open_for_key
  opened_dispute_blocks global h = ground arith
  opened_dispute_blocks (of_recipient b) h = ground arith
  opened_dispute_blocks (of_schedule i) h = ground arith

-- After an `open_dispute_at` that succeeds on a scope, that scope is disputed, and the admin of
-- before can resolve it with a signature; then the same scopes are disputed as before.
pub open_resolve_roundtrip :
    (e e' : Env) (s s' : State) (k : DisputeScope) (r : Symbol) {a : Address}
    → open_dispute_at k r e s ≡ ok (tt, s')
    → s.admin ≡ some a
    → e'.authorized a ≡ true
    → (is_dispute_open_for_key k s' ≡ true)
      × ((t : State) × (resolve_dispute_at k e' s' ≡ ok (tt, t)) × SameDisputes s t)
open_resolve_roundtrip e e' s s' k r {a} h admin signed = (
  opened_dispute_blocks e e' s s' r a k h,
  (
    after s' (resolve_dispute_at k e' s'),
    open_then_resolve e e' s s' r a k h admin signed,
    (λ j. resolved_disputes e e' s s' r a k j h admin signed),
  ),
)
