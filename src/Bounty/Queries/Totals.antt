-- ===== src/Bounty/Queries/Totals.antt =====
-- What the full scan of the escrows in bounty_escrow/contracts/escrow/src/lib.rs adds up to.
use grainlify_stellar_contra.Base.{
  ℕ, ◌+◌, ◌≡◌, ◌∙◌, ap, refl, List, [], ◌∷◌, length, arith, Option, if◌then◌else◌,
}
use grainlify_stellar_contra.Base.Int.{
  ℤ, pos, ◌+ℤ◌, ◌-ℤ◌, int_laws, checked_add, checked_sub, pos_part, neg_part,
}
use grainlify_stellar_contra.Base.Host.{Env, ok, >>=-eq_ok, or_trap, overflow}
use grainlify_stellar_contra.Bounty.State.{State, Escrow, RefundRecord, AggregateStats, Error}
use grainlify_stellar_contra.Bounty.Queries.{
  EscrowWithId, stored, sum_refunds, count_escrow, add_escrow, scan_escrow, scan_escrows,
  get_aggregate_stats_full_scan,
}
use grainlify_stellar_contra.Bounty.Guards.{is_refundable}
use grainlify_stellar_contra.Bounty.Counters.{zero_stats}

abbrev pub sum_of : (Escrow → ℤ) → List EscrowWithId → ℤ
sum_of f [] = pos 0
sum_of f (x ∷ xs) = f x.escrow +ℤ sum_of f xs

-- What was paid out, by any way, in the amounts of the statistics.
abbrev pub paid_out : AggregateStats → ℤ
paid_out st = st.total_released +ℤ st.total_refunded

-- What an escrow still holds for a release or a refund.
abbrev pub held : Escrow → ℤ
held x = if is_refundable x.status then x.remaining_amount else pos 0

abbrev pub counted : AggregateStats → ℕ
counted st = st.count_locked + st.count_released + st.count_refunded

or_trap_same :
    (e : Env) (s t : State) (a : Option ℤ) {n : ℤ}
    → or_trap {S = State} {E = Error} a overflow e s ≡ ok (n, t)
    → t ≡ s
or_trap_same e s t a h = ground arith

sum_refunds-same :
    (e : Env) (s t : State) (total : ℤ) (rs : List RefundRecord) {sum : ℤ}
    → sum_refunds total rs e s ≡ ok (sum, t)
    → t ≡ s
unfolding sum_refunds
sum_refunds-same e s t total [] h = cc
sum_refunds-same e s t total (r ∷ rs) h =
    let (m, s1, added, h1) =
      >>=-eq_ok (λ m. sum_refunds m rs) e (or_trap (checked_add total r.amount) overflow) s h in
    let same : s1 ≡ s = or_trap_same e s s1 (checked_add total r.amount) added in
    sum_refunds-same e s1 t m rs h1 ∙ same

add_zero : (a : ℤ) → a +ℤ pos 0 ≡ a
add_zero a = omega int_laws

zero_add : (a : ℤ) → pos 0 +ℤ a ≡ a
zero_add a = omega int_laws

nothing_add : (a : ℤ) → pos 0 +ℤ pos 0 +ℤ a ≡ a
nothing_add a = omega int_laws

add_escrow-ok :
    (e : Env) (s t : State) (x : Escrow) (st st' : AggregateStats) (refund_sum : ℤ)
    → add_escrow x st refund_sum e s ≡ ok (st', t)
    → (t ≡ s)
      × (st'.total_released ≡ st.total_released +ℤ (x.amount -ℤ x.remaining_amount -ℤ refund_sum))
      × (st'.total_refunded ≡ st.total_refunded +ℤ refund_sum)
      × (st'.total_locked ≡ st.total_locked +ℤ held x)
      × (counted st' ≡ counted st + 1)
unfolding add_escrow count_escrow checked_sub checked_add
add_escrow-ok e s t x st st' refund_sum h = (
  ground arith,
  ground arith,
  ground arith,
  ground (arith, add_zero st.total_locked),
  ground arith,
)

paid_out_step :
    (a b r f p am re : ℤ) → a ≡ r +ℤ (am -ℤ re -ℤ f) → b ≡ p +ℤ f → a +ℤ b +ℤ re ≡ r +ℤ p +ℤ am
paid_out_step a b r f p am re h k =
    omega (int_laws, ap pos_part h, ap neg_part h, ap pos_part k, ap neg_part k)

-- The totals after a scan of the escrows against those before it.
abbrev Adds : List EscrowWithId → AggregateStats → AggregateStats → Type 0
Adds xs st st' =
    (paid_out st' +ℤ sum_of (λ x. x.remaining_amount) xs ≡ paid_out st +ℤ sum_of (λ x. x.amount) xs)
    × (st'.total_locked ≡ st.total_locked +ℤ sum_of held xs)
    × (counted st' ≡ counted st + length xs)

scan_escrow-ok :
    (e : Env) (s t : State) (x : Escrow) (st st' : AggregateStats)
    → scan_escrow st x e s ≡ ok (st', t)
    → (t ≡ s)
      × (paid_out st' +ℤ x.remaining_amount ≡ paid_out st +ℤ x.amount)
      × (st'.total_locked ≡ st.total_locked +ℤ held x)
      × (counted st' ≡ counted st + 1)
unfolding scan_escrow
scan_escrow-ok e s t x st st' h =
    let (f, s1, summed, h1) =
      >>=-eq_ok (add_escrow x st) e (sum_refunds (pos 0) x.refund_history) s h in
    let same : s1 ≡ s = sum_refunds-same e s s1 (pos 0) x.refund_history summed in
    let (same', released, refunded, locked, one) = add_escrow-ok e s1 t x st st' f h1 in
    (
      same' ∙ same,
      paid_out_step st'.total_released st'.total_refunded st.total_released f st.total_refunded
          x.amount x.remaining_amount released refunded,
      locked,
      one,
    )

join_paid :
    (c b a r m rs ms : ℤ) → b +ℤ r ≡ a +ℤ m → c +ℤ rs ≡ b +ℤ ms → c +ℤ (r +ℤ rs) ≡ a +ℤ (m +ℤ ms)
join_paid c b a r m rs ms h k =
    omega (int_laws, ap pos_part h, ap neg_part h, ap pos_part k, ap neg_part k)

join_locked : (c b a h hs : ℤ) → b ≡ a +ℤ h → c ≡ b +ℤ hs → c ≡ a +ℤ (h +ℤ hs)
join_locked c b a h hs k l =
    omega (int_laws, ap pos_part k, ap neg_part k, ap pos_part l, ap neg_part l)

scan_escrows-ok :
    (e : Env) (s t : State) (xs : List EscrowWithId) (st st' : AggregateStats)
    → scan_escrows xs st e s ≡ ok (st', t)
    → (t ≡ s) × Adds xs st st'
unfolding scan_escrows scan_escrow
scan_escrows-ok e s t [] st st' h =
    let same : st ≡ st' = cc in
    (cc, (rw (← same) refl, rw (← same, add_zero st.total_locked) refl, rw (← same) (omega arith)))
scan_escrows-ok e s t (x ∷ xs) st st' h =
    let (st1, s1, first, h1) = >>=-eq_ok (scan_escrows xs) e (scan_escrow st x.escrow) s h in
    let (same, paid, locked, one) = scan_escrow-ok e s s1 x.escrow st st1 first in
    let (same', (paid', locked', more)) = scan_escrows-ok e s1 t xs st1 st' h1 in
    (
      same' ∙ same,
      (
        join_paid (paid_out st') (paid_out st1) (paid_out st) x.escrow.remaining_amount
            x.escrow.amount (sum_of (λ y. y.remaining_amount) xs) (sum_of (λ y. y.amount) xs) paid
            paid',
        join_locked st'.total_locked st1.total_locked st.total_locked (held x.escrow)
            (sum_of held xs) locked locked',
        omega (arith, one, more),
      ),
    )

-- A `get_aggregate_stats_full_scan` that succeeds changes nothing; the totals of released and
-- refunded with what remains in the escrows of the index are the amounts that were locked, the
-- total locked is what remains in those that are locked or partially refunded, and each escrow is
-- counted once.
pub full_scan-balanced :
    (e : Env) (s t : State) {st : AggregateStats}
    → get_aggregate_stats_full_scan e s ≡ ok (st, t)
    → let xs = stored s s.escrow_index in
      (t ≡ s)
      × (st.total_released +ℤ st.total_refunded +ℤ sum_of (λ x. x.remaining_amount) xs
          ≡ sum_of (λ x. x.amount) xs)
      × (st.total_locked ≡ sum_of held xs)
      × (st.count_locked + st.count_released + st.count_refunded ≡ length xs)
unfolding get_aggregate_stats_full_scan
full_scan-balanced e s t {st} h =
    let xs = stored s s.escrow_index in
    let (same, (paid, locked, count)) = scan_escrows-ok e s t xs zero_stats st h in
    (
      same,
      paid ∙ nothing_add (sum_of (λ x. x.amount) xs),
      locked ∙ zero_add (sum_of held xs),
      omega (arith, count),
    )
