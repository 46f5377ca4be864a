-- ===== src/Bounty/Queries.antt =====
-- The views of bounty_escrow/contracts/escrow/src/lib.rs: the paginated queries, the full scan of
-- the escrows, and what can be refunded.
pub mod Pages
pub mod Totals
use grainlify_stellar_contra.Base.{
  ℕ, ◌+◌, ◌-◌, ◌^◌, Bool, true, false, not, ◌&&◌, ◌||◌, Option, none, some, List, [], ◌∷◌, map, leb,
  ltb, ◌==◌, if◌then◌else◌, is_some, length, take, drop,
}
use grainlify_stellar_contra.Base.Int.{ℤ, pos, negsuc, leb_ℤ, ltb_ℤ, checked_add, checked_sub}
use grainlify_stellar_contra.Base.Host.{
  Address, ◌>>=◌, ◌>>◌, pure, gets, asks, fail_if, or_fail, or_trap, trap_if, overflow,
}
use grainlify_stellar_contra.Paging.{scan, query, capped}
use grainlify_stellar_contra.Bounty.State.{
  State, Escrow, EscrowStatus, locked, released, refunded, partially_refunded, RefundRecord,
  RefundApproval, AggregateStats, not_initialized, bounty_not_found,
}
use grainlify_stellar_contra.Bounty.Guards.{Call, now, is_refundable}
use grainlify_stellar_contra.Bounty.Counters.{zero_stats}

pub record EscrowWithId : Type 0 where
  pub bounty_id : ℕ
  pub escrow : Escrow

pub record EscrowQueryFilter : Type 0 where
  pub has_status_filter : Bool
  pub status : EscrowStatus
  pub has_depositor_filter : Bool
  pub depositor : Address
  pub min_amount : ℤ
  pub max_amount : ℤ
  pub min_deadline : ℕ
  pub max_deadline : ℕ

unfoldable pub get_escrow_info : ℕ → Call Escrow
get_escrow_info bounty_id = do
  escrow ← or_fail (← gets (λ s. s.escrows bounty_id)) bounty_not_found
  pure escrow

unfoldable pub get_balance : Call ℤ
get_balance = do
  token ← or_fail (← gets (λ s. s.token)) not_initialized
  asks (λ e. e.balance token e.current_contract_address)

-- `a == b` of `EscrowStatus`
abbrev pub same_status : EscrowStatus → EscrowStatus → Bool
same_status locked locked = true
same_status released released = true
same_status refunded refunded = true
same_status partially_refunded partially_refunded = true
same_status _ _ = false

-- The lookups of a loop over an index: an identifier with no escrow is passed over.
unfoldable pub stored : State → List ℕ → List EscrowWithId
stored s [] = []
stored s (bounty_id ∷ ids) = elim (s.escrows bounty_id) [
  | none ↦ stored s ids
  | some escrow ↦ record { bounty_id = bounty_id; escrow = escrow } ∷ stored s ids
]

unfoldable pub query_escrows_by_status :
    EscrowStatus → (offset limit : ℕ) → State → List EscrowWithId
unfolding scan stored
query_escrows_by_status status offset limit s =
    query (λ x. same_status x.escrow.status status) offset (capped limit) (stored s s.escrow_index)

unfoldable pub query_escrows_by_amount :
    (low high : ℤ) (offset limit : ℕ) → State → List EscrowWithId
unfolding scan stored
query_escrows_by_amount low high offset limit s =
    query (λ x. leb_ℤ low x.escrow.amount && leb_ℤ x.escrow.amount high) offset (capped limit)
      (stored s s.escrow_index)

unfoldable pub query_escrows_by_deadline : (low high offset limit : ℕ) → State → List EscrowWithId
unfolding scan stored
query_escrows_by_deadline low high offset limit s =
    query (λ x. leb low x.escrow.deadline && leb x.escrow.deadline high) offset (capped limit)
      (stored s s.escrow_index)

unfoldable pub query_escrows_by_depositor : Address → (offset limit : ℕ) → Call (List EscrowWithId)
unfolding stored
query_escrows_by_depositor depositor offset limit = do
  index ← gets (λ s. s.depositor_index depositor)
  trap_if (leb (2 ^ 32) (offset + limit)) overflow
  gets (λ s. stored s (take limit (drop offset index)))

-- The filters of `query_escrows`, an inactive one passed by.
abbrev pub matches : EscrowQueryFilter → Escrow → Bool
matches filter escrow =
    (not filter.has_status_filter || same_status escrow.status filter.status)
    && (not filter.has_depositor_filter || escrow.depositor == filter.depositor)
    && not (ltb_ℤ (pos 0) filter.min_amount && ltb_ℤ escrow.amount filter.min_amount)
    && not (ltb_ℤ filter.max_amount (pos (2 ^ 127 - 1)) && ltb_ℤ filter.max_amount escrow.amount)
    && not (ltb 0 filter.min_deadline && ltb escrow.deadline filter.min_deadline)
    && not (ltb filter.max_deadline (2 ^ 64 - 1) && ltb filter.max_deadline escrow.deadline)

abbrev pub index_of : EscrowQueryFilter → State → List ℕ
index_of filter s =
    if filter.has_depositor_filter then s.depositor_index filter.depositor else s.escrow_index

unfoldable pub query_escrows : EscrowQueryFilter → (offset limit : ℕ) → State → List EscrowWithId
unfolding scan stored
query_escrows filter offset limit s =
    query (λ x. matches filter x.escrow) offset (capped limit) (stored s (index_of filter s))

unfoldable pub get_escrow_ids_by_status : EscrowStatus → (offset limit : ℕ) → State → List ℕ
unfolding scan stored
get_escrow_ids_by_status status offset limit s =
    map (λ x. x.bounty_id)
      (query (λ x. same_status x.escrow.status status) offset (capped limit)
        (stored s s.escrow_index))

abbrev pub get_aggregate_stats : State → AggregateStats
get_aggregate_stats s = s.counters

unfoldable pub sum_refunds : ℤ → List RefundRecord → Call ℤ
sum_refunds total [] = pure total
sum_refunds total (refund ∷ refunds) = do
  sum ← or_trap (checked_add total refund.amount) overflow
  sum_refunds sum refunds

-- The count and the locked amount of one escrow. The counts are at most the length of the index.
unfoldable pub count_escrow : EscrowStatus → ℤ → AggregateStats → Call AggregateStats
count_escrow released remaining stats =
    pure (record stats { count_released = stats.count_released + 1 })
count_escrow refunded remaining stats =
    pure (record stats { count_refunded = stats.count_refunded + 1 })
count_escrow _ remaining stats = do
  total ← or_trap (checked_add stats.total_locked remaining) overflow
  pure (record stats { total_locked = total; count_locked = stats.count_locked + 1 })

-- What one escrow adds to the statistics, with the sum of its refunds.
unfoldable pub add_escrow : Escrow → AggregateStats → ℤ → Call AggregateStats
unfolding count_escrow
add_escrow escrow stats refund_sum = do
  spent ← or_trap (checked_sub escrow.amount escrow.remaining_amount) overflow
  released_sum ← or_trap (checked_sub spent refund_sum) overflow
  total_released ← or_trap (checked_add stats.total_released released_sum) overflow
  total_refunded ← or_trap (checked_add stats.total_refunded refund_sum) overflow
  count_escrow escrow.status escrow.remaining_amount
      (record stats { total_released = total_released; total_refunded = total_refunded })

-- A round of the full scan.
unfoldable pub scan_escrow : AggregateStats → Escrow → Call AggregateStats
unfolding sum_refunds add_escrow
scan_escrow stats escrow = do
  refund_sum ← sum_refunds (pos 0) escrow.refund_history
  add_escrow escrow stats refund_sum

unfoldable pub scan_escrows : List EscrowWithId → AggregateStats → Call AggregateStats
unfolding scan_escrow
scan_escrows [] stats = pure stats
scan_escrows (x ∷ xs) stats = do stats' ← scan_escrow stats x.escrow; scan_escrows xs stats'

unfoldable pub get_aggregate_stats_full_scan : Call AggregateStats
unfolding scan_escrows stored
get_aggregate_stats_full_scan = do
  escrows ← gets (λ s. stored s s.escrow_index)
  scan_escrows escrows zero_stats

abbrev pub get_total_bounties_created : State → ℕ
get_total_bounties_created s = length s.escrow_index

abbrev pub get_escrow_count : State → ℕ
get_escrow_count s = get_total_bounties_created s

unfoldable pub get_refund_history : ℕ → Call (List RefundRecord)
get_refund_history bounty_id = do
  escrow ← or_fail (← gets (λ s. s.escrows bounty_id)) bounty_not_found
  pure escrow.refund_history

-- Whether a refund is possible, whether the deadline has passed, what remains, and the approval.
unfoldable pub get_refund_eligibility : ℕ → Call (Bool × Bool × ℤ × Option RefundApproval)
get_refund_eligibility bounty_id = do
  escrow ← or_fail (← gets (λ s. s.escrows bounty_id)) bounty_not_found
  time ← now
  let deadline_passed = leb escrow.deadline time
  approval ← gets (λ s. s.refund_approvals bounty_id)
  let can_refund = is_refundable escrow.status && (deadline_passed || is_some approval)
  pure (can_refund, deadline_passed, escrow.remaining_amount, approval)
