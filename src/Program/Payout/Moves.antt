-- ===== src/Program/Payout/Moves.antt =====
-- The parts of the payouts after their checks: the transfers, the new record of the program, and the
-- events and counters.
use grainlify_stellar_contra.Base.{
  append_nil, append_assoc_one, ℕ, ◌≡◌, ◌∙◌, sym, refl, List, [], ◌∷◌, ◌++◌, some, arith, length,
  push_back,
}
use grainlify_stellar_contra.Base.Int.{ℤ, pos, quot, ◌-ℤ◌, checked_sub}
use grainlify_stellar_contra.Base.Host.{
  Address, Env, Symbol, ok, ◌>>=◌, ◌>>◌, pure, >>=-eq_ok, >>-eq_ok,
}
use grainlify_stellar_contra.Program.State.{State, ProgramData, PayoutRecord, Event}
use grainlify_stellar_contra.Program.Guards.{
  Call, now, emit, track, clear_entered, client_transfer, emit_aggregate_stats,
  check_and_emit_large_payout, get_large_payout_threshold_amount, emit_large_payout, sym_payout,
  sym_batchpay,
}
use grainlify_stellar_contra.Program.Payout.{
  pay_single, pay_batch, pay_each, payout_record, announce_large, announce_batch, settle_batch,
}
use grainlify_stellar_contra.Program.Ledger.{send_all, sending, payments}
use grainlify_stellar_contra.Program.Books.{
  SameBooks, SameSchedules, SameBooks-trans, SameBooks-event, SameSchedules-transfers,
}

pub track-SameBooks :
    (e : Env) (s s' : State) (sym : Symbol) (a : Address) (n : ℕ)
    → track sym a n e s ≡ ok (tt, s')
    → SameBooks s s'
unfolding track
track-SameBooks e s s' sym a n h = ground arith

pub emit_aggregate_stats-SameBooks :
    (e : Env) (s s' : State) (d : ProgramData)
    → emit_aggregate_stats d e s ≡ ok (tt, s')
    → SameBooks s s'
unfolding emit_aggregate_stats
emit_aggregate_stats-SameBooks e s s' d h = ground arith

pub announce_large-SameBooks :
    (e : Env) (s s' : State) (id : Symbol) (t : ℤ) (rs : List Address) (amounts : List ℤ)
    → announce_large id t rs amounts e s ≡ ok (tt, s')
    → SameBooks s s'
unfolding announce_large
announce_large-SameBooks e s s' id t [] amounts h = ground arith
announce_large-SameBooks e s s' id t (r ∷ rs) [] h = ground arith
announce_large-SameBooks e s s' id t (r ∷ rs) (a ∷ amounts) h =
    let (_, s1, first, h1) =
      >>-eq_ok (announce_large id t rs amounts) e (emit_large_payout id r a t) s h in
    let one : SameBooks s s1 = ground arith in
    SameBooks-trans s s1 s' one (announce_large-SameBooks e s1 s' id t rs amounts h1)

pub pay_single-ok :
    (e : Env) (s s' : State) (r : Address) (a : ℤ) (d : ProgramData) {d' : ProgramData}
    → pay_single r a d e s ≡ ok (d', s')
    → (s'.program_data ≡ some d')
      × (d' ≡ record d {
        remaining_balance = d.remaining_balance -ℤ a;
        payout_history = push_back d.payout_history (payout_record r a e.timestamp);
      })
      × (s'.transfers
          ≡ sending d.token_address e.current_contract_address (payout_record r a e.timestamp)
            ∷ s.transfers)
      × SameSchedules s s'
unfolding pay_single client_transfer checked_sub
pay_single-ok e s s' r a d h = (ground arith, ground arith, ground arith, ground arith)

pub client_transfer-ok :
    (e : Env) (s s' : State) (t from to : Address) (a : ℤ)
    → client_transfer t from to a e s ≡ ok (tt, s')
    → s' ≡ record s {
      transfers = record { token = t; from = from; to = to; amount = a } ∷ s.transfers;
    }
unfolding client_transfer
client_transfer-ok e s s' t from to a h = ground arith

pub pay_each-ok :
    (e : Env) (s s' : State) (t : Address) (rs : List Address) (amounts : List ℤ)
    (history : List PayoutRecord) {history' : List PayoutRecord}
    → length rs ≡ length amounts
    → pay_each t rs amounts history e s ≡ ok (history', s')
    → (history' ≡ history ++ payments e.timestamp rs amounts)
      × (s' ≡ record s {
        transfers =
            send_all t e.current_contract_address (payments e.timestamp rs amounts) s.transfers;
      })
unfolding pay_each
pay_each-ok e s s' t [] [] history {history'} l h =
    ((let same : history ≡ history' = cc in rw (← same) (append_nil history)), cc)
pay_each-ok e s s' t [] (a ∷ amounts) history l h = ground arith
pay_each-ok e s s' t (r ∷ rs) [] history l h = ground arith
pay_each-ok e s s' t (r ∷ rs) (a ∷ amounts) history {history'} l h =
    let p = payout_record r a e.timestamp in
    let (_, s1, sent, h1) =
      >>-eq_ok (now >>= λ time. pay_each t rs amounts (push_back history (payout_record r a time)))
        e (client_transfer t e.current_contract_address r a) s h in
    let here = client_transfer-ok e s s1 t e.current_contract_address r a sent in
    let (grown, written) =
      pay_each-ok e s1 s' t rs amounts (push_back history p) (omega arith) h1 in
    (grown ∙ append_assoc_one history p (payments e.timestamp rs amounts), written ∙ rw here refl)

pub settle_batch-ok :
    (e : Env) (s s' : State) (d : ProgramData) (n : ℤ) (history : List PayoutRecord)
    {d' : ProgramData}
    → settle_batch d n history e s ≡ ok (d', s')
    → (s'.program_data ≡ some d')
      × (d' ≡ record d { remaining_balance = d.remaining_balance -ℤ n; payout_history = history })
      × (s'.transfers ≡ s.transfers)
      × SameSchedules s s'
unfolding settle_batch checked_sub
settle_batch-ok e s s' d n history h = (ground arith, ground arith, ground arith, ground arith)

pub pay_batch-ok :
    (e : Env) (s s' : State) (rs : List Address) (amounts : List ℤ) (d : ProgramData) (n : ℤ)
    {d' : ProgramData}
    → length rs ≡ length amounts
    → pay_batch rs amounts d n e s ≡ ok (d', s')
    → (s'.program_data ≡ some d')
      × (d' ≡ record d {
        remaining_balance = d.remaining_balance -ℤ n;
        payout_history = d.payout_history ++ payments e.timestamp rs amounts;
      })
      × (s'.transfers
          ≡ send_all d.token_address e.current_contract_address
              (payments e.timestamp rs amounts)
              s.transfers)
      × SameSchedules s s'
unfolding pay_batch
pay_batch-ok e s s' rs amounts d n {d'} l h =
    let (history, s1, paid, h1) =
      >>=-eq_ok (settle_batch d n) e (pay_each d.token_address rs amounts d.payout_history) s h in
    let (grown, written) = pay_each-ok e s s1 d.token_address rs amounts d.payout_history l paid in
    let (stored, changed, kept, same) = settle_batch-ok e s1 s' d n history h1 in
    (
      stored,
      changed ∙ rw grown refl,
      kept ∙ rw written refl,
      SameSchedules-transfers s s' _ (rw written at same),
    )

pub announce_batch-SameBooks :
    (e : Env) (s s' : State) (rs : List Address) (amounts : List ℤ) (d : ProgramData) (t : ℤ)
    (start : ℕ)
    → announce_batch rs amounts d t start e s ≡ ok (tt, s')
    → SameBooks s s'
unfolding announce_batch
announce_batch-SameBooks e s s' rs amounts d t start h =
    let finish = track sym_batchpay d.authorized_payout_key start >> emit_aggregate_stats d in
    let paid = Event.batch_paid d.program_id (length rs) t d.remaining_balance in
    let (_, s1, large, h1) =
      >>-eq_ok (emit paid >> finish) e
        (announce_large d.program_id (quot d.total_funds (pos 10)) rs amounts) s h in
    let (_, s2, tracked, h2) =
      >>-eq_ok (emit_aggregate_stats d) e (track sym_batchpay d.authorized_payout_key start)
        (record s1 { events = paid ∷ s1.events }) h1 in
    let p =
      announce_large-SameBooks e s s1 d.program_id (quot d.total_funds (pos 10)) rs amounts large in
    let q = track-SameBooks e (record s1 { events = paid ∷ s1.events }) s2 _ _ _ tracked in
    let r = emit_aggregate_stats-SameBooks e s2 s' d h2 in
    SameBooks-trans s s1 s' p (SameBooks-event s1 s' _ (SameBooks-trans _ s2 s' q r))

unfoldable pub close_single : ProgramData → Address → ℤ → ProgramData → ℕ → Call ProgramData
close_single program r a updated start = do
  check_and_emit_large_payout updated r a
  emit (Event.paid updated.program_id r a updated.remaining_balance)
  track sym_payout program.authorized_payout_key start
  emit_aggregate_stats updated
  clear_entered
  pure updated

pub close_single-ok :
    (e : Env) (s s' : State) (d : ProgramData) (r : Address) (a : ℤ) (u : ProgramData) (n : ℕ)
    {d' : ProgramData}
    → close_single d r a u n e s ≡ ok (d', s')
    → SameBooks s s' × (d' ≡ u)
unfolding close_single check_and_emit_large_payout get_large_payout_threshold_amount track
    emit_aggregate_stats
close_single-ok e s s' d r a u n h = (
  record {
    same_program = ground arith;
    same_schedules = ground arith;
    same_history = ground arith;
    same_next = ground arith;
    same_transfers = ground arith;
  },
  ground arith,
)
