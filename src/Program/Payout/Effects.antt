-- ===== src/Program/Payout/Effects.antt =====
-- The effects of `single_payout` and `batch_payout`: each makes its payments, one after the other,
-- and what follows them changes counters and events alone.
use grainlify_stellar_contra.Program.Payout.Single.{CanPay, CanReceive, check_single_payout-ok}
use grainlify_stellar_contra.Base.{
  ℕ, ◌≡◌, ◌∙◌, sym, ap, refl, List, [], ◌∷◌, some, arith, length, push_back, ◌<◌, ◌≤◌, All, false,
}
use grainlify_stellar_contra.Base.Int.{ℤ, pos, ◌+ℤ◌, ◌-ℤ◌, ◌≤ℤ◌, ◌<ℤ◌, int_laws}
use grainlify_stellar_contra.Base.Host.{Address, Env, ok, ◌>>=◌, ◌>>◌, pure, >>=-eq_ok, >>-eq_ok}
use grainlify_stellar_contra.Program.State.{State, ProgramData}
use grainlify_stellar_contra.Program.Guards.{clear_entered}
use grainlify_stellar_contra.Program.Payout.{
  single_payout, batch_payout, check_single_payout, check_batch_payout, pay_single, pay_batch,
  payout_record, announce_batch, max_batch_size,
}
use grainlify_stellar_contra.Program.Ledger.{total, payments}
use grainlify_stellar_contra.Program.Books.{
  SameSchedules, SameSchedules-trans, SameSchedules-guard, SameSchedules-cleared,
  SameBooks-SameSchedules, PaysRecorded,
}
use grainlify_stellar_contra.Program.Payout.Checks.{sum_of, check_batch_payout-ok}
use grainlify_stellar_contra.Program.Payout.Moves.{
  pay_single-ok, pay_batch-ok, announce_batch-SameBooks, close_single, close_single-ok,
}

sub_one : (b a : ℤ) → b -ℤ a ≡ b -ℤ (a +ℤ pos 0)
sub_one b a = omega int_laws

-- `single_payout` passes its checks, makes its payment and records it.
pub single_payout-pays :
    (e : Env) (s s' : State) (r : Address) (a : ℤ) {d' : ProgramData}
    → single_payout r a e s ≡ ok (d', s')
    → (d : ProgramData) × CanPay e s d
      × CanReceive s r
      × (pos 0 <ℤ a)
      × (a ≤ℤ d.remaining_balance)
      × PaysRecorded e s s' d d' (payout_record r a e.timestamp ∷ [])
      × SameSchedules s s'
unfolding single_payout close_single
single_payout-pays e s s' r a {d'} h =
    let (d, s1, checked, h1) =
      >>=-eq_ok (λ d. pay_single r a d >>= λ u. close_single d r a u e.timestamp) e
        (check_single_payout r a) s h in
    let (u, s2, paid, h2) =
      >>=-eq_ok (λ u. close_single d r a u e.timestamp) e (pay_single r a d) s1 h1 in
    let (state, can, may, positive, enough) = check_single_payout-ok e s s1 r a checked in
    let (stored, changed, sent, same) = pay_single-ok e s1 s2 r a d paid in
    let (books, last) = close_single-ok e s2 s' d r a u e.timestamp h2 in
    let schedules = SameSchedules-trans s1 s2 s' same (SameBooks-SameSchedules s2 s' books) in
    (
      d,
      can,
      may,
      positive,
      enough,
      record {
        before = can.program;
        then_ = books.same_program ∙ stored ∙ ap (λ (x : ProgramData). some x) (sym last);
        changed =
            last
            ∙ changed
            ∙ ap
                (λ (b : ℤ). record d {
                  remaining_balance = b;
                  payout_history = push_back d.payout_history (payout_record r a e.timestamp);
                })
                (sub_one d.remaining_balance a);
        sent = books.same_transfers ∙ sent ∙ rw state refl;
      },
      SameSchedules-guard s s1 s' state schedules,
    )

payments-total :
    (time : ℕ) (rs : List Address) (amounts : List ℤ)
    → length rs ≡ length amounts
    → sum_of amounts ≡ total (payments time rs amounts)
payments-total time [] [] l = refl
payments-total time [] (a ∷ amounts) l = ground arith
payments-total time (r ∷ rs) [] l = ground arith
payments-total time (r ∷ rs) (a ∷ amounts) l =
    ap (λ (n : ℤ). a +ℤ n) (payments-total time rs amounts (omega arith))

clear_entered-ok :
    (e : Env) (s s' : State) (u : ProgramData) {d : ProgramData}
    → (clear_entered >> pure u) e s ≡ ok (d, s')
    → (u ≡ d) × (record s { reentrancy_guard = false } ≡ s')
clear_entered-ok e s s' u h = (cc, cc)

-- `batch_payout` passes its checks, makes its payments in order and records them.
pub batch_payout-pays :
    (e : Env) (s s' : State) (rs : List Address) (amounts : List ℤ) {d' : ProgramData}
    → batch_payout rs amounts e s ≡ ok (d', s')
    → (d : ProgramData) × CanPay e s d
      × All (CanReceive s) rs
      × All (λ a. pos 0 <ℤ a) amounts
      × (sum_of amounts ≤ℤ d.remaining_balance)
      × (length rs ≡ length amounts)
      × (0 < length rs)
      × (length rs ≤ max_batch_size)
      × PaysRecorded e s s' d d' (payments e.timestamp rs amounts)
      × SameSchedules s s'
unfolding batch_payout
batch_payout-pays e s s' rs amounts {d'} h =
    let close = λ (c : ProgramData × ℤ) (u : ProgramData).
      announce_batch rs amounts u c.1 e.timestamp >> (clear_entered >> pure u) in
    let (c, s1, checked, h1) =
      >>=-eq_ok (λ c. pay_batch rs amounts c.0 c.1 >>= close c) e (check_batch_payout rs amounts) s
        h in
    let (d, n) = c in
    let (u, s2, paid, h2) = >>=-eq_ok (close (d, n)) e (pay_batch rs amounts d n) s1 h1 in
    let (_, s3, told, h3) =
      >>-eq_ok (clear_entered >> pure u) e (announce_batch rs amounts u n e.timestamp) s2 h2 in
    let (state, can, sum, equal, some_, few, may, positive, enough) =
      check_batch_payout-ok e s s1 rs amounts checked in
    let (stored, changed, sent, same) = pay_batch-ok e s1 s2 rs amounts d n equal paid in
    let books = announce_batch-SameBooks e s2 s3 rs amounts u n e.timestamp told in
    let (last, cleared) = clear_entered-ok e s3 s' u h3 in
    let program : s3.program_data ≡ s'.program_data = ap (λ (x : State). x.program_data) cleared in
    let schedules = SameSchedules-trans s1 s2 s3 same (SameBooks-SameSchedules s2 s3 books) in
    let due : n ≡ total (payments e.timestamp rs amounts) =
      sum ∙ payments-total e.timestamp rs amounts equal in
    (
      d,
      can,
      may,
      positive,
      rw sum at enough,
      equal,
      some_,
      few,
      record {
        before = can.program;
        then_ = sym program ∙ books.same_program ∙ stored ∙ ap (λ (x : ProgramData). some x) last;
        changed = sym last ∙ changed ∙ rw due refl;
        sent =
            sym (ap (λ (x : State). x.transfers) cleared)
            ∙ books.same_transfers
            ∙ sent
            ∙ rw state refl;
      },
      SameSchedules-cleared s s3 s' cleared (SameSchedules-guard s s1 s3 state schedules),
    )
