-- ===== src/Program/Payout/Checks.antt =====
-- What the guards of `single_payout` and `batch_payout` establish before any token moves.
use grainlify_stellar_contra.Base.{
  ℕ, ◌≡◌, ◌∙◌, ◌≤◌, ◌<◌, true, false, some, List, [], ◌∷◌, arith, length, All, All-both, sym,
}
use grainlify_stellar_contra.Base.Int.{
  ℤ, pos, ◌+ℤ◌, ◌≤ℤ◌, ◌<ℤ◌, leb_ℤ, checked_add, int_laws, checked_add-eq_some,
}
use grainlify_stellar_contra.Base.Host.{
  Address, Env, ok, ◌>>=◌, ◌>>◌, pure, trap_if, or_trap, >>=-eq_ok, >>-eq_ok, amount_not_positive,
  overflow,
}
use grainlify_stellar_contra.Program.State.{State, Error, ProgramData, of_recipient}
use grainlify_stellar_contra.Program.Guards.{
  sym_batch_pay, enter, open_payout, is_dispute_open_for_key, is_payable,
}
use grainlify_stellar_contra.Program.Payout.{
  check_release_allowed, check_payable, check_undisputed, check_lengths, sum_payouts, check_balance,
  check_batch_payout, open_batch, check_payments, max_batch_size,
}
use grainlify_stellar_contra.Program.Payout.Single.{CanPay, CanReceive, entered, check_balance-ok}

abbrev pub sum_of : List ℤ → ℤ
sum_of [] = pos 0
sum_of (a ∷ rest) = a +ℤ sum_of rest

check_payable-ok :
    (e : Env) (s s' : State) (rs : List Address)
    → check_payable rs e s ≡ ok (tt, s')
    → (s' ≡ s) × All (λ a. is_payable a s ≡ true) rs
unfolding check_payable
check_payable-ok e s s' [] h = (cc, tt)
check_payable-ok e s s' (a ∷ rs) h = ground (arith, check_payable-ok e s s' rs)

check_undisputed-ok :
    (e : Env) (s s' : State) (rs : List Address)
    → check_undisputed rs e s ≡ ok (tt, s')
    → (s' ≡ s) × All (λ a. is_dispute_open_for_key (of_recipient a) s ≡ false) rs
unfolding check_undisputed
check_undisputed-ok e s s' [] h = (cc, tt)
check_undisputed-ok e s s' (a ∷ rs) h = ground (arith, check_undisputed-ok e s s' rs)

add_assoc : (t a b : ℤ) → t +ℤ a +ℤ b ≡ t +ℤ (a +ℤ b)
add_assoc t a b = omega int_laws

add_zero : (t : ℤ) → t ≡ t +ℤ pos 0
add_zero t = omega int_laws

zero_add : (t : ℤ) → pos 0 +ℤ t ≡ t
zero_add t = omega int_laws

trap_if_small-ok :
    (e : Env) (s s' : State) (a : ℤ)
    → trap_if {S = State} {E = Error} (leb_ℤ a (pos 0)) amount_not_positive e s ≡ ok (tt, s')
    → (s' ≡ s) × (pos 0 <ℤ a)
trap_if_small-ok e s s' a h = ground arith

add_or_trap-ok :
    (e : Env) (s s' : State) (t a : ℤ) {n : ℤ}
    → or_trap {S = State} {E = Error} (checked_add t a) overflow e s ≡ ok (n, s')
    → (s' ≡ s) × (checked_add t a ≡ some n)
add_or_trap-ok e s s' t a h = ground arith

sum_payouts-ok :
    (e : Env) (s s' : State) (t : ℤ) (amounts : List ℤ) {n : ℤ}
    → sum_payouts t amounts e s ≡ ok (n, s')
    → (s' ≡ s) × (n ≡ t +ℤ sum_of amounts) × All (λ a. pos 0 <ℤ a) amounts
unfolding sum_payouts
sum_payouts-ok e s s' t [] {n} h = (cc, (let last : t ≡ n = cc in rw (← last) (add_zero t)), tt)
sum_payouts-ok e s s' t (a ∷ rest) {n} h =
    let (_, s1, small, h1) =
      >>-eq_ok (or_trap (checked_add t a) overflow >>= λ m. sum_payouts m rest) e
        (trap_if (leb_ℤ a (pos 0)) amount_not_positive) s h in
    let (m, s2, added, h2) =
      >>=-eq_ok (λ m. sum_payouts m rest) e (or_trap (checked_add t a) overflow) s1 h1 in
    let (same1, positive) = trap_if_small-ok e s s1 a small in
    let (same2, fits) = add_or_trap-ok e s1 s2 t a added in
    let (same3, sum, all) = sum_payouts-ok e s2 s' m rest h2 in
    (
      same3 ∙ same2 ∙ same1,
      sum ∙ rw (checked_add-eq_some t a fits) (add_assoc t a (sum_of rest)),
      (positive, all),
    )

open_batch-ok :
    (e : Env) (s s' : State) {d : ProgramData}
    → open_batch e s ≡ ok (d, s')
    → (s' ≡ entered s) × CanPay e s d
unfolding open_batch enter check_release_allowed open_payout
open_batch-ok e s s' {d} h = (
  ground arith,
  record {
    idle = ground arith;
    allowed = ground arith;
    running = ground arith;
    undisputed = ground arith;
    governed = ground arith;
    program = ground arith;
    signed = ground arith;
  },
)

check_lengths-ok :
    (e : Env) (s s' : State) (n m : ℕ)
    → check_lengths n m e s ≡ ok (tt, s')
    → (s' ≡ s) × (n ≡ m) × (0 < n) × (n ≤ max_batch_size)
unfolding check_lengths
check_lengths-ok e s s' n m h = ground arith

check_payments-ok :
    (e : Env) (s s' : State) (rs : List Address) (amounts : List ℤ) (d : ProgramData) {n : ℤ}
    → check_payments rs amounts d e s ≡ ok (n, s')
    → (s' ≡ s)
      × (n ≡ sum_of amounts)
      × (length rs ≡ length amounts)
      × (0 < length rs)
      × (length rs ≤ max_batch_size)
      × All (CanReceive s) rs
      × All (λ a. pos 0 <ℤ a) amounts
      × (n ≤ℤ d.remaining_balance)
unfolding check_payments
check_payments-ok e s s' rs amounts d {n} h =
    let finish = λ (total : ℤ). check_balance d total sym_batch_pay >> pure total in
    let (_, s1, payable, h1) =
      >>-eq_ok
        (check_lengths (length rs) (length amounts)
          >> (check_undisputed rs >> (sum_payouts (pos 0) amounts >>= finish)))
        e (check_payable rs) s h in
    let (_, s2, lengths, h2) =
      >>-eq_ok (check_undisputed rs >> (sum_payouts (pos 0) amounts >>= finish)) e
        (check_lengths (length rs) (length amounts)) s1 h1 in
    let (_, s3, free, h3) =
      >>-eq_ok (sum_payouts (pos 0) amounts >>= finish) e (check_undisputed rs) s2 h2 in
    let (m, s4, summed, h4) = >>=-eq_ok finish e (sum_payouts (pos 0) amounts) s3 h3 in
    let (_, s5, balance, h5) = >>-eq_ok (pure m) e (check_balance d m sym_batch_pay) s4 h4 in
    let (same1, may) = check_payable-ok e s s1 rs payable in
    let (same2, equal, some_, few) =
      check_lengths-ok e s1 s2 (length rs) (length amounts) lengths in
    let (same3, clear) = check_undisputed-ok e s2 s3 rs free in
    let (same4, sum, positive) = sum_payouts-ok e s3 s4 (pos 0) amounts summed in
    let (same5, enough) = check_balance-ok e s4 s5 d m sym_batch_pay balance in
    let last : m ≡ n = cc in
    let back : s2 ≡ s = same2 ∙ same1 in
    let state : s5 ≡ s' = cc in
    let fits : m ≤ℤ d.remaining_balance = ground arith in
    (
      sym state ∙ same5 ∙ same4 ∙ same3 ∙ back,
      sym last ∙ sum ∙ zero_add (sum_of amounts),
      equal,
      some_,
      few,
      All-both _ _ rs may (rw back at clear),
      positive,
      rw last at fits,
    )

-- A batch that passes its checks may be paid, and the checks change the guard alone.
pub check_batch_payout-ok :
    (e : Env) (s s' : State) (rs : List Address) (amounts : List ℤ) {d : ProgramData} {n : ℤ}
    → check_batch_payout rs amounts e s ≡ ok ((d, n), s')
    → (s' ≡ entered s)
      × CanPay e s d
      × (n ≡ sum_of amounts)
      × (length rs ≡ length amounts)
      × (0 < length rs)
      × (length rs ≤ max_batch_size)
      × All (CanReceive s) rs
      × All (λ a. pos 0 <ℤ a) amounts
      × (n ≤ℤ d.remaining_balance)
unfolding check_batch_payout is_payable is_dispute_open_for_key
check_batch_payout-ok e s s' rs amounts {d} {n} h =
    let (d0, s1, opened, h1) =
      >>=-eq_ok (λ d. check_payments rs amounts d >>= λ t. pure (d, t)) e open_batch s h in
    let (m, s2, checked, h2) =
      >>=-eq_ok (λ t. pure (d0, t)) e (check_payments rs amounts d0) s1 h1 in
    let (same, can) = open_batch-ok e s s1 opened in
    let (same', sum, equal, some_, few, may, positive, enough) =
      check_payments-ok e s1 s2 rs amounts d0 checked in
    let state : s2 ≡ s' = cc in
    let program : d0 ≡ d = cc in
    let total : m ≡ n = cc in
    (
      sym state ∙ same' ∙ same,
      rw program at can,
      sym total ∙ sum,
      equal,
      some_,
      few,
      rw same at may,
      positive,
      rw (total, program) at enough,
    )
