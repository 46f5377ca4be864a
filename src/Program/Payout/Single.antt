-- ===== src/Program/Payout/Single.antt =====
-- What the guards of `single_payout` establish before any token moves.
use grainlify_stellar_contra.Base.{◌≡◌, ◌∙◌, true, false, some, arith, is_some, sym}
use grainlify_stellar_contra.Base.Int.{ℤ, pos, ◌≤ℤ◌, ◌<ℤ◌, ltb_ℤ, leb_ℤ}
use grainlify_stellar_contra.Base.Host.{Address, Symbol, Env, ok, >>=-eq_ok}
use grainlify_stellar_contra.Bounty.Circuit.{check_and_allow}
use grainlify_stellar_contra.Program.State.{State, ProgramData, Operation, global, of_recipient}
use grainlify_stellar_contra.Program.Guards.{
  sym_sngl_pay, enter, open_payout, check_governance_version, check_paused, is_dispute_open_for_key,
  is_payable,
}
use grainlify_stellar_contra.Program.Payout.{
  check_release_allowed, check_balance, check_single_payout, open_single, check_payment,
}

-- What has to hold for the program to pay: its flags, its governance, its key's authorisation.
pub record CanPay (e : Env) (s : State) (d : ProgramData) : Type 0 where
  pub idle : s.reentrancy_guard ≡ false
  pub allowed : is_some (check_and_allow e s.circuit).0 ≡ false
  pub running : check_paused s.pause_flags Operation.release ≡ false
  pub undisputed : is_dispute_open_for_key global s ≡ false
  pub governed : check_governance_version e s ≡ true
  pub program : s.program_data ≡ some d
  pub signed : e.authorized d.authorized_payout_key ≡ true

-- What has to hold for a recipient to be paid.
abbrev pub CanReceive : State → Address → Type 0
CanReceive s a = (is_payable a s ≡ true) × (is_dispute_open_for_key (of_recipient a) s ≡ false)

abbrev pub entered : State → State
entered s = record s { reentrancy_guard = true }

pub check_balance-ok :
    (e : Env) (s s' : State) (d : ProgramData) (a : ℤ) (sym : Symbol)
    → check_balance d a sym e s ≡ ok (tt, s')
    → (s' ≡ s) × (ltb_ℤ d.remaining_balance a ≡ false)
unfolding check_balance
check_balance-ok e s s' d a sym h = ground arith

pub open_single-ok :
    (e : Env) (s s' : State) (r : Address) {d : ProgramData}
    → open_single r e s ≡ ok (d, s')
    → (s' ≡ entered s) × CanPay e s d × (is_dispute_open_for_key (of_recipient r) s ≡ false)
unfolding open_single enter check_release_allowed open_payout is_dispute_open_for_key
open_single-ok e s s' r {d} h = (
  ground arith,
  record {
    idle = ground arith;
    allowed = ground arith;
    running = ground arith;
    undisputed = ground arith;
    governed = ground arith;
    program = ground arith;
    signed = ground arith;
  },
  ground arith,
)

pub check_payment-ok :
    (e : Env) (s s' : State) (r : Address) (a : ℤ) (d : ProgramData) {d' : ProgramData}
    → check_payment r a d e s ≡ ok (d', s')
    → (s' ≡ s)
      × (d' ≡ d)
      × (is_payable r s ≡ true)
      × (leb_ℤ a (pos 0) ≡ false)
      × (ltb_ℤ d.remaining_balance a ≡ false)
unfolding check_payment
check_payment-ok e s s' r a d h = ground (arith, check_balance-ok e s s' d a sym_sngl_pay)

-- A payout that passes its checks may be made, and the checks change the guard alone.
pub check_single_payout-ok :
    (e : Env) (s s' : State) (r : Address) (a : ℤ) {d : ProgramData}
    → check_single_payout r a e s ≡ ok (d, s')
    → (s' ≡ entered s) × CanPay e s d × CanReceive s r × (pos 0 <ℤ a) × (a ≤ℤ d.remaining_balance)
unfolding check_single_payout is_payable
check_single_payout-ok e s s' r a {d} h =
    let (d0, s1, opened, h1) = >>=-eq_ok (check_payment r a) e (open_single r) s h in
    let (same, can, free) = open_single-ok e s s1 r opened in
    let (same', same_d, payable, positive, enough) = check_payment-ok e s1 s' r a d0 h1 in
    (
      same' ∙ same,
      rw same_d can,
      ((let q = rw same at payable in q), free),
      ground arith,
      ground arith,
    )
