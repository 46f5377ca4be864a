-- ===== src/Program/Ledger.antt =====
-- The abstract view of the program escrow: a balance, the payouts made from it, and the token
-- transfers that carried them. The payouts of program-escrow/src/lib.rs are its operation `pay`.
use grainlify_stellar_contra.Base.{
  ℕ, ◌≡◌, refl, ◌∙◌, List, [], ◌∷◌, ◌++◌, push_back, append_nil, append_assoc_one,
}
use grainlify_stellar_contra.Base.Int.{ℤ, pos, ◌+ℤ◌, ◌-ℤ◌, int_laws}
use grainlify_stellar_contra.Base.Host.{Address, Transfer}
use grainlify_stellar_contra.Program.State.{State, ProgramData, PayoutRecord}
use grainlify_stellar_contra.Program.Payout.{payout_record}

pub record Ledger : Type 0 where
  pub balance : ℤ
  pub paid : List PayoutRecord
  pub sent : List Transfer

abbrev pub view : ProgramData → State → Ledger
view d s = record { balance = d.remaining_balance; paid = d.payout_history; sent = s.transfers }

abbrev pub sending : (token this : Address) → PayoutRecord → Transfer
sending token this p = record { token = token; from = this; to = p.recipient; amount = p.amount }

-- One payout.
abbrev pub pay : (token this : Address) → PayoutRecord → Ledger → Ledger
pay token this p l = record {
  balance = l.balance -ℤ p.amount;
  paid = push_back l.paid p;
  sent = sending token this p ∷ l.sent;
}

-- A list of payouts, one after the other.
abbrev pub pay_all : (token this : Address) → List PayoutRecord → Ledger → Ledger
pay_all token this [] l = l
pay_all token this (p ∷ ps) l = pay_all token this ps (pay token this p l)

-- The transfers of a list of payouts, after those made before.
abbrev pub send_all : (token this : Address) → List PayoutRecord → List Transfer → List Transfer
send_all token this [] ts = ts
send_all token this (p ∷ ps) ts = send_all token this ps (sending token this p ∷ ts)

abbrev pub total : List PayoutRecord → ℤ
total [] = pos 0
total (p ∷ ps) = p.amount +ℤ total ps

-- The payouts that two lists of the same length stand for.
abbrev pub payments : ℕ → List Address → List ℤ → List PayoutRecord
payments time [] as_ = []
payments time (r ∷ rs) [] = []
payments time (r ∷ rs) (a ∷ as_) = payout_record r a time ∷ payments time rs as_

sub_sub : (b a c : ℤ) → b -ℤ a -ℤ c ≡ b -ℤ (a +ℤ c)
sub_sub b a c = omega int_laws

sub_zero : (b : ℤ) → b ≡ b -ℤ pos 0
sub_zero b = omega int_laws

-- Payouts one after the other, as one payment of their total.
pub pay_all-total :
    (token this : Address) (ps : List PayoutRecord) (l : Ledger)
    → pay_all token this ps l ≡ record {
      balance = l.balance -ℤ total ps;
      paid = l.paid ++ ps;
      sent = send_all token this ps l.sent;
    }
pay_all-total token this [] l = rw (← sub_zero l.balance, ← append_nil l.paid) refl
pay_all-total token this (p ∷ ps) l =
    pay_all-total token this ps (pay token this p l)
    ∙ rw (sub_sub l.balance p.amount (total ps), append_assoc_one l.paid p ps) refl
