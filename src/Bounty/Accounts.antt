-- ===== src/Bounty/Accounts.antt =====
-- The contract's books: what its token transfers brought in, and what its escrows still owe.
use grainlify_stellar_contra.Base.{
  ℕ, ◌≡◌, ◌≢◌, refl, true, false, Option, some, none, List, [], ◌∷◌, arith, Map, insert, push_back,
  contains, IsDistinct, is_some, ◌==◌, if◌then◌else◌, contains-push_back, push_back-IsDistinct,
  Bool-cases, inl, inr,
}
use grainlify_stellar_contra.Base.Int.{ℤ, pos, ◌+ℤ◌, ◌-ℤ◌, int_laws}
use grainlify_stellar_contra.Base.Host.{Address, Env, Transfer}
use grainlify_stellar_contra.Bounty.State.{State, Escrow}
use grainlify_stellar_contra.Bounty.Payment.{Pays, Opens}

-- What one transfer brings to `this`.
abbrev pub flow : Address → Transfer → ℤ
flow this t =
    (if t.to == this then t.amount else pos 0) -ℤ (if t.from == this then t.amount else pos 0)

pub net : Address → List Transfer → ℤ
net this [] = pos 0
net this (t ∷ ts) = net this ts +ℤ flow this t

abbrev pub remaining_of : Option Escrow → ℤ
remaining_of none = pos 0
remaining_of (some x) = x.remaining_amount

-- What the escrows of the listed bounties still owe.
pub owed : List ℕ → Map Escrow → ℤ
owed [] m = pos 0
owed (b ∷ bs) m = owed bs m +ℤ remaining_of (m b)

-- What the contract holds beyond what it owes.
pub surplus : Env → State → ℤ
surplus e s = net e.current_contract_address s.transfers -ℤ owed s.escrow_index s.escrows

-- The index lists each escrow once.
pub record IsIndexed (s : State) : Type 0 where
  pub distinct : IsDistinct s.escrow_index
  pub listed : (b : ℕ) → is_some (s.escrows b) ≡ contains s.escrow_index b

owed-insert_absent :
    (ids : List ℕ) (b : ℕ) (x : Escrow) (m : Map Escrow)
    → contains ids b ≡ false
    → owed ids (insert b x m) ≡ owed ids m
unfolding owed
owed-insert_absent [] b x m h = refl
owed-insert_absent (i ∷ ids) b x m h = ground (arith, owed-insert_absent ids b x m)

owed-insert :
    (ids : List ℕ) (b : ℕ) (x x' : Escrow) (m : Map Escrow)
    → IsDistinct ids
    → contains ids b ≡ true
    → m b ≡ some x
    → owed ids (insert b x' m) +ℤ x.remaining_amount ≡ owed ids m +ℤ x'.remaining_amount
unfolding owed
owed-insert [] b x x' m d h k = cc
owed-insert (i ∷ ids) b x x' m d h k = elim (Bool-cases (i == b)) [
  | inl here ↦ grind (int_laws, owed-insert_absent ids b x' m)
  | inr later ↦ grind (int_laws, owed-insert ids b x x' m)
]

owed-push_back :
    (ids : List ℕ) (b : ℕ) (m : Map Escrow)
    → owed (push_back ids b) m ≡ owed ids m +ℤ remaining_of (m b)
unfolding owed
owed-push_back [] b m = omega int_laws
owed-push_back (i ∷ ids) b m = rw (owed-push_back ids b m) (omega int_laws)

-- Paying one escrow changes what the escrows owe by what that escrow owes less.
pub Pays-surplus :
    (e : Env) (s s' : State) (b : ℕ) (x x' : Escrow) (r : Address) (a : ℤ)
    → IsIndexed s
    → Pays e s s' b x x' r a
    → r ≢ e.current_contract_address
    → surplus e s' +ℤ x'.remaining_amount +ℤ a ≡ surplus e s +ℤ x.remaining_amount
unfolding surplus net
Pays-surplus e s s' b x x' r a v p ne =
    let listed : contains s.escrow_index b ≡ true = ground (arith, v.listed b, p.found) in
    rw (p.paid, p.indexed, p.written)
      (grind (int_laws, owed-insert s.escrow_index b x x' s.escrows v.distinct listed p.found))

pub Pays-IsIndexed :
    (e : Env) (s s' : State) (b : ℕ) (x x' : Escrow) (r : Address) (a : ℤ)
    → IsIndexed s
    → Pays e s s' b x x' r a
    → IsIndexed s'
Pays-IsIndexed e s s' b x x' r a v p = record {
  distinct = rw p.indexed v.distinct;
  listed = λ c. rw (p.indexed, p.written) (ground (arith, v.listed c, v.listed b, p.found));
}

-- Opening an escrow adds to what the escrows owe what it owes.
pub Opens-surplus :
    (e : Env) (s s' : State) (b : ℕ) (x : Escrow) (d : Address) (a : ℤ)
    → IsIndexed s
    → Opens e s s' b x d a
    → d ≢ e.current_contract_address
    → surplus e s' +ℤ x.remaining_amount ≡ surplus e s +ℤ a
unfolding surplus net
Opens-surplus e s s' b x d a v p ne =
    let absent : contains s.escrow_index b ≡ false = ground (arith, v.listed b, p.fresh) in
    rw (p.taken, p.indexed, p.written, owed-push_back s.escrow_index b (insert b x s.escrows))
      (grind (int_laws, owed-insert_absent s.escrow_index b x s.escrows absent))

pub Opens-IsIndexed :
    (e : Env) (s s' : State) (b : ℕ) (x : Escrow) (d : Address) (a : ℤ)
    → IsIndexed s
    → Opens e s s' b x d a
    → IsIndexed s'
Opens-IsIndexed e s s' b x d a v p =
    let absent : contains s.escrow_index b ≡ false = ground (arith, v.listed b, p.fresh) in
    record {
      distinct = rw p.indexed (push_back-IsDistinct s.escrow_index b v.distinct absent);
      listed = λ c.
          rw (p.indexed, p.written, contains-push_back s.escrow_index c b)
            (ground (arith, v.listed c));
    }

-- What the books read is the same in two states.
pub record SameBooks (s s' : State) : Type 0 where
  pub same_escrows : s'.escrows ≡ s.escrows
  pub same_index : s'.escrow_index ≡ s.escrow_index
  pub same_transfers : s'.transfers ≡ s.transfers

pub SameBooks-surplus : (e : Env) (s s' : State) → SameBooks s s' → surplus e s' ≡ surplus e s
unfolding surplus
SameBooks-surplus e s s' b = rw (b.same_escrows, b.same_index, b.same_transfers)

pub SameBooks-IsIndexed : (s s' : State) → SameBooks s s' → IsIndexed s → IsIndexed s'
SameBooks-IsIndexed s s' b v = record {
  distinct = rw b.same_index v.distinct;
  listed = λ c. rw (b.same_escrows, b.same_index) (v.listed c);
}
