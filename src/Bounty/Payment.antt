-- ===== src/Bounty/Payment.antt =====
-- The relation between two states of the escrow contract that one payment makes.
use grainlify_stellar_contra.Base.{
  ℕ, ◌≡◌, some, none, ◌∷◌, insert, push_back, true, is_some, unwrap_or,
}
use grainlify_stellar_contra.Base.Int.{ℤ}
use grainlify_stellar_contra.Base.Host.{Address, Env}
use grainlify_stellar_contra.Bounty.State.{State, Escrow}

-- From `s` to `s'` the contract pays `amount` to `recipient` on the account of bounty `b`, whose
-- escrow changes from `x` to `x'`. No other escrow changes and no other transfer is made.
pub record Pays (e : Env) (s s' : State) (b : ℕ) (x x' : Escrow) (recipient : Address) (amount : ℤ)
    : Type 0 where
  pub found : s.escrows b ≡ some x
  pub written : s'.escrows ≡ insert b x' s.escrows
  pub indexed : s'.escrow_index ≡ s.escrow_index
  pub has_token : is_some s.token ≡ true
  pub same_token : s'.token ≡ s.token
  pub paid :
      s'.transfers
      ≡ record {
        token = unwrap_or s.token 0;
        from = e.current_contract_address;
        to = recipient;
        amount = amount;
      }
        ∷ s.transfers

-- From `s` to `s'` the contract takes `amount` from `depositor` and opens the escrow `x` for it
-- under the new bounty `b`.
pub record Opens (e : Env) (s s' : State) (b : ℕ) (x : Escrow) (depositor : Address) (amount : ℤ)
    : Type 0 where
  pub fresh : s.escrows b ≡ none
  pub written : s'.escrows ≡ insert b x s.escrows
  pub indexed : s'.escrow_index ≡ push_back s.escrow_index b
  pub has_token : is_some s.token ≡ true
  pub same_token : s'.token ≡ s.token
  pub taken :
      s'.transfers
      ≡ record {
        token = unwrap_or s.token 0;
        from = depositor;
        to = e.current_contract_address;
        amount = amount;
      }
        ∷ s.transfers
