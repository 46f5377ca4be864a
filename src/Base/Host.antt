-- ===== src/Base/Host.antt =====
-- The Soroban host as the contracts see it: the ledger's clock, the authorisations of a call, the
-- answers of other contracts, and the outcome of an invocation. A call that returns an error or
-- panics is rolled back by the host, so that only a success carries a state.
use Prim.Native.Nat.{ℕ}
use mathlib.Core.Path.{◌≡◌, refl}
use mathlib.Core.Logic.{◌⊎◌, inl, inr}
use mathlib.Core.Bool.{Bool, true, false}
use mathlib.Core.Option.{Option, none, some}
use mathlib.Core.List.{List}
use grainlify_stellar_contra.Base.Int.{ℤ}

-- Addresses, hashes and symbols are only compared.
abbrev pub Address : Type 0
Address = ℕ

abbrev pub Hash : Type 0
Hash = ℕ

abbrev pub Symbol : Type 0
Symbol = ℕ

-- One call of `transfer` on a token contract.
pub record Transfer : Type 0 where
  pub token : Address
  pub from : Address
  pub to : Address
  pub amount : ℤ

-- What one invocation finds outside the contract's own storage. `transfer_ok earlier t` says
-- whether the token contract accepts the transfer `t` after the transfers `earlier`, newest first,
-- and `balance_after earlier` is what it answers to `balance` after them;
-- the `gov_` fields are the answers of a governance contract to `get_ver`,
-- `get_version_numeric_encoded`, `is_upg_ok`, `is_vetoed` and whether `try_execute_proposal` succeeds.
pub record Env : Type 0 where
  pub timestamp : ℕ
  pub authorized : Address → Bool
  pub current_contract_address : Address
  pub balance : Address → Address → ℤ
  pub balance_after : List Transfer → Address → Address → ℤ
  pub transfer_ok : List Transfer → Transfer → Bool
  pub gov_ver : Address → ℕ
  pub gov_version_numeric : Address → ℕ
  pub gov_is_upg_ok : Address → Hash → Bool
  pub gov_is_vetoed : Address → ℕ → Bool
  pub gov_execute_proposal : Address → ℕ → Bool

-- Why an invocation traps.
pub data Panic : Type 0 where
  not_authorized unwrap_none overflow transfer_failed reentrancy_detected : Panic
  in_cooldown rate_limit_exceeded not_circuit_admin : Panic
  already_initialized program_missing admin_missing no_pending_admin not_pending_admin : Panic
  circuit_open funds_paused dispute_in_progress governance_too_low not_whitelisted : Panic
  length_mismatch empty_batch batch_too_large amount_not_positive insufficient_balance : Panic
  lock_cap_exceeded total_cap_exceeded balance_below_remaining cap_not_positive : Panic
  dispute_already_open no_dispute no_open_dispute : Panic
  schedule_missing already_released not_yet_due zero_threshold : Panic

pub data Outcome (E A : Type 0) : Type 0 where
  ok : A → Outcome E A
  err : E → Outcome E A
  panic : Panic → Outcome E A

-- To split on an outcome and keep the equation.
pub Outcome-cases :
    {E A : Type 0} (o : Outcome E A)
    → ((a : A) × (o ≡ ok a)) ⊎ ((x : E) × (o ≡ err x)) ⊎ ((p : Panic) × (o ≡ panic p))
Outcome-cases (ok a) = inl (a, refl)
Outcome-cases (err x) = inr (inl (x, refl))
Outcome-cases (panic p) = inr (inr (p, refl))

-- The state after an invocation that began at `s`, which a failure leaves as it was.
abbrev pub after : {S E A : Type 0} → S → Outcome E (A × S) → S
after s (ok (_, s')) = s'
after s (err _) = s
after s (panic _) = s

-- An invocation over the storage `S`.
abbrev pub Action : Type 0 → Type 0 → Type 0 → Type 0
Action S E A = Env → S → Outcome E (A × S)

module _ {S E A : Type 0} where
  abbrev pub pure : A → Action S E A
  pure a e s = ok (a, s)

  abbrev pub fail : E → Action S E A
  fail x e s = err x

  abbrev pub trap : Panic → Action S E A
  trap p e s = panic p

  abbrev pub gets : (S → A) → Action S E A
  gets f e s = ok (f s, s)

  abbrev pub asks : (Env → A) → Action S E A
  asks f e s = ok (f e, s)

  -- `option.ok_or(x)?`
  abbrev pub or_fail : Option A → E → Action S E A
  or_fail none x = fail x
  or_fail (some a) _ = pure a

  -- `option.unwrap()`
  abbrev pub or_trap : Option A → Panic → Action S E A
  or_trap none p = trap p
  or_trap (some a) _ = pure a

infixl 5 ◌>>=◌ ◌>>◌
abbrev pub ◌>>=◌ : {S E A B : Type 0} → Action S E A → (A → Action S E B) → Action S E B
◌>>=◌ m f e s = elim (m e s) [ ok (a, s') ↦ f a e s' | err x ↦ err x | panic p ↦ panic p ]

abbrev pub ◌>>◌ : {S E A B : Type 0} → Action S E A → Action S E B → Action S E B
◌>>◌ m k e s = elim (m e s) [ ok (_, s') ↦ k e s' | err x ↦ err x | panic p ↦ panic p ]

module _ {S E : Type 0} where
  abbrev pub modify : (S → S) → Action S E (Unit {0})
  modify f e s = ok (tt, f s)

  -- `if b { return Err(x); }`
  abbrev pub fail_if : Bool → E → Action S E (Unit {0})
  fail_if true x = fail x
  fail_if false x = pure tt

  -- `if b { panic!(); }`
  abbrev pub trap_if : Bool → Panic → Action S E (Unit {0})
  trap_if true p = trap p
  trap_if false p = pure tt

  -- `address.require_auth()`
  abbrev pub require_auth : Address → Action S E (Unit {0})
  require_auth a e s = elim (e.authorized a) [ true ↦ ok (tt, s) | false ↦ panic not_authorized ]

module _ {S E A B : Type 0} (f : A → Action S E B) (e : Env) {r : B × S} where
  split_ok :
      (o o' : Outcome E (A × S))
      → o' ≡ o
      → elim o [ ok (a, t) ↦ f a e t | err x ↦ err x | panic p ↦ panic p ] ≡ ok r
      → (a : A) × (t : S) × (o' ≡ ok (a, t)) × (f a e t ≡ ok r)
  split_ok (ok (a, t)) o' k h = (a, t, k, h)
  split_ok (err x) o' k h = cc
  split_ok (panic p) o' k h = cc

  -- A chain that succeeds has a first step that does.
  pub >>=-eq_ok :
      (m : Action S E A) (s : S)
      → (m >>= f) e s ≡ ok r
      → (a : A) × (t : S) × (m e s ≡ ok (a, t)) × (f a e t ≡ ok r)
  >>=-eq_ok m s h = split_ok (m e s) (m e s) refl h

module _ {S E A B : Type 0} (k : Action S E B) (e : Env) {r : B × S} where
  split_seq_ok :
      (o o' : Outcome E (A × S))
      → o' ≡ o
      → elim o [ ok (_, t) ↦ k e t | err x ↦ err x | panic p ↦ panic p ] ≡ ok r
      → (a : A) × (t : S) × (o' ≡ ok (a, t)) × (k e t ≡ ok r)
  split_seq_ok (ok (a, t)) o' j h = (a, t, j, h)
  split_seq_ok (err x) o' j h = cc
  split_seq_ok (panic p) o' j h = cc

  pub >>-eq_ok :
      (m : Action S E A) (s : S)
      → (m >> k) e s ≡ ok r
      → (a : A) × (t : S) × (m e s ≡ ok (a, t)) × (k e t ≡ ok r)
  >>-eq_ok m s h = split_seq_ok (m e s) (m e s) refl h
