-- ===== src/Multisig/Steps.antt =====
-- Histories of the multisig of multisig.rs: any calls, by anyone, in any order.
use grainlify_stellar_contra.Base.{ℕ, ◌≡◌, Option, List}
use grainlify_stellar_contra.Base.Host.{Address, Env, ok}
use grainlify_stellar_contra.Multisig.State.{State, ProposalAction, Call}
use grainlify_stellar_contra.Multisig.Operations.{
  init, propose, approve, execute, remove_signer, add_signer, rotate_signers,
}
use grainlify_stellar_contra.Multisig.Effects.{Keeps}

-- One call that succeeds.
pub data Step (s s' : State) : Type 0 where
  initialise : (e : Env) (as_ : List Address) (n : ℕ) → init as_ n e s ≡ ok (tt, s') → Step s s'
  proposes :
      (e : Env) (a : Address) (act : ProposalAction) (id : ℕ)
      → propose a act e s ≡ ok (id, s')
      → Step s s'
  approves : (e : Env) (id : ℕ) (a : Address) → approve id a e s ≡ ok (tt, s') → Step s s'
  executes :
      (e : Env) (id : ℕ) (act : ProposalAction) (n : ℕ) (run : Call (Unit {0}))
      → Keeps e run
      → execute id act n run e s ≡ ok (tt, s')
      → Step s s'
  removes : (e : Env) (a b : Address) → remove_signer a b e s ≡ ok (tt, s') → Step s s'
  adds : (e : Env) (a b : Address) → add_signer a b e s ≡ ok (tt, s') → Step s s'
  rotates :
      (e : Env) (a : Address) (add remove : List Address) (n : Option ℕ)
      → rotate_signers a add remove n e s ≡ ok (tt, s')
      → Step s s'

pub data Steps (s : State) : State → Type 0 where
  stay : Steps s s
  next : {t u : State} → Steps s t → Step t u → Steps s u
