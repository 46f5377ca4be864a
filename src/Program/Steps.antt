-- ===== src/Program/Steps.antt =====
-- Histories of the program escrow of program-escrow/src/lib.rs: any calls, by anyone, in any order.
-- The entry points of disputes are those of `Quiet`, at their scope. The calls that only read leave
-- the state as it is and are no steps.
use grainlify_stellar_contra.Base.{ℕ, ◌≡◌, false, List, arith}
use grainlify_stellar_contra.Base.Int.{ℤ}
use grainlify_stellar_contra.Base.Host.{Address, Symbol, Env, ok, >>-eq_ok}
use grainlify_stellar_contra.Program.State.{State, ProgramData, ProgramReleaseSchedule}
use grainlify_stellar_contra.Program.Admin.{init_program, initialize_program}
use grainlify_stellar_contra.Program.Lock.{lock_program_funds}
use grainlify_stellar_contra.Program.Payout.{single_payout, batch_payout}
use grainlify_stellar_contra.Program.Schedules.{
  create_program_release_schedule, trigger_program_releases, release_program_schedule_manual,
  release_prog_schedule_automatic,
}
use grainlify_stellar_contra.Program.Queries.{
  validate_program_id, lock_program_funds_v2, single_payout_v2, batch_payout_v2,
}
use grainlify_stellar_contra.Program.Quiet.{Quiet}

-- The contract stands at `this`, and the host takes no signature of `this` itself.
pub record At (this : Address) (e : Env) : Type 0 where
  pub located : e.current_contract_address ≡ this
  pub unsigned : e.authorized this ≡ false

-- One call of the contract at `this` that succeeds, but for those that take the identifier of the
-- program first.
pub data CoreStep (this : Address) (s s' : State) : Type 0 where
  initialise_bare :
      (e : Env) (id : Symbol) (key token : Address) (d : ProgramData)
      → At this e
      → initialize_program id key token e s ≡ ok (d, s')
      → CoreStep this s s'
  initialise :
      (e : Env) (id : Symbol) (key token : Address) (d : ProgramData)
      → At this e
      → init_program id key token e s ≡ ok (d, s')
      → CoreStep this s s'
  lock :
      (e : Env) (from : Address) (a : ℤ) (d : ProgramData)
      → At this e
      → lock_program_funds from a e s ≡ ok (d, s')
      → CoreStep this s s'
  single :
      (e : Env) (r : Address) (a : ℤ) (d : ProgramData)
      → At this e
      → single_payout r a e s ≡ ok (d, s')
      → CoreStep this s s'
  batch :
      (e : Env) (rs : List Address) (amounts : List ℤ) (d : ProgramData)
      → At this e
      → batch_payout rs amounts e s ≡ ok (d, s')
      → CoreStep this s s'
  create :
      (e : Env) (a : ℤ) (time : ℕ) (r : Address) (x : ProgramReleaseSchedule)
      → At this e
      → create_program_release_schedule a time r e s ≡ ok (x, s')
      → CoreStep this s s'
  trigger :
      (e : Env) (n : ℕ) → At this e → trigger_program_releases e s ≡ ok (n, s') → CoreStep this s s'
  manual :
      (e : Env) (id : ℕ)
      → At this e
      → release_program_schedule_manual id e s ≡ ok (tt, s')
      → CoreStep this s s'
  automatic :
      (e : Env) (id : ℕ)
      → At this e
      → release_prog_schedule_automatic id e s ≡ ok (tt, s')
      → CoreStep this s s'
  quiet : Quiet s s' → CoreStep this s s'

-- One call of the contract at `this` that succeeds.
pub data Step (this : Address) (s s' : State) : Type 0 where
  core : CoreStep this s s' → Step this s s'
  lock_v2 :
      (e : Env) (id : Symbol) (from : Address) (a : ℤ) (d : ProgramData)
      → At this e
      → lock_program_funds_v2 id from a e s ≡ ok (d, s')
      → Step this s s'
  single_v2 :
      (e : Env) (id : Symbol) (r : Address) (a : ℤ) (d : ProgramData)
      → At this e
      → single_payout_v2 id r a e s ≡ ok (d, s')
      → Step this s s'
  batch_v2 :
      (e : Env) (id : Symbol) (rs : List Address) (amounts : List ℤ) (d : ProgramData)
      → At this e
      → batch_payout_v2 id rs amounts e s ≡ ok (d, s')
      → Step this s s'

validate_program_id-same :
    (e : Env) (s t : State) (id : Symbol) → validate_program_id id e s ≡ ok (tt, t) → t ≡ s
unfolding validate_program_id
validate_program_id-same e s t id h = ground arith

-- A call that takes the identifier does what the call without it does.
pub Step-CoreStep : (this : Address) (s s' : State) → Step this s s' → CoreStep this s s'
unfolding lock_program_funds_v2 single_payout_v2 batch_payout_v2
Step-CoreStep this s s' (core c) = c
Step-CoreStep this s s' (lock_v2 e id from a d at_ h) =
    let (_, t, valid, run) = >>-eq_ok (lock_program_funds from a) e (validate_program_id id) s h in
    lock e from a d at_ (rw (validate_program_id-same e s t id valid) at run)
Step-CoreStep this s s' (single_v2 e id r a d at_ h) =
    let (_, t, valid, run) = >>-eq_ok (single_payout r a) e (validate_program_id id) s h in
    single e r a d at_ (rw (validate_program_id-same e s t id valid) at run)
Step-CoreStep this s s' (batch_v2 e id rs amounts d at_ h) =
    let (_, t, valid, run) = >>-eq_ok (batch_payout rs amounts) e (validate_program_id id) s h in
    batch e rs amounts d at_ (rw (validate_program_id-same e s t id valid) at run)

pub data Steps (this : Address) (s : State) : State → Type 0 where
  stay : Steps this s s
  next : {t u : State} → Steps this s t → Step this t u → Steps this s u
