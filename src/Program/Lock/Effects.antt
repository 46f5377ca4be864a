-- ===== src/Program/Lock/Effects.antt =====
-- The effect of `lock_program_funds` on the books.
use grainlify_stellar_contra.Program.Payout.Moves.{track-SameBooks}
use grainlify_stellar_contra.Base.{
  ◌≡◌, ◌∙◌, sym, ap, refl, true, false, Option, none, some, ◌∷◌, arith,
}
use grainlify_stellar_contra.Base.Int.{ℤ, pos, ◌+ℤ◌, ◌<ℤ◌, ◌≤ℤ◌, checked_add}
use grainlify_stellar_contra.Base.Host.{Address, Env, ok, ◌>>=◌, ◌>>◌, pure, >>=-eq_ok, >>-eq_ok}
use grainlify_stellar_contra.Program.State.{State, Error, ProgramData, Operation}
use grainlify_stellar_contra.Program.Guards.{track, sym_lock, check_paused, client_transfer}
use grainlify_stellar_contra.Program.RateLimit.{check_rate_limit, limit_caller, count_in_window}
use grainlify_stellar_contra.Program.Lock.{
  lock_program_funds, check_lock, check_caller, check_amount, take_funds, check_single_cap,
  check_total_cap,
}
use grainlify_stellar_contra.Program.Books.{
  SameBooks, SameSchedules, SameSchedules-trans, SameBooks-SameSchedules,
}

check_rate_limit-SameBooks :
    (e : Env) (s s' : State) (a : Address) → check_rate_limit a e s ≡ ok (tt, s') → SameBooks s s'
unfolding check_rate_limit limit_caller count_in_window
check_rate_limit-SameBooks e s s' a h = ground arith

-- From `s` to `s'` the program takes `amount` from `from`.
pub record Locks (e : Env) (s s' : State) (d d' : ProgramData) (from : Address) (amount : ℤ)
    : Type 0 where
  pub before : s.program_data ≡ some d
  pub then_ : s'.program_data ≡ some d'
  pub signed : e.authorized from ≡ true
  pub running : check_paused s.pause_flags Operation.lock ≡ false
  pub positive : pos 0 <ℤ amount
  pub changed : d' ≡ record d {
    total_funds = d.total_funds +ℤ amount;
    remaining_balance = d.remaining_balance +ℤ amount;
  }
  pub covered :
      d'.remaining_balance
      ≤ℤ e.balance_after s'.transfers d.token_address e.current_contract_address
  pub taken :
      s'.transfers
      ≡ record {
        token = d.token_address;
        from = from;
        to = e.current_contract_address;
        amount = amount;
      }
        ∷ s.transfers
  pub schedules : SameSchedules s s'

check_single_cap-same :
    (e : Env) (s s' : State) (a : ℤ) (cap : Option ℤ)
    → check_single_cap a cap e s ≡ ok (tt, s')
    → s' ≡ s
unfolding check_single_cap
check_single_cap-same e s s' a none h = cc
check_single_cap-same e s s' a (some m) h = ground arith

check_total_cap-same :
    (e : Env) (s s' : State) (t a : ℤ) (cap : Option ℤ)
    → check_total_cap t a cap e s ≡ ok (tt, s')
    → s' ≡ s
unfolding check_total_cap
check_total_cap-same e s s' t a none h = cc
check_total_cap-same e s s' t a (some m) h = ground arith

check_caller-ok :
    (e : Env) (s s' : State) (from : Address)
    → check_caller from e s ≡ ok (tt, s')
    → SameBooks s s'
      × (e.authorized from ≡ true)
      × (check_paused s.pause_flags Operation.lock ≡ false)
unfolding check_caller
check_caller-ok e s s' from h = (
  (let limited : check_rate_limit from e s ≡ ok (tt, s') = ground arith in
      check_rate_limit-SameBooks e s s' from limited),
  ground arith,
  ground arith,
)

check_amount-ok :
    (e : Env) (s s' : State) (a : ℤ) {d : ProgramData}
    → check_amount a e s ≡ ok (d, s')
    → (s' ≡ s) × (s.program_data ≡ some d) × (pos 0 <ℤ a)
unfolding check_amount check_single_cap check_total_cap
check_amount-ok e s s' a {d} h = (ground arith, ground arith, ground arith)

take_funds-ok :
    (e : Env) (s s' : State) (from : Address) (a : ℤ) (d : ProgramData) {d' : ProgramData}
    → take_funds from a d e s ≡ ok (d', s')
    → (s'.program_data ≡ some d')
      × (d' ≡ record d {
        total_funds = d.total_funds +ℤ a;
        remaining_balance = d.remaining_balance +ℤ a;
      })
      × (d'.remaining_balance
          ≤ℤ e.balance_after s'.transfers d.token_address e.current_contract_address)
      × (s'.transfers
          ≡ record {
            token = d.token_address;
            from = from;
            to = e.current_contract_address;
            amount = a;
          }
            ∷ s.transfers)
      × SameSchedules s s'
unfolding take_funds client_transfer checked_add
take_funds-ok e s s' from a d h =
    (ground arith, ground arith, ground arith, ground arith, ground arith)

closed :
    (e : Env) (s t s' : State) (u : ProgramData) {d : ProgramData}
    → SameBooks s t
    → pure {S = State} {E = Error} u e t ≡ ok (d, s')
    → SameBooks s s' × (u ≡ d)
closed e s t s' u q h = ((let same : t ≡ s' = cc in rw (← same) q), cc)

lock-facts :
    (e : Env) (s s1 s2 s3 s' : State) (from : Address) (a : ℤ) (d u d' : ProgramData)
    → SameBooks s s1
      × (e.authorized from ≡ true)
      × (check_paused s.pause_flags Operation.lock ≡ false)
    → (s2 ≡ s1) × (s1.program_data ≡ some d) × (pos 0 <ℤ a)
    → (s3.program_data ≡ some u)
      × (u ≡ record d {
        total_funds = d.total_funds +ℤ a;
        remaining_balance = d.remaining_balance +ℤ a;
      })
      × (u.remaining_balance
          ≤ℤ e.balance_after s3.transfers d.token_address e.current_contract_address)
      × (s3.transfers
          ≡ record {
            token = d.token_address;
            from = from;
            to = e.current_contract_address;
            amount = a;
          }
            ∷ s2.transfers)
      × SameSchedules s2 s3
    → SameBooks s3 s' × (u ≡ d')
    → Locks e s s' d d' from a
lock-facts e s s1 s2 s3 s' from a d u d' (books, signed, running) (same, found, positive)
      (stored, changed, covered, taken, schedules) (quiet, last) =
    record {
      before = sym books.same_program ∙ found;
      then_ = quiet.same_program ∙ stored ∙ ap (λ (x : ProgramData). some x) last;
      signed = signed;
      running = running;
      positive = positive;
      changed = sym last ∙ changed;
      covered = rw (← last, quiet.same_transfers) covered;
      taken = quiet.same_transfers ∙ taken ∙ rw (same, books.same_transfers) refl;
      schedules = SameSchedules-trans s s1 s' (SameBooks-SameSchedules s s1 books) (
          SameSchedules-trans s1 s3 s' (rw same at schedules)
            (SameBooks-SameSchedules s3 s' quiet));
    }

-- `lock_program_funds` takes the amount and adds it to the program's two sums.
pub lock_program_funds-Locks :
    (e : Env) (s s' : State) (from : Address) (a : ℤ) {d' : ProgramData}
    → lock_program_funds from a e s ≡ ok (d', s')
    → (d : ProgramData) × Locks e s s' d d' from a
unfolding lock_program_funds check_lock
lock_program_funds-Locks e s s' from a {d'} h =
    let close = λ (u : ProgramData). track sym_lock from e.timestamp >> pure u in
    let (d, s2, checked, h2) =
      >>=-eq_ok (λ d. take_funds from a d >>= close) e (check_lock from a) s h in
    let (_, s1, called, h1) = >>-eq_ok (check_amount a) e (check_caller from) s checked in
    let (u, s3, taken, h3) = >>=-eq_ok close e (take_funds from a d) s2 h2 in
    let (_, s4, tracked, h4) = >>-eq_ok (pure u) e (track sym_lock from e.timestamp) s3 h3 in
    (
      d,
      lock-facts e s s1 s2 s3 s' from a d u d' (check_caller-ok e s s1 from called)
          (check_amount-ok e s1 s2 a h1) (take_funds-ok e s2 s3 from a d taken)
          (closed e s3 s4 s' u (track-SameBooks e s3 s4 _ _ _ tracked) h4),
    )
