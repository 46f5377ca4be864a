-- ===== src/Program/Schedules/Effects.antt =====
-- The effects of the calls of release schedules on the books: `trigger_program_releases` in one
-- loop, and the two releases by identifier.
use grainlify_stellar_contra.Base.{
  ℕ, ◌+◌, ◌≡◌, ◌⊎◌, true, false, some, List, [], ◌∷◌, arith, ◌≤◌, inl, inr, is_some,
}
use grainlify_stellar_contra.Base.Int.{◌-ℤ◌, ◌≤ℤ◌, checked_sub}
use grainlify_stellar_contra.Base.Host.{Env, ok, ◌>>=◌, pure, >>=-eq_ok}
use grainlify_stellar_contra.Bounty.Circuit.{check_and_allow}
use grainlify_stellar_contra.Program.State.{
  State, Error, ProgramData, ProgramReleaseSchedule, PayoutRecord, global,
}
use grainlify_stellar_contra.Program.Guards.{
  enter, is_dispute_open_for_key, client_transfer, emit_aggregate_stats,
}
use grainlify_stellar_contra.Program.Payout.{payout_record, check_balance, max_batch_size}
use grainlify_stellar_contra.Program.Schedules.{
  Progress, is_releasable, advanced, release_one, trigger_one, trigger_loop, open_trigger,
  close_trigger, released_schedule,
}
use grainlify_stellar_contra.Program.Ledger.{sending}
use grainlify_stellar_contra.Program.Schedules.Rounds.{
  Progressed, idle-Progressed, skip-Progressed, take-Progressed,
}

release_one-ok :
    (e : Env) (s s' : State) (x : ProgramReleaseSchedule) (p : Progress)
    {x' : ProgramReleaseSchedule} {p' : Progress}
    → release_one x p e s ≡ ok ((x', p'), s')
    → (x.amount ≤ℤ p.program.remaining_balance)
      × (x' ≡ released_schedule x e.timestamp e.current_contract_address)
      × (p' ≡ advanced p x (p.program.remaining_balance -ℤ x.amount) e.timestamp)
      × (s' ≡ record s {
        transfers =
            sending p.program.token_address e.current_contract_address
              (payout_record x.recipient x.amount e.timestamp)
            ∷ s.transfers;
        events = s'.events;
      })
unfolding release_one client_transfer checked_sub check_balance
release_one-ok e s s' x p h = (ground arith, ground arith, ground arith, ground arith)

trigger_one-ok :
    (e : Env) (s s' : State) (x : ProgramReleaseSchedule) (p : Progress)
    {x' : ProgramReleaseSchedule} {p' : Progress}
    → trigger_one x p e s ≡ ok ((x', p'), s')
    → ((x' ≡ x)
        × (p' ≡ p)
        × (s' ≡ s)
        × ((max_batch_size ≤ p.released_count) ⊎ (is_releasable e.timestamp x s ≡ false)))
      ⊎ ((p.released_count + 1 ≤ max_batch_size)
          × (is_releasable e.timestamp x s ≡ true)
          × (release_one x p e s ≡ ok ((x', p'), s')))
unfolding trigger_one
trigger_one-ok e s s' x p h = ground arith

released-Progressed :
    (e : Env) (s s1 s' : State) (x x' : ProgramReleaseSchedule)
    (xs xs' : List ProgramReleaseSchedule) (p p1 p' : Progress) (ps : List PayoutRecord)
    → p.released_count + 1 ≤ max_batch_size
    → is_releasable e.timestamp x s ≡ true
    → release_one x p e s ≡ ok ((x', p1), s1)
    → Progressed e s1 s' xs xs' p1 p' ps
    → Progressed e s s'
        (x ∷ xs)
        (x' ∷ xs')
        p
        p'
        (payout_record x.recipient x.amount e.timestamp ∷ ps)
released-Progressed e s s1 s' x x' xs xs' p p1 p' ps room may h q =
    let (_, marked, moved, state) = release_one-ok e s s1 x p h in
    let at_p = rw moved at q in
    rw marked (take-Progressed e s s' x xs xs' p p' ps s1.events room may (rw state at at_p))

one-Progressed :
    (e : Env) (s s1 s' : State) (x x' : ProgramReleaseSchedule)
    (xs xs' : List ProgramReleaseSchedule) (p p1 p' : Progress) (ps : List PayoutRecord)
    → trigger_one x p e s ≡ ok ((x', p1), s1)
    → Progressed e s1 s' xs xs' p1 p' ps
    → (qs : List PayoutRecord) × Progressed e s s' (x ∷ xs) (x' ∷ xs') p p' qs
one-Progressed e s s1 s' x x' xs xs' p p1 p' ps h q = elim (trigger_one-ok e s s1 x p h) [
  | inl (same, still, quiet, why) ↦ (
    ps,
    rw same
        (skip-Progressed e s s' x xs xs' p p' ps why (rw quiet at (let r = rw still at q in r))),
  )
  | inr (room, may, done) ↦ (
    payout_record x.recipient x.amount e.timestamp ∷ ps,
    released-Progressed e s s1 s' x x' xs xs' p p1 p' ps room may done q,
  )
]

cons-Progressed :
    (e : Env) (s s1 s2 s' : State) (x x' : ProgramReleaseSchedule)
    (xs ys xs' : List ProgramReleaseSchedule) (p p1 p2 p' : Progress) (ps : List PayoutRecord)
    → trigger_one x p e s ≡ ok ((x', p1), s1)
    → Progressed e s1 s2 xs ys p1 p2 ps
    → pure {S = State} {E = Error} {A = List ProgramReleaseSchedule × Progress} (x' ∷ ys, p2) e s2
      ≡ ok ((xs', p'), s')
    → (qs : List PayoutRecord) × Progressed e s s' (x ∷ xs) xs' p p' qs
cons-Progressed e s s1 s2 s' x x' xs ys xs' p p1 p2 p' ps h q last =
    let list : x' ∷ ys ≡ xs' = cc in
    let progress : p2 ≡ p' = cc in
    let state : s2 ≡ s' = cc in
    let (qs, r) = one-Progressed e s s1 s2 x x' xs ys p p1 p2 ps h q in
    (qs, rw (← list, ← progress, ← state) r)

-- The loop releases schedules and makes their payments, in order.
pub trigger_loop-ok :
    (e : Env) (s s' : State) (xs : List ProgramReleaseSchedule) (p : Progress)
    {xs' : List ProgramReleaseSchedule} {p' : Progress}
    → trigger_loop xs p e s ≡ ok ((xs', p'), s')
    → (ps : List PayoutRecord) × Progressed e s s' xs xs' p p' ps
unfolding trigger_loop
trigger_loop-ok e s s' [] p {xs'} {p'} h =
    let none_left : [] ≡ xs' = cc in
    let same : p ≡ p' = cc in
    let state : s ≡ s' = cc in ([], rw (← none_left, ← same, ← state) (idle-Progressed e s p))
trigger_loop-ok e s s' (x ∷ xs) p {xs'} {p'} h =
    let close = λ (x' : ProgramReleaseSchedule) (d : List ProgramReleaseSchedule × Progress).
      pure {S = State} {E = Error} {A = List ProgramReleaseSchedule × Progress} (x' ∷ d.0, d.1) in
    let (c, s1, first, h1) =
      >>=-eq_ok (λ c. trigger_loop xs c.1 >>= close c.0) e (trigger_one x p) s h in
    let (d, s2, rest, h2) = >>=-eq_ok (close c.0) e (trigger_loop xs c.1) s1 h1 in
    let (ps, q) = trigger_loop-ok e s1 s2 xs c.1 rest in
    cons-Progressed e s s1 s2 s' x c.0 xs d.0 xs' p c.1 d.1 p' ps first q h2

-- The state that the calls which pay begin with.
abbrev pub entered : State → State
entered s = record s { reentrancy_guard = true }

pub open_trigger-ok :
    (e : Env) (s s' : State) {d : ProgramData}
    → open_trigger e s ≡ ok (d, s')
    → (s' ≡ entered s)
      × (s.program_data ≡ some d)
      × (e.authorized d.authorized_payout_key ≡ true)
      × (is_dispute_open_for_key global s ≡ false)
      × (is_some (check_and_allow e s.circuit).0 ≡ false)
unfolding open_trigger enter is_dispute_open_for_key
open_trigger-ok e s s' h = (ground arith, ground arith, ground arith, ground arith, ground arith)

pub close_trigger-ok :
    (e : Env) (s s' : State) (xs : List ProgramReleaseSchedule) (p : Progress) {n : ℕ}
    → close_trigger xs p e s ≡ ok (n, s')
    → (s'.program_data ≡ some p.program)
      × (s'.schedules ≡ xs)
      × (s'.release_history ≡ p.history)
      × (s'.next_schedule_id ≡ s.next_schedule_id)
      × (s'.transfers ≡ s.transfers)
      × (n ≡ p.released_count)
unfolding close_trigger emit_aggregate_stats
close_trigger-ok e s s' xs p h =
    (ground arith, ground arith, ground arith, ground arith, ground arith, ground arith)
