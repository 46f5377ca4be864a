-- ===== src/Program/Schedules/Single.antt =====
-- The effects of the two releases of a schedule by its identifier.
use grainlify_stellar_contra.Program.Schedules.Rounds.{schedule_ids, released_ids, occurrences}
use grainlify_stellar_contra.Base.{
  ℕ, ◌+◌, ◌≡◌, ◌∙◌, ◌≤◌, ap, refl, true, false, some, List, [], ◌∷◌, arith, push_back, ◌==◌,
  if◌then◌else◌, ltb,
}
use grainlify_stellar_contra.Base.Int.{◌-ℤ◌, checked_sub}
use grainlify_stellar_contra.Base.Host.{
  Address, Env, ok, ◌>>=◌, ◌>>◌, asks, trap_if, not_yet_due, >>=-eq_ok, >>-eq_ok,
}
use grainlify_stellar_contra.Program.State.{
  State, ProgramData, ProgramReleaseSchedule, ReleaseType, manual, automatic, global,
}
use grainlify_stellar_contra.Program.Guards.{
  Call, now, enter, is_dispute_open_for_key, is_schedule_scope_disputed, is_payable,
  client_transfer, clear_entered,
}
use grainlify_stellar_contra.Program.Disputes.{find_schedule}
use grainlify_stellar_contra.Program.Payout.{payout_record}
use grainlify_stellar_contra.Program.Schedules.{
  released_schedule, release_entry, set_schedule, open_release, check_schedule, pay_schedule,
  release_program_schedule_manual, release_prog_schedule_automatic,
}
use grainlify_stellar_contra.Program.Schedules.Effects.{entered}
use grainlify_stellar_contra.Program.Ledger.{sending}

-- The call pays the schedule `x` on the program `d`, whatever balance is left: nothing else is paid
-- and the payout history is not written.
pub record Releases (e : Env) (s s' : State) (d : ProgramData) (x : ProgramReleaseSchedule)
    (by : Address) (kind : ReleaseType) : Type 0 where
  pub program : s.program_data ≡ some d
  pub signed : e.authorized d.authorized_payout_key ≡ true
  pub found : find_schedule x.schedule_id s.schedules ≡ some x
  pub unreleased : x.released ≡ false
  pub undisputed : is_dispute_open_for_key global s ≡ false
  pub free : is_schedule_scope_disputed x.schedule_id x.recipient s ≡ false
  pub payable : is_payable x.recipient s ≡ true
  pub then_ :
      s'.program_data ≡ some (record d { remaining_balance = d.remaining_balance -ℤ x.amount })
  pub marked :
      s'.schedules ≡ set_schedule x.schedule_id (released_schedule x e.timestamp by) s.schedules
  pub logged : s'.release_history ≡ push_back s.release_history (release_entry x e.timestamp kind)
  pub same_next : s'.next_schedule_id ≡ s.next_schedule_id
  pub sent :
      s'.transfers
      ≡ sending d.token_address e.current_contract_address
          (payout_record x.recipient x.amount e.timestamp)
        ∷ s.transfers

find_schedule-id :
    (id : ℕ) (xs : List ProgramReleaseSchedule) (x : ProgramReleaseSchedule)
    → find_schedule id xs ≡ some x
    → x.schedule_id ≡ id
unfolding find_schedule
find_schedule-id id [] x h = ground arith
find_schedule-id id (y ∷ ys) x h = ground (arith, find_schedule-id id ys x)

open_release-ok :
    (e : Env) (s s' : State) (id : ℕ) {d : ProgramData} {x : ProgramReleaseSchedule}
    → open_release id e s ≡ ok ((d, x), s')
    → (s' ≡ entered s)
      × (s.program_data ≡ some d)
      × (e.authorized d.authorized_payout_key ≡ true)
      × (find_schedule id s.schedules ≡ some x)
      × (x.released ≡ false)
unfolding open_release enter
open_release-ok e s s' id h = (ground arith, ground arith, ground arith, ground arith, ground arith)

check_schedule-ok :
    (e : Env) (s s' : State) (x : ProgramReleaseSchedule)
    → check_schedule x e s ≡ ok (tt, s')
    → (s' ≡ s)
      × (is_dispute_open_for_key global s ≡ false)
      × (is_schedule_scope_disputed x.schedule_id x.recipient s ≡ false)
      × (is_payable x.recipient s ≡ true)
unfolding check_schedule
check_schedule-ok e s s' x h = (ground arith, ground arith, ground arith, ground arith)

pay_schedule-ok :
    (e : Env) (s s' : State) (d : ProgramData) (x : ProgramReleaseSchedule) (by : Address)
    (kind : ReleaseType)
    → pay_schedule d x by kind e s ≡ ok (tt, s')
    → (s'.program_data ≡ some (record d { remaining_balance = d.remaining_balance -ℤ x.amount }))
      × (s'.schedules ≡ set_schedule x.schedule_id (released_schedule x e.timestamp by) s.schedules)
      × (s'.release_history ≡ push_back s.release_history (release_entry x e.timestamp kind))
      × (s'.next_schedule_id ≡ s.next_schedule_id)
      × (s'.transfers
          ≡ sending d.token_address e.current_contract_address
              (payout_record x.recipient x.amount e.timestamp)
            ∷ s.transfers)
unfolding pay_schedule client_transfer checked_sub
pay_schedule-ok e s s' d x by kind h =
    (ground arith, ground arith, ground arith, ground arith, ground arith)

release-facts :
    (e : Env) (s s1 s2 s3 s' : State) (id : ℕ) (d : ProgramData) (x : ProgramReleaseSchedule)
    (by : Address) (kind : ReleaseType)
    → (s1 ≡ entered s)
      × (s.program_data ≡ some d)
      × (e.authorized d.authorized_payout_key ≡ true)
      × (find_schedule id s.schedules ≡ some x)
      × (x.released ≡ false)
    → (s2 ≡ s1)
      × (is_dispute_open_for_key global s1 ≡ false)
      × (is_schedule_scope_disputed x.schedule_id x.recipient s1 ≡ false)
      × (is_payable x.recipient s1 ≡ true)
    → (s3.program_data ≡ some (record d { remaining_balance = d.remaining_balance -ℤ x.amount }))
      × (s3.schedules
          ≡ set_schedule x.schedule_id (released_schedule x e.timestamp by) s2.schedules)
      × (s3.release_history ≡ push_back s2.release_history (release_entry x e.timestamp kind))
      × (s3.next_schedule_id ≡ s2.next_schedule_id)
      × (s3.transfers
          ≡ sending d.token_address e.current_contract_address
              (payout_record x.recipient x.amount e.timestamp)
            ∷ s2.transfers)
    → clear_entered e s3 ≡ ok (tt, s')
    → Releases e s s' d x by kind × (x.schedule_id ≡ id)
unfolding is_dispute_open_for_key is_schedule_scope_disputed is_payable
release-facts e s s1 s2 s3 s' id d x by kind (began, program, signed, found, unreleased)
      (same, undisputed, free, payable) (then_, marked, logged, next, sent) last =
    let named = find_schedule-id id s.schedules x found in
    let state : record s3 { reentrancy_guard = false } ≡ s' = cc in
    let back : s2 ≡ entered s = same ∙ began in
    (
      rw (← state) (record {
        program = program;
        signed = signed;
        found = ap (λ (i : ℕ). find_schedule i s.schedules) named ∙ found;
        unreleased = unreleased;
        undisputed = (rw began at undisputed);
        free = (rw began at free);
        payable = (rw began at payable);
        then_ = then_;
        marked = (rw back at marked);
        logged = (rw back at logged);
        same_next = (rw back at next);
        sent = (rw back at sent);
      }),
      named,
    )

-- What the two calls have in common once their schedule is found.
finish_release : ProgramData → ProgramReleaseSchedule → Address → ReleaseType → Call (Unit {0})
finish_release d x by kind = do check_schedule x; pay_schedule d x by kind; clear_entered

finish_release-Releases :
    (e : Env) (s s1 s' : State) (id : ℕ) (d : ProgramData) (x : ProgramReleaseSchedule)
    (by : Address) (kind : ReleaseType)
    → open_release id e s ≡ ok ((d, x), s1)
    → finish_release d x by kind e s1 ≡ ok (tt, s')
    → Releases e s s' d x by kind × (x.schedule_id ≡ id)
unfolding finish_release is_dispute_open_for_key is_schedule_scope_disputed is_payable
finish_release-Releases e s s1 s' id d x by kind h k =
    let (_, s2, checked, k1) =
      >>-eq_ok (pay_schedule d x by kind >> clear_entered) e (check_schedule x) s1 k in
    let (_, s3, paid, k2) = >>-eq_ok clear_entered e (pay_schedule d x by kind) s2 k1 in
    let opened = open_release-ok e s s1 id h in
    release-facts e s s1 s2 s3 s' id d x by kind opened (check_schedule-ok e s1 s2 x checked)
      (pay_schedule-ok e s2 s3 d x by kind paid) k2

-- `release_program_schedule_manual` releases the schedule of that identifier.
pub release_program_schedule_manual-Releases :
    (e : Env) (s s' : State) (id : ℕ)
    → release_program_schedule_manual id e s ≡ ok (tt, s')
    → (d : ProgramData) × (x : ProgramReleaseSchedule) × (x.schedule_id ≡ id)
      × Releases e s s' d x d.authorized_payout_key manual
unfolding release_program_schedule_manual finish_release
release_program_schedule_manual-Releases e s s' id h =
    let (c, s1, opened, h1) =
      >>=-eq_ok (λ c. finish_release c.0 c.1 c.0.authorized_payout_key manual) e (open_release id) s
        h in
    let (r, named) = finish_release-Releases e s s1 s' id c.0 c.1 _ manual opened h1 in
    (c.0, c.1, named, r)

close_automatic : ProgramData × ProgramReleaseSchedule → Call (Unit {0})
close_automatic c = do
  time ← now
  trap_if (ltb time c.1.release_timestamp) not_yet_due
  check_schedule c.1
  this ← asks (λ e. e.current_contract_address)
  pay_schedule c.0 c.1 this automatic
  clear_entered

close_automatic-ok :
    (e : Env) (s s' : State) (d : ProgramData) (x : ProgramReleaseSchedule)
    → close_automatic (d, x) e s ≡ ok (tt, s')
    → (x.release_timestamp ≤ e.timestamp)
      × (finish_release d x e.current_contract_address automatic e s ≡ ok (tt, s'))
unfolding close_automatic finish_release
close_automatic-ok e s s' d x h = (ground arith, ground arith)

-- `release_prog_schedule_automatic` releases the schedule of that identifier once it is due.
pub release_prog_schedule_automatic-Releases :
    (e : Env) (s s' : State) (id : ℕ)
    → release_prog_schedule_automatic id e s ≡ ok (tt, s')
    → (d : ProgramData) × (x : ProgramReleaseSchedule) × (x.schedule_id ≡ id)
      × (x.release_timestamp ≤ e.timestamp)
      × Releases e s s' d x e.current_contract_address automatic
unfolding release_prog_schedule_automatic close_automatic
release_prog_schedule_automatic-Releases e s s' id h =
    let (c, s1, opened, h1) = >>=-eq_ok close_automatic e (open_release id) s h in
    let (due, rest) = close_automatic-ok e s1 s' c.0 c.1 h1 in
    let (r, named) = finish_release-Releases e s s1 s' id c.0 c.1 _ automatic opened rest in
    (c.0, c.1, named, due, r)

pub set_schedule-ids :
    (id : ℕ) (y : ProgramReleaseSchedule) (xs : List ProgramReleaseSchedule)
    → y.schedule_id ≡ id
    → schedule_ids (set_schedule id y xs) ≡ schedule_ids xs
unfolding set_schedule
set_schedule-ids id y [] h = refl
set_schedule-ids id y (x ∷ xs) h = ground (arith, set_schedule-ids id y xs)

-- Marking an unreleased schedule adds its identifier to those released.
pub set_schedule-released :
    (i id : ℕ) (x y : ProgramReleaseSchedule) (xs : List ProgramReleaseSchedule)
    → find_schedule id xs ≡ some x
    → x.released ≡ false
    → y.released ≡ true
    → y.schedule_id ≡ id
    → occurrences i (released_ids (set_schedule id y xs))
      ≡ occurrences i (released_ids xs) + (if id == i then 1 else 0)
unfolding set_schedule find_schedule
set_schedule-released i id x y [] h k l m = cc
set_schedule-released i id x y (z ∷ zs) h k l m = ground (arith, set_schedule-released i id x y zs)
