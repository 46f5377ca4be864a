-- ===== src/Program/Schedules/Trigger.antt =====
-- What `trigger_program_releases` of program-escrow/src/lib.rs does, whole.
use grainlify_stellar_contra.Program.Schedules.Rounds.{
  Progressed, AllChosen, schedule_ids, released_ids, history_ids, occurrences,
}
use grainlify_stellar_contra.Base.{
  ℕ, ◌≡◌, ◌∙◌, ◌≤◌, ◌<◌, ◌+◌, ◌++◌, ap, true, false, some, List, [], ◌∷◌, arith, All, length, ◌⊎◌,
  inl, inr,
}
use grainlify_stellar_contra.Base.Int.{pos, ◌<ℤ◌}
use grainlify_stellar_contra.Base.Host.{Env, ok, ◌>>=◌, >>=-eq_ok}
use grainlify_stellar_contra.Program.State.{
  State, ProgramData, ProgramReleaseSchedule, PayoutRecord, global, of_recipient, of_schedule,
}
use grainlify_stellar_contra.Program.Guards.{
  Call, is_dispute_open_for_key, is_schedule_scope_disputed, is_payable,
}
use grainlify_stellar_contra.Program.Payout.{max_batch_size}
use grainlify_stellar_contra.Program.Schedules.{
  Progress, is_releasable, released_schedule, trigger_loop, open_trigger, close_trigger,
  trigger_program_releases,
}
use grainlify_stellar_contra.Program.Schedules.Effects.{
  trigger_loop-ok, open_trigger-ok, close_trigger-ok, entered,
}
use grainlify_stellar_contra.Program.Schedules.Marked.{
  newly_released, payouts_of, entries_of, length-newly,
}
use grainlify_stellar_contra.Program.Books.{PaysRecorded}

-- What a schedule needs to be released: it is not released yet, it is due, neither it nor its
-- recipient is under dispute, and its recipient may be paid.
pub record CanRelease (time : ℕ) (s : State) (x : ProgramReleaseSchedule) : Type 0 where
  pub unreleased : x.released ≡ false
  pub due : x.release_timestamp ≤ time
  pub schedule_free : is_dispute_open_for_key (of_schedule x.schedule_id) s ≡ false
  pub recipient_free : is_dispute_open_for_key (of_recipient x.recipient) s ≡ false
  pub payable : is_payable x.recipient s ≡ true

-- What one schedule may become.
abbrev pub MayBecome : Env → State → (x x' : ProgramReleaseSchedule) → Type 0
MayBecome e s x x' =
    (x' ≡ x)
    ⊎ (CanRelease e.timestamp s x
        × (x' ≡ released_schedule x e.timestamp e.current_contract_address))

abbrev pub AllMayBecome : Env → State → (xs xs' : List ProgramReleaseSchedule) → Type 0
AllMayBecome e s [] [] = Unit
AllMayBecome e s [] (y ∷ ys) = ⊥
AllMayBecome e s (x ∷ xs) [] = ⊥
AllMayBecome e s (x ∷ xs) (y ∷ ys) = MayBecome e s x y × AllMayBecome e s xs ys

is_releasable-CanRelease :
    (t : ℕ) (s : State) (x : ProgramReleaseSchedule) → is_releasable t x s ≡ true → CanRelease t s x
unfolding is_releasable is_schedule_scope_disputed
is_releasable-CanRelease t s x h = record {
  unreleased = ground arith;
  due = ground arith;
  schedule_free = ground arith;
  recipient_free = ground arith;
  payable = ground arith;
}

CanRelease-is_releasable :
    (t : ℕ) (s : State) (x : ProgramReleaseSchedule) → CanRelease t s x → is_releasable t x s ≡ true
unfolding is_releasable is_schedule_scope_disputed
CanRelease-is_releasable t s x c =
    ground (arith, c.unreleased, c.due, c.schedule_free, c.recipient_free, c.payable)

AllChosen-AllMayBecome :
    (e : Env) (s : State) (xs xs' : List ProgramReleaseSchedule)
    → AllChosen e s xs xs'
    → AllMayBecome e s xs xs'
AllChosen-AllMayBecome e s [] [] h = tt
AllChosen-AllMayBecome e s [] (y ∷ ys) h = h
AllChosen-AllMayBecome e s (x ∷ xs) [] h = h
AllChosen-AllMayBecome e s (x ∷ xs) (y ∷ ys) h = (
  elim h.0 [
    | inl same ↦ inl same
    | inr (may, done) ↦ inr (is_releasable-CanRelease e.timestamp s x may, done)
  ],
  AllChosen-AllMayBecome e s xs ys h.1,
)

none_releasable-CanRelease :
    (t : ℕ) (s : State) (xs : List ProgramReleaseSchedule)
    → All (λ x. is_releasable t x s ≡ false) xs
    → All (λ x. ¬ CanRelease t s x) xs
none_releasable-CanRelease t s [] h = tt
none_releasable-CanRelease t s (x ∷ xs) h =
    ((λ c. let may = CanRelease-is_releasable t s x c in cc), none_releasable-CanRelease t s xs h.1)

-- The call makes the payments `ps`, one for each of the `n` schedules that it releases.
pub record Triggers (e : Env) (s s' : State) (n : ℕ) (d d' : ProgramData) (ps : List PayoutRecord)
    : Type 0 where
  pub signed : e.authorized d.authorized_payout_key ≡ true
  pub undisputed : is_dispute_open_for_key global s ≡ false
  pub pays : PaysRecorded e s s' d d' ps
  pub counted : n ≡ length ps
  pub bounded : n ≤ max_batch_size
  pub same_next : s'.next_schedule_id ≡ s.next_schedule_id
  pub same_ids : schedule_ids s'.schedules ≡ schedule_ids s.schedules
  pub once :
      (i : ℕ)
      → occurrences i (history_ids s'.release_history) + occurrences i (released_ids s.schedules)
        ≡ occurrences i (history_ids s.release_history) + occurrences i (released_ids s'.schedules)
  pub chosen : AllMayBecome e s s.schedules s'.schedules
  pub paid_for : ps ≡ payouts_of e.timestamp (newly_released s.schedules s'.schedules)
  pub logged :
      s'.release_history
      ≡ s.release_history ++ entries_of e.timestamp (newly_released s.schedules s'.schedules)
  pub number : n ≡ length (newly_released s.schedules s'.schedules)
  pub positive :
      All (λ x. pos 0 <ℤ x.amount) s.schedules
      → All (λ p. pos 0 <ℤ p.amount) ps × All (λ x. pos 0 <ℤ x.amount) s'.schedules
  pub complete : n < max_batch_size → All (λ x. ¬ CanRelease e.timestamp s x) s'.schedules

AllChosen-entered :
    (e : Env) (s : State) (xs xs' : List ProgramReleaseSchedule)
    → AllChosen e (entered s) xs xs'
    → AllChosen e s xs xs'
unfolding is_releasable is_schedule_scope_disputed is_dispute_open_for_key is_payable
AllChosen-entered e s [] [] h = tt
AllChosen-entered e s [] (y ∷ ys) h = h
AllChosen-entered e s (x ∷ xs) [] h = h
AllChosen-entered e s (x ∷ xs) (y ∷ ys) h = (h.0, AllChosen-entered e s xs ys h.1)

none_releasable-entered :
    (e : Env) (s : State) (xs : List ProgramReleaseSchedule)
    → All (λ x. is_releasable e.timestamp x (entered s) ≡ false) xs
    → All (λ x. is_releasable e.timestamp x s ≡ false) xs
unfolding is_releasable is_schedule_scope_disputed is_dispute_open_for_key is_payable
none_releasable-entered e s [] h = tt
none_releasable-entered e s (x ∷ xs) h = (h.0, none_releasable-entered e s xs h.1)

trigger-facts :
    (e : Env) (s s1 s2 s' : State) (d : ProgramData) (xs' : List ProgramReleaseSchedule)
    (p : Progress) (ps : List PayoutRecord) (n : ℕ)
    → (s1 ≡ entered s)
      × (s.program_data ≡ some d)
      × (e.authorized d.authorized_payout_key ≡ true)
      × (is_dispute_open_for_key global s ≡ false)
    → Progressed e s1 s2 s1.schedules xs'
        (record { program = d; history = s1.release_history; released_count = 0 })
        p
        ps
    → (s'.program_data ≡ some p.program)
      × (s'.schedules ≡ xs')
      × (s'.release_history ≡ p.history)
      × (s'.next_schedule_id ≡ s2.next_schedule_id)
      × (s'.transfers ≡ s2.transfers)
      × (n ≡ p.released_count)
    → Triggers e s s' n d p.program ps
trigger-facts e s s1 s2 s' d xs' p ps n (began, program, signed, undisputed) q0
      (stored, list, history, next, sent, count) =
    let q : Progressed e (entered s) s2 s.schedules xs'
        (record { program = d; history = s.release_history; released_count = 0 }) p ps =
      rw began at q0 in
    record {
      signed = signed;
      undisputed = undisputed;
      pays = record {
        before = program;
        then_ = stored;
        changed = q.paid;
        sent = sent ∙ ap (λ (x : State). x.transfers) q.sent;
      };
      counted = count ∙ q.counted ∙ omega arith;
      bounded = rw count (q.bounded (omega arith));
      same_next = next ∙ ap (λ (x : State). x.next_schedule_id) q.sent;
      same_ids = rw list q.same_ids;
      once = λ i. rw (list, history) (q.once i);
      chosen = rw list (
          AllChosen-AllMayBecome e s s.schedules xs'
            (AllChosen-entered e s s.schedules xs' q.chosen));
      paid_for = rw list q.paid_for;
      logged = rw (history, list) q.logged;
      number = rw list (count ∙ q.counted ∙ length-newly e.timestamp _ ps q.paid_for);
      positive = λ h. rw list (q.positive h);
      complete = λ few. rw list (
          none_releasable-CanRelease e.timestamp s xs'
            (none_releasable-entered e s xs' (q.complete (rw count at few))));
    }

-- The call after its guards.
run_trigger : ProgramData → Call ℕ
run_trigger d e s =
    (trigger_loop s.schedules
          (record { program = d; history = s.release_history; released_count = 0 })
        >>= λ c. close_trigger c.0 c.1)
      e s

-- A `trigger_program_releases` that succeeds has the signature of the payout key and no open
-- dispute of the program; its payments are, in order, one for each schedule that it marks as
-- released, of its amount to its recipient, and its release history grows by the entries of these
-- schedules; it returns their number, at most 100; each schedule stays as it was, or was
-- unreleased, due, undisputed and payable, and is now marked with the time and the contract; if it
-- releases fewer than 100, no schedule that could be released is left.
pub trigger_program_releases-Triggers :
    (e : Env) (s s' : State) {n : ℕ}
    → trigger_program_releases e s ≡ ok (n, s')
    → (d : ProgramData) × (d' : ProgramData) × (ps : List PayoutRecord) × Triggers e s s' n d d' ps
unfolding trigger_program_releases run_trigger
trigger_program_releases-Triggers e s s' {n} h =
    let (d, s1, opened, h1) = >>=-eq_ok run_trigger e open_trigger s h in
    let (c, s2, looped, h2) =
      >>=-eq_ok (λ c. close_trigger c.0 c.1) e
        (trigger_loop s1.schedules
          (record { program = d; history = s1.release_history; released_count = 0 }))
        s1 h1 in
    let (began, program, signed, undisputed, _) = open_trigger-ok e s s1 opened in
    let (ps, q) = trigger_loop-ok e s1 s2 s1.schedules _ looped in
    (
      d,
      c.1.program,
      ps,
      trigger-facts e s s1 s2 s' d c.0 c.1 ps n (began, program, signed, undisputed) q
          (close_trigger-ok e s2 s' c.0 c.1 h2),
    )
