-- ===== src/Program/Once.antt =====
-- Release schedules over histories of calls: their identifiers, and that each is paid at most once.
use grainlify_stellar_contra.Program.Schedules.Rounds.{
  schedule_ids, released_ids, history_ids, occurrences,
}
use grainlify_stellar_contra.Base.{
  ℕ, ◌≡◌, ◌≤◌, refl, false, List, [], ◌∷◌, arith, IsDistinct, contains,
}
use grainlify_stellar_contra.Base.Host.{Address}
use grainlify_stellar_contra.Program.State.{State, ProgramReleaseSchedule, empty_state}
use grainlify_stellar_contra.Program.Schedules.Single.{
  release_program_schedule_manual-Releases, release_prog_schedule_automatic-Releases,
}
use grainlify_stellar_contra.Program.Schedules.Trigger.{trigger_program_releases-Triggers}
use grainlify_stellar_contra.Program.Lock.Effects.{lock_program_funds-Locks}
use grainlify_stellar_contra.Program.Payout.Effects.{single_payout-pays, batch_payout-pays}
use grainlify_stellar_contra.Program.Books.{SameBooks-SameSchedules}
use grainlify_stellar_contra.Program.Quiet.{Quiet-SameBooks}
use grainlify_stellar_contra.Program.Steps.{
  CoreStep, Step, Steps, Step-CoreStep, initialise_bare, initialise, lock, single, batch, create,
  trigger, manual, automatic, quiet, stay, next,
}
use grainlify_stellar_contra.Program.WellFormed.{
  WellFormed, SameSchedules-WellFormed, Triggers-WellFormed, Releases-WellFormed, create-WellFormed,
  Starts-WellFormed, initialize_program-Starts, init_program-Starts,
}

CoreStep-WellFormed :
    (this : Address) (s s' : State) → CoreStep this s s' → WellFormed s → WellFormed s'
CoreStep-WellFormed this s s' (initialise e id key token d at h) w =
    Starts-WellFormed s s' d (init_program-Starts e s s' id key token h)
CoreStep-WellFormed this s s' (initialise_bare e id key token d at h) w =
    Starts-WellFormed s s' d (initialize_program-Starts e s s' id key token h)
CoreStep-WellFormed this s s' (lock e from a d at h) w =
    SameSchedules-WellFormed s s' (lock_program_funds-Locks e s s' from a h).1.schedules w
CoreStep-WellFormed this s s' (single e r a d at h) w =
    let (_, _, _, _, _, _, same) = single_payout-pays e s s' r a h in
    SameSchedules-WellFormed s s' same w
CoreStep-WellFormed this s s' (batch e rs amounts d at h) w =
    let (_, _, _, _, _, _, _, _, _, same) = batch_payout-pays e s s' rs amounts h in
    SameSchedules-WellFormed s s' same w
CoreStep-WellFormed this s s' (create e a time r x at h) w = create-WellFormed e s s' a time r h w
CoreStep-WellFormed this s s' (trigger e n at h) w =
    let (d, d', ps, t) = trigger_program_releases-Triggers e s s' h in
    Triggers-WellFormed e s s' n d d' ps t w
CoreStep-WellFormed this s s' (manual e id at h) w =
    let (d, x, _, r) = release_program_schedule_manual-Releases e s s' id h in
    Releases-WellFormed e s s' d x _ _ r w
CoreStep-WellFormed this s s' (automatic e id at h) w =
    let (d, x, _, _, r) = release_prog_schedule_automatic-Releases e s s' id h in
    Releases-WellFormed e s s' d x _ _ r w
CoreStep-WellFormed this s s' (quiet q) w =
    SameSchedules-WellFormed s s' (SameBooks-SameSchedules s s' (Quiet-SameBooks s s' q)) w

pub Step-WellFormed :
    (this : Address) (s s' : State) → Step this s s' → WellFormed s → WellFormed s'
Step-WellFormed this s s' step = CoreStep-WellFormed this s s' (Step-CoreStep this s s' step)

pub Steps-WellFormed :
    (this : Address) (s s' : State) → Steps this s s' → WellFormed s → WellFormed s'
Steps-WellFormed this s s' stay w = w
Steps-WellFormed this s s' (next {t} {u} path step) w =
    Step-WellFormed this t s' step (Steps-WellFormed this s t path w)

pub empty_state-WellFormed : WellFormed empty_state
empty_state-WellFormed = record { positive = tt; fresh = tt; distinct = tt; logged = λ i. refl }

absent_occurrences : (i : ℕ) (is : List ℕ) → contains is i ≡ false → occurrences i is ≡ 0
absent_occurrences i [] h = refl
absent_occurrences i (j ∷ js) h = ground (arith, absent_occurrences i js)

distinct_occurrences : (i : ℕ) (is : List ℕ) → IsDistinct is → occurrences i is ≤ 1
distinct_occurrences i [] h = omega arith
distinct_occurrences i (j ∷ js) h =
    ground (arith, distinct_occurrences i js h.1, absent_occurrences i js)

released_occurrences :
    (i : ℕ) (xs : List ProgramReleaseSchedule)
    → occurrences i (released_ids xs) ≤ occurrences i (schedule_ids xs)
released_occurrences i [] = omega arith
released_occurrences i (x ∷ xs) = ground (arith, released_occurrences i xs)

-- In every state that calls reach from an empty contract at one address that never signs for
-- itself, the release history names each schedule at most once, and as often as a schedule of that
-- identifier is marked as released.
pub releases_once :
    (this : Address) (s : State) (i : ℕ)
    → Steps this empty_state s
    → (occurrences i (history_ids s.release_history) ≤ 1)
      × (occurrences i (history_ids s.release_history) ≡ occurrences i (released_ids s.schedules))
releases_once this s i path =
    let w = Steps-WellFormed this empty_state s path empty_state-WellFormed in
    (
      omega (
        arith,
        w.logged i,
        released_occurrences i s.schedules,
        distinct_occurrences i (schedule_ids s.schedules) w.distinct,
      ),
      w.logged i,
    )
