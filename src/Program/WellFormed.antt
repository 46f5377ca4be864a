-- ===== src/Program/WellFormed.antt =====
-- The calls on release schedules keep the identifiers distinct and the release history true.
use grainlify_stellar_contra.Program.Schedules.Rounds.{
  schedule_ids, released_ids, history_ids, occurrences, occurrences-push_back,
}
use grainlify_stellar_contra.Base.{
  ℕ, ◌+◌, ◌≡◌, ◌∙◌, ◌<◌, ap, refl, false, some, none, List, [], ◌∷◌, arith, All, IsDistinct,
  contains, push_back, push_back-IsDistinct, All-push_back,
}
use grainlify_stellar_contra.Base.Int.{ℤ, pos, ◌<ℤ◌}
use grainlify_stellar_contra.Base.Host.{Address, Symbol, Env, ok}
use grainlify_stellar_contra.Program.State.{State, ProgramData, ProgramReleaseSchedule, ReleaseType}
use grainlify_stellar_contra.Program.Guards.{track}
use grainlify_stellar_contra.Program.Admin.{init_program, initialize_program}
use grainlify_stellar_contra.Program.Schedules.{
  create_program_release_schedule, new_schedule, released_schedule, release_entry, set_schedule,
}
use grainlify_stellar_contra.Program.Disputes.{find_schedule}
use grainlify_stellar_contra.Program.Schedules.Single.{
  Releases, set_schedule-ids, set_schedule-released,
}
use grainlify_stellar_contra.Program.Schedules.Trigger.{Triggers}
use grainlify_stellar_contra.Program.Books.{SameSchedules}

-- The schedules have distinct identifiers below the next one and positive amounts, and the release
-- history names exactly those that are marked as released, each as often as it is marked.
pub record WellFormed (s : State) : Type 0 where
  pub positive : All (λ x. pos 0 <ℤ x.amount) s.schedules
  pub fresh : All (λ i. i < s.next_schedule_id) (schedule_ids s.schedules)
  pub distinct : IsDistinct (schedule_ids s.schedules)
  pub logged :
      (i : ℕ)
      → occurrences i (history_ids s.release_history) ≡ occurrences i (released_ids s.schedules)

pub SameSchedules-WellFormed : (s s' : State) → SameSchedules s s' → WellFormed s → WellFormed s'
SameSchedules-WellFormed s s' q w = record {
  positive = rw q.same_schedules w.positive;
  fresh = rw (q.same_schedules, q.same_next) w.fresh;
  distinct = rw q.same_schedules w.distinct;
  logged = λ i. rw (q.same_schedules, q.same_history) (w.logged i);
}

pub Triggers-WellFormed :
    (e : Env) (s s' : State) (n : ℕ) (d d' : ProgramData) (ps : List _)
    → Triggers e s s' n d d' ps
    → WellFormed s
    → WellFormed s'
Triggers-WellFormed e s s' n d d' ps t w = record {
  positive = (t.positive w.positive).1;
  fresh = rw (t.same_ids, t.same_next) w.fresh;
  distinct = rw t.same_ids w.distinct;
  logged = λ i. omega (arith, t.once i, w.logged i);
}

pub set_schedule-positive :
    (id : ℕ) (y : ProgramReleaseSchedule) (xs : List ProgramReleaseSchedule)
    (x : ProgramReleaseSchedule)
    → find_schedule id xs ≡ some x
    → y.amount ≡ x.amount
    → All (λ x. pos 0 <ℤ x.amount) xs
    → All (λ x. pos 0 <ℤ x.amount) (set_schedule id y xs)
unfolding set_schedule find_schedule
set_schedule-positive id y [] x h k all = tt
set_schedule-positive id y (z ∷ zs) x h k all = ground (arith, set_schedule-positive id y zs x)

pub Releases-WellFormed :
    (e : Env) (s s' : State) (d : ProgramData) (x : ProgramReleaseSchedule) (by : Address)
    (kind : ReleaseType)
    → Releases e s s' d x by kind
    → WellFormed s
    → WellFormed s'
Releases-WellFormed e s s' d x by kind r w =
    let y = released_schedule x e.timestamp by in
    let ids = set_schedule-ids x.schedule_id y s.schedules refl in
    record {
      positive =
          rw r.marked (set_schedule-positive x.schedule_id y s.schedules x r.found refl w.positive);
      fresh = rw (r.marked, ids, r.same_next) w.fresh;
      distinct = rw (r.marked, ids) w.distinct;
      logged = λ i.
          rw (r.marked, r.logged)
            (omega (
              arith,
              w.logged i,
              occurrences-push_back i s.release_history (release_entry x e.timestamp kind),
              set_schedule-released i x.schedule_id x y s.schedules r.found r.unreleased refl refl,
            ));
    }

pub create-ok :
    (e : Env) (s s' : State) (a : ℤ) (time : ℕ) (r : Address) {x : ProgramReleaseSchedule}
    → create_program_release_schedule a time r e s ≡ ok (x, s')
    → (pos 0 <ℤ a)
      × (s'.schedules ≡ push_back s.schedules x)
      × (x ≡ new_schedule s.next_schedule_id r a time)
      × (s'.next_schedule_id ≡ s.next_schedule_id + 1)
      × (s'.release_history ≡ s.release_history)
unfolding create_program_release_schedule
create-ok e s s' a time r h = (ground arith, ground arith, ground arith, ground arith, ground arith)

pub below_contains : (is : List ℕ) (n : ℕ) → All (λ i. i < n) is → contains is n ≡ false
below_contains [] n h = refl
below_contains (i ∷ is) n h = ground (arith, below_contains is n h.1, h.0)

pub below_suc : (is : List ℕ) (n : ℕ) → All (λ i. i < n) is → All (λ i. i < n + 1) is
below_suc [] n h = tt
below_suc (i ∷ is) n h = (omega (arith, h.0), below_suc is n h.1)

pub schedule_ids-push_back :
    (xs : List ProgramReleaseSchedule) (x : ProgramReleaseSchedule)
    → schedule_ids (push_back xs x) ≡ push_back (schedule_ids xs) x.schedule_id
schedule_ids-push_back [] x = refl
schedule_ids-push_back (y ∷ ys) x =
    ap (λ (is : List ℕ). y.schedule_id ∷ is) (schedule_ids-push_back ys x)

pub released_ids-push_back :
    (xs : List ProgramReleaseSchedule) (x : ProgramReleaseSchedule)
    → x.released ≡ false
    → released_ids (push_back xs x) ≡ released_ids xs
released_ids-push_back [] x h = ground arith
released_ids-push_back (y ∷ ys) x h = ground (arith, released_ids-push_back ys x)

pub create-WellFormed :
    (e : Env) (s s' : State) (a : ℤ) (time : ℕ) (r : Address) {x : ProgramReleaseSchedule}
    → create_program_release_schedule a time r e s ≡ ok (x, s')
    → WellFormed s
    → WellFormed s'
create-WellFormed e s s' a time r {x} h w =
    let (positive, grown, made, advanced, history) = create-ok e s s' a time r h in
    let y = new_schedule s.next_schedule_id r a time in
    let list : s'.schedules ≡ push_back s.schedules y = grown ∙ rw made refl in
    record {
      positive = rw list (All-push_back _ s.schedules y w.positive positive);
      fresh =
          rw (list, advanced, schedule_ids-push_back s.schedules y)
            (All-push_back _ (schedule_ids s.schedules) s.next_schedule_id
              (below_suc (schedule_ids s.schedules) s.next_schedule_id w.fresh) (omega arith));
      distinct =
          rw (list, schedule_ids-push_back s.schedules y)
            (push_back-IsDistinct (schedule_ids s.schedules) s.next_schedule_id w.distinct
              (below_contains (schedule_ids s.schedules) s.next_schedule_id w.fresh));
      logged = λ i. rw (list, history, released_ids-push_back s.schedules y refl) (w.logged i);
    }

-- What setting a program up leaves.
abbrev pub Starts : (s s' : State) → ProgramData → Type 0
Starts s s' d =
    (s.program_data ≡ none)
    × (s'.program_data ≡ some d)
    × (d.remaining_balance ≡ pos 0)
    × (s'.schedules ≡ [])
    × (s'.release_history ≡ [])
    × (s'.transfers ≡ s.transfers)

pub initialize_program-Starts :
    (e : Env) (s s' : State) (id : Symbol) (key token : Address) {d : ProgramData}
    → initialize_program id key token e s ≡ ok (d, s')
    → Starts s s' d
unfolding initialize_program
initialize_program-Starts e s s' id key token h =
    (ground arith, ground arith, ground arith, ground arith, ground arith, ground arith)

pub init_program-Starts :
    (e : Env) (s s' : State) (id : Symbol) (key token : Address) {d : ProgramData}
    → init_program id key token e s ≡ ok (d, s')
    → Starts s s' d
unfolding init_program initialize_program track
init_program-Starts e s s' id key token h =
    (ground arith, ground arith, ground arith, ground arith, ground arith, ground arith)

pub Starts-WellFormed : (s s' : State) (d : ProgramData) → Starts s s' d → WellFormed s'
Starts-WellFormed s s' d (_, _, _, list, history, _) = record {
  positive = rw list tt;
  fresh = rw list tt;
  distinct = rw list tt;
  logged = λ i. rw (list, history) refl;
}

pub create-books :
    (e : Env) (s s' : State) (a : ℤ) (time : ℕ) (r : Address) {x : ProgramReleaseSchedule}
    → create_program_release_schedule a time r e s ≡ ok (x, s')
    → (s'.program_data ≡ s.program_data) × (s'.transfers ≡ s.transfers)
unfolding create_program_release_schedule
create-books e s s' a time r h = (ground arith, ground arith)
