-- ===== src/Program/Books.antt =====
-- How a call of the program escrow changes its books: the payments that it makes, and the calls
-- that leave the books alone.
use grainlify_stellar_contra.Base.{◌≡◌, ◌∙◌, ap, sym, Bool, some, List, ◌++◌}
use grainlify_stellar_contra.Base.Int.{◌-ℤ◌}
use grainlify_stellar_contra.Base.Host.{Env, Transfer}
use grainlify_stellar_contra.Program.State.{State, ProgramData, PayoutRecord, Event}
use grainlify_stellar_contra.Program.Ledger.{total, send_all}

-- From `s` to `s'` the program makes the payments `ps`, and its record changes from `d` to `d'`.
pub record Pays (e : Env) (s s' : State) (d d' : ProgramData) (ps : List PayoutRecord)
    : Type 0 where
  pub before : s.program_data ≡ some d
  pub then_ : s'.program_data ≡ some d'
  pub same_token : d'.token_address ≡ d.token_address
  pub same_total : d'.total_funds ≡ d.total_funds
  pub balance : d'.remaining_balance ≡ d.remaining_balance -ℤ total ps
  pub sent : s'.transfers ≡ send_all d.token_address e.current_contract_address ps s.transfers

-- The same, where the program's payout history records the payments and nothing else changes.
pub record PaysRecorded (e : Env) (s s' : State) (d d' : ProgramData) (ps : List PayoutRecord)
    : Type 0 where
  pub before : s.program_data ≡ some d
  pub then_ : s'.program_data ≡ some d'
  pub changed : d' ≡ record d {
    remaining_balance = d.remaining_balance -ℤ total ps;
    payout_history = d.payout_history ++ ps;
  }
  pub sent : s'.transfers ≡ send_all d.token_address e.current_contract_address ps s.transfers

pub PaysRecorded-Pays :
    (e : Env) (s s' : State) (d d' : ProgramData) (ps : List PayoutRecord)
    → PaysRecorded e s s' d d' ps
    → Pays e s s' d d' ps
PaysRecorded-Pays e s s' d d' ps p = record {
  before = p.before;
  then_ = p.then_;
  same_token = ap (λ (x : ProgramData). x.token_address) p.changed;
  same_total = ap (λ (x : ProgramData). x.total_funds) p.changed;
  balance = ap (λ (x : ProgramData). x.remaining_balance) p.changed;
  sent = p.sent;
}

-- What the books read is the same in two states.
pub record SameBooks (s s' : State) : Type 0 where
  pub same_program : s'.program_data ≡ s.program_data
  pub same_schedules : s'.schedules ≡ s.schedules
  pub same_history : s'.release_history ≡ s.release_history
  pub same_next : s'.next_schedule_id ≡ s.next_schedule_id
  pub same_transfers : s'.transfers ≡ s.transfers

-- The schedules and their releases are the same in two states.
pub record SameSchedules (s s' : State) : Type 0 where
  pub same_schedules : s'.schedules ≡ s.schedules
  pub same_history : s'.release_history ≡ s.release_history
  pub same_next : s'.next_schedule_id ≡ s.next_schedule_id

pub SameBooks-trans : (s t u : State) → SameBooks s t → SameBooks t u → SameBooks s u
SameBooks-trans s t u p q = record {
  same_program = q.same_program ∙ p.same_program;
  same_schedules = q.same_schedules ∙ p.same_schedules;
  same_history = q.same_history ∙ p.same_history;
  same_next = q.same_next ∙ p.same_next;
  same_transfers = q.same_transfers ∙ p.same_transfers;
}

-- The books read no event.
pub SameBooks-event :
    (s s' : State) (vs : List Event) → SameBooks (record s { events = vs }) s' → SameBooks s s'
SameBooks-event s s' vs q = record {
  same_program = q.same_program;
  same_schedules = q.same_schedules;
  same_history = q.same_history;
  same_next = q.same_next;
  same_transfers = q.same_transfers;
}

pub SameSchedules-transfers :
    (s s' : State) (ts : List Transfer)
    → SameSchedules (record s { transfers = ts }) s'
    → SameSchedules s s'
SameSchedules-transfers s s' ts q = record {
  same_schedules = q.same_schedules;
  same_history = q.same_history;
  same_next = q.same_next;
}

pub SameSchedules-trans :
    (s t u : State) → SameSchedules s t → SameSchedules t u → SameSchedules s u
SameSchedules-trans s t u p q = record {
  same_schedules = q.same_schedules ∙ p.same_schedules;
  same_history = q.same_history ∙ p.same_history;
  same_next = q.same_next ∙ p.same_next;
}

pub SameBooks-SameSchedules : (s s' : State) → SameBooks s s' → SameSchedules s s'
SameBooks-SameSchedules s s' p = record {
  same_schedules = p.same_schedules;
  same_history = p.same_history;
  same_next = p.same_next;
}

-- Nor the reentrancy guard.
pub SameSchedules-guard :
    (s t s' : State) {b : Bool}
    → t ≡ record s { reentrancy_guard = b }
    → SameSchedules t s'
    → SameSchedules s s'
SameSchedules-guard s t s' e q = record {
  same_schedules = q.same_schedules ∙ ap (λ (x : State). x.schedules) e;
  same_history = q.same_history ∙ ap (λ (x : State). x.release_history) e;
  same_next = q.same_next ∙ ap (λ (x : State). x.next_schedule_id) e;
}

pub SameSchedules-cleared :
    (s t s' : State) {b : Bool}
    → record t { reentrancy_guard = b } ≡ s'
    → SameSchedules s t
    → SameSchedules s s'
SameSchedules-cleared s t s' e q = record {
  same_schedules = sym (ap (λ (x : State). x.schedules) e) ∙ q.same_schedules;
  same_history = sym (ap (λ (x : State). x.release_history) e) ∙ q.same_history;
  same_next = sym (ap (λ (x : State). x.next_schedule_id) e) ∙ q.same_next;
}
