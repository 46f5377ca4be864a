-- ===== src/Program/Solvency.antt =====
-- Solvency of the program escrow: over any history, what its token transfers brought in covers the
-- balance that its record states. A transfer counts as made when the token contract accepts it.
use grainlify_stellar_contra.Program.WellFormed.{
  WellFormed, Starts, initialize_program-Starts, init_program-Starts, create-books,
}
use grainlify_stellar_contra.Base.{
  ℕ, ◌≡◌, ◌≢◌, refl, true, false, Option, some, none, List, [], ◌∷◌, arith, All, ◌==◌,
  if◌then◌else◌,
}
use grainlify_stellar_contra.Base.Int.{ℤ, pos, ◌+ℤ◌, ◌-ℤ◌, ◌<ℤ◌, ◌≤ℤ◌, int_laws}
use grainlify_stellar_contra.Base.Host.{Address, Env, Transfer, ok}
use grainlify_stellar_contra.Bounty.Accounts.{flow}
use grainlify_stellar_contra.Program.State.{
  State, ProgramData, ProgramReleaseSchedule, PayoutRecord, ReleaseType, empty_state,
}
use grainlify_stellar_contra.Program.Disputes.{find_schedule}
use grainlify_stellar_contra.Program.Payout.{payout_record}
use grainlify_stellar_contra.Program.Schedules.{create_program_release_schedule}
use grainlify_stellar_contra.Program.Schedules.Single.{
  Releases, release_program_schedule_manual-Releases, release_prog_schedule_automatic-Releases,
}
use grainlify_stellar_contra.Program.Schedules.Trigger.{trigger_program_releases-Triggers}
use grainlify_stellar_contra.Program.Ledger.{send_all, sending, total, payments}
use grainlify_stellar_contra.Program.Books.{SameBooks, Pays, PaysRecorded-Pays}
use grainlify_stellar_contra.Program.Lock.Effects.{Locks, lock_program_funds-Locks}
use grainlify_stellar_contra.Program.Payout.Effects.{single_payout-pays, batch_payout-pays}
use grainlify_stellar_contra.Program.Quiet.{Quiet-SameBooks}
use grainlify_stellar_contra.Program.Once.{Steps-WellFormed, empty_state-WellFormed}
use grainlify_stellar_contra.Program.Steps.{
  At, CoreStep, Steps, Step-CoreStep, initialise_bare, initialise, lock, single, batch, create,
  trigger, manual, automatic, quiet, stay, next,
}

-- What the transfers of `token` brought to `this`.
pub held : (token this : Address) → List Transfer → ℤ
held token this [] = pos 0
held token this (t ∷ ts) = held token this ts +ℤ (if t.token == token then flow this t else pos 0)

-- The balance that the program states is covered, and before there is a program nothing moved.
abbrev pub IsCovered : Address → Option ProgramData → List Transfer → Type 0
IsCovered this none ts = ts ≡ []
IsCovered this (some d) ts = d.remaining_balance ≤ℤ held d.token_address this ts

abbrev pub IsSolvent : Address → State → Type 0
IsSolvent this s = IsCovered this s.program_data s.transfers

send_one-covered :
    (token this : Address) (p : PayoutRecord) (ts : List Transfer) (b : ℤ)
    → pos 0 <ℤ p.amount
    → b ≤ℤ held token this ts
    → (b -ℤ p.amount) ≤ℤ held token this (sending token this p ∷ ts)
unfolding held
send_one-covered token this p ts b positive h = grind (int_laws)

sub_sub : (b a c : ℤ) → b -ℤ a -ℤ c ≡ b -ℤ (a +ℤ c)
sub_sub b a c = omega int_laws

send_all-covered :
    (token this : Address) (ps : List PayoutRecord) (ts : List Transfer) (b : ℤ)
    → All (λ p. pos 0 <ℤ p.amount) ps
    → b ≤ℤ held token this ts
    → (b -ℤ total ps) ≤ℤ held token this (send_all token this ps ts)
send_all-covered token this [] ts b positive h = omega (int_laws, h)
send_all-covered token this (p ∷ ps) ts b positive h = rw (← sub_sub b p.amount (total ps)) (
    send_all-covered token this ps (sending token this p ∷ ts) (b -ℤ p.amount) positive.1
      (send_one-covered token this p ts b positive.0 h))

-- Payments of positive amounts keep the contract solvent, whoever receives them.
Pays-IsSolvent :
    (e : Env) (s s' : State) (d d' : ProgramData) (ps : List PayoutRecord)
    → Pays e s s' d d' ps
    → All (λ p. pos 0 <ℤ p.amount) ps
    → IsSolvent e.current_contract_address s
    → IsSolvent e.current_contract_address s'
Pays-IsSolvent e s s' d d' ps p positive h =
    let before : d.remaining_balance
        ≤ℤ held d.token_address e.current_contract_address s.transfers =
      rw p.before at h in
    rw (p.then_, p.balance, p.same_token, p.sent)
      (send_all-covered d.token_address e.current_contract_address ps s.transfers
        d.remaining_balance positive before)

Locks-IsSolvent :
    (e : Env) (s s' : State) (d d' : ProgramData) (from : Address) (a : ℤ)
    → Locks e s s' d d' from a
    → from ≢ e.current_contract_address
    → IsSolvent e.current_contract_address s
    → IsSolvent e.current_contract_address s'
unfolding held
Locks-IsSolvent e s s' d d' from a l ne h =
    let before : d.remaining_balance
        ≤ℤ held d.token_address e.current_contract_address s.transfers =
      rw l.before at h in
    rw (l.then_, l.changed, l.taken) (grind (int_laws))

SameBooks-IsSolvent :
    (this : Address) (s s' : State) → SameBooks s s' → IsSolvent this s → IsSolvent this s'
SameBooks-IsSolvent this s s' b h = rw (b.same_program, b.same_transfers) h

payments-positive :
    (time : ℕ) (rs : List Address) (amounts : List ℤ)
    → All (λ a. pos 0 <ℤ a) amounts
    → All (λ p. pos 0 <ℤ p.amount) (payments time rs amounts)
payments-positive time [] amounts h = tt
payments-positive time (r ∷ rs) [] h = tt
payments-positive time (r ∷ rs) (a ∷ amounts) h = (h.0, payments-positive time rs amounts h.1)

find_schedule-positive :
    (id : ℕ) (xs : List ProgramReleaseSchedule) (x : ProgramReleaseSchedule)
    → find_schedule id xs ≡ some x
    → All (λ x. pos 0 <ℤ x.amount) xs
    → pos 0 <ℤ x.amount
unfolding find_schedule
find_schedule-positive id [] x h all = ground arith
find_schedule-positive id (y ∷ ys) x h all =
    ground (arith, find_schedule-positive id ys x, all.0, all.1)

sub_one : (b a : ℤ) → b -ℤ a ≡ b -ℤ (a +ℤ pos 0)
sub_one b a = omega int_laws

Releases-Pays :
    (e : Env) (s s' : State) (d : ProgramData) (x : ProgramReleaseSchedule) (by : Address)
    (kind : ReleaseType)
    → Releases e s s' d x by kind
    → Pays e s s' d
        (record d { remaining_balance = d.remaining_balance -ℤ x.amount })
        (payout_record x.recipient x.amount e.timestamp ∷ [])
Releases-Pays e s s' d x by kind r = record {
  before = r.program;
  then_ = r.then_;
  same_token = refl;
  same_total = refl;
  balance = sub_one d.remaining_balance x.amount;
  sent = r.sent;
}

Releases-IsSolvent :
    (e : Env) (s s' : State) (d : ProgramData) (x : ProgramReleaseSchedule) (by : Address)
    (kind : ReleaseType)
    → Releases e s s' d x by kind
    → WellFormed s
    → IsSolvent e.current_contract_address s
    → IsSolvent e.current_contract_address s'
Releases-IsSolvent e s s' d x by kind r w h =
    Pays-IsSolvent e s s' d _ _ (Releases-Pays e s s' d x by kind r)
      (find_schedule-positive x.schedule_id s.schedules x r.found w.positive, tt) h

create-IsSolvent :
    (this : Address) (e : Env) (s s' : State) (a : ℤ) (time : ℕ) (r : Address)
    {x : ProgramReleaseSchedule}
    → create_program_release_schedule a time r e s ≡ ok (x, s')
    → IsSolvent this s
    → IsSolvent this s'
create-IsSolvent this e s s' a time r h k =
    let (program, sent) = create-books e s s' a time r h in rw (program, sent) k

Starts-IsSolvent :
    (this : Address) (s s' : State) (d : ProgramData)
    → Starts s s' d
    → IsSolvent this s
    → IsSolvent this s'
unfolding held
Starts-IsSolvent this s s' d (missing, found, balance, _, _, same) k =
    let nothing : s.transfers ≡ [] = rw missing at k in
    rw (found, same, nothing, balance) (omega arith)

signer_not_contract :
    (e : Env) (from : Address)
    → e.authorized from ≡ true
    → e.authorized e.current_contract_address ≡ false
    → from ≢ e.current_contract_address
signer_not_contract e from yes_ no_ h =
    let both : e.authorized e.current_contract_address ≡ true = rw (← h) yes_ in cc

module _ (this : Address) where
  moves :
      (e : Env) (s s' : State)
      → At this e
      → (IsSolvent e.current_contract_address s → IsSolvent e.current_contract_address s')
      → IsSolvent this s
      → IsSolvent this s'
  moves e s s' at_ f h = rw at_.located at (f (rw at_.located h))

  CoreStep-IsSolvent :
      (s s' : State) → CoreStep this s s' → WellFormed s → IsSolvent this s → IsSolvent this s'
  CoreStep-IsSolvent s s' (initialise e id key token d at_ h) w k =
      Starts-IsSolvent this s s' d (init_program-Starts e s s' id key token h) k
  CoreStep-IsSolvent s s' (initialise_bare e id key token d at_ h) w k =
      Starts-IsSolvent this s s' d (initialize_program-Starts e s s' id key token h) k
  CoreStep-IsSolvent s s' (lock e from a d at_ h) w k =
      let (d0, l) = lock_program_funds-Locks e s s' from a h in
      let outside : e.authorized e.current_contract_address ≡ false = rw at_.located at_.unsigned in
      moves e s s' at_
        (Locks-IsSolvent e s s' d0 d from a l (signer_not_contract e from l.signed outside)) k
  CoreStep-IsSolvent s s' (single e r a d at_ h) w k =
      let (d0, _, _, positive, _, pays, _) = single_payout-pays e s s' r a h in
      moves e s s' at_
        (Pays-IsSolvent e s s' d0 d _ (PaysRecorded-Pays e s s' d0 d _ pays) (positive, tt)) k
  CoreStep-IsSolvent s s' (batch e rs amounts d at_ h) w k =
      let (d0, _, _, positive, _, _, _, _, pays, _) = batch_payout-pays e s s' rs amounts h in
      moves e s s' at_
        (Pays-IsSolvent e s s' d0 d _ (PaysRecorded-Pays e s s' d0 d _ pays)
          (payments-positive e.timestamp rs amounts positive))
        k
  CoreStep-IsSolvent s s' (create e a time r x at_ h) w k =
      create-IsSolvent this e s s' a time r h k
  CoreStep-IsSolvent s s' (trigger e n at_ h) w k =
      let (d0, d, ps, t) = trigger_program_releases-Triggers e s s' h in
      moves e s s' at_
        (Pays-IsSolvent e s s' d0 d ps (PaysRecorded-Pays e s s' d0 d ps t.pays)
          (t.positive w.positive).0)
        k
  CoreStep-IsSolvent s s' (manual e id at_ h) w k =
      let (d, x, _, r) = release_program_schedule_manual-Releases e s s' id h in
      moves e s s' at_ (Releases-IsSolvent e s s' d x _ _ r w) k
  CoreStep-IsSolvent s s' (automatic e id at_ h) w k =
      let (d, x, _, _, r) = release_prog_schedule_automatic-Releases e s s' id h in
      moves e s s' at_ (Releases-IsSolvent e s s' d x _ _ r w) k
  CoreStep-IsSolvent s s' (quiet q) w k = SameBooks-IsSolvent this s s' (Quiet-SameBooks s s' q) k

  Steps-IsSolvent :
      (s s' : State) → Steps this s s' → WellFormed s → IsSolvent this s → IsSolvent this s'
  Steps-IsSolvent s s' stay w k = k
  Steps-IsSolvent s s' (next {t} {u} path step) w k =
      CoreStep-IsSolvent t s' (Step-CoreStep this t s' step) (Steps-WellFormed this s t path w)
        (Steps-IsSolvent s t path w k)

-- In every state that calls reach from an empty contract at one address that never signs for
-- itself, if there is a program then what the transfers of its token brought to the contract is at
-- least the remaining balance that its record states.
pub program_solvent :
    (this : Address) (s : State) {d : ProgramData}
    → Steps this empty_state s
    → s.program_data ≡ some d
    → d.remaining_balance ≤ℤ held d.token_address this s.transfers
program_solvent this s path h =
    rw h at (Steps-IsSolvent this empty_state s path empty_state-WellFormed refl)
