-- ===== src/Program/Refinement.antt =====
-- The payouts of program-escrow/src/lib.rs refine the operation `pay` of the abstract ledger.
use grainlify_stellar_contra.Base.{◌≡◌, ◌∙◌, sym, refl, some, List, length}
use grainlify_stellar_contra.Base.Int.{ℤ}
use grainlify_stellar_contra.Base.Host.{Address, Env, ok}
use grainlify_stellar_contra.Program.State.{State, ProgramData, PayoutRecord}
use grainlify_stellar_contra.Program.Payout.{single_payout, batch_payout, payout_record}
use grainlify_stellar_contra.Program.Payout.Effects.{single_payout-pays, batch_payout-pays}
use grainlify_stellar_contra.Program.Books.{PaysRecorded}
use grainlify_stellar_contra.Program.Ledger.{view, pay, pay_all, pay_all-total, payments}

-- A call that pays and records `ps` is `pay`, once for each of them in order.
PaysRecorded-refines :
    (e : Env) (s s' : State) (d0 d d' : ProgramData) (ps : List PayoutRecord)
    → s.program_data ≡ some d0
    → PaysRecorded e s s' d d' ps
    → view d' s' ≡ pay_all d0.token_address e.current_contract_address ps (view d0 s)
PaysRecorded-refines e s s' d0 d d' ps h p =
    let same : d ≡ d0 = (let q = sym p.before ∙ h in cc) in
    rw
      (
        ← same,
        pay_all-total d.token_address e.current_contract_address ps (view d s),
        p.changed,
        p.sent,
      )
      refl

-- A `single_payout` that succeeds is one `pay`.
single_payout-refines :
    (e : Env) (s s' : State) (r : Address) (a : ℤ) {d d' : ProgramData}
    → s.program_data ≡ some d
    → single_payout r a e s ≡ ok (d', s')
    → view d' s'
      ≡ pay d.token_address e.current_contract_address (payout_record r a e.timestamp) (view d s)
single_payout-refines e s s' r a {d} {d'} k h =
    let (d0, _, _, _, _, pays, _) = single_payout-pays e s s' r a h in
    PaysRecorded-refines e s s' d d0 d' _ k pays

-- A `batch_payout` that succeeds acts on the remaining balance, the payout history and the
-- transfers as the abstract `pay` for each recipient and amount in order, of which there are
-- equally many.
pub batch_payout-refines :
    (e : Env) (s s' : State) (rs : List Address) (amounts : List ℤ) {d d' : ProgramData}
    → s.program_data ≡ some d
    → batch_payout rs amounts e s ≡ ok (d', s')
    → (view d' s'
        ≡ pay_all d.token_address e.current_contract_address
            (payments e.timestamp rs amounts)
            (view d s))
      × (length rs ≡ length amounts)
batch_payout-refines e s s' rs amounts {d} {d'} k h =
    let (d0, _, _, _, _, equal, _, _, pays, _) = batch_payout-pays e s s' rs amounts h in
    (PaysRecorded-refines e s s' d d0 d' _ k pays, equal)
