-- ===== src/Program/Schedules/Rounds.antt =====
-- What the loop of `trigger_program_releases` has done after some of its rounds.
use grainlify_stellar_contra.Base.{
  ℕ, ◌+◌, ◌≡◌, ◌∙◌, ap, sym, append_nil, append_assoc_one, ◌<◌, ◌⊎◌, All, length, count_where, refl,
  true, false, List, [], ◌∷◌, ◌++◌, map, arith, push_back, ◌≤◌, ◌==◌, if◌then◌else◌, inl, inr,
}
use grainlify_stellar_contra.Base.Int.{ℤ, pos, ◌+ℤ◌, ◌-ℤ◌, ◌<ℤ◌, int_laws}
use grainlify_stellar_contra.Base.Host.{Address, Env, Transfer}
use grainlify_stellar_contra.Program.State.{
  State, ProgramReleaseSchedule, ProgramReleaseHistory, PayoutRecord, automatic, Event,
}
use grainlify_stellar_contra.Program.Guards.{
  is_dispute_open_for_key, is_schedule_scope_disputed, is_payable,
}
use grainlify_stellar_contra.Program.Payout.{payout_record, max_batch_size}
use grainlify_stellar_contra.Program.Schedules.{
  Progress, is_releasable, advanced, released_schedule, release_entry,
}
use grainlify_stellar_contra.Program.Schedules.Marked.{
  newly_released, payouts_of, entries_of, newly_same, newly_marked,
}
use grainlify_stellar_contra.Program.Ledger.{send_all, sending, total}

abbrev pub schedule_ids : List ProgramReleaseSchedule → List ℕ
schedule_ids = map (λ x. x.schedule_id)

-- The schedules that are marked as released.
abbrev pub released_ids : List ProgramReleaseSchedule → List ℕ
released_ids [] = []
released_ids (x ∷ xs) = if x.released then x.schedule_id ∷ released_ids xs else released_ids xs

-- The schedules that the release history names.
abbrev pub history_ids : List ProgramReleaseHistory → List ℕ
history_ids = map (λ x. x.schedule_id)

abbrev pub occurrences : ℕ → List ℕ → ℕ
occurrences i = count_where (λ j. j == i)

-- What one schedule may become in the loop.
abbrev pub Chosen : Env → State → (x x' : ProgramReleaseSchedule) → Type 0
Chosen e s x x' =
    (x' ≡ x)
    ⊎ ((is_releasable e.timestamp x s ≡ true)
        × (x' ≡ released_schedule x e.timestamp e.current_contract_address))

abbrev pub AllChosen : Env → State → (xs xs' : List ProgramReleaseSchedule) → Type 0
AllChosen e s [] [] = Unit
AllChosen e s [] (y ∷ ys) = ⊥
AllChosen e s (x ∷ xs) [] = ⊥
AllChosen e s (x ∷ xs) (y ∷ ys) = Chosen e s x y × AllChosen e s xs ys

-- What the loop does from `p` to `p'`: it makes the payments `ps`, one for each schedule that it
-- releases, and `once` says that it adds one entry of the history for each.
pub record Progressed (e : Env) (s s' : State) (xs xs' : List ProgramReleaseSchedule)
    (p p' : Progress) (ps : List PayoutRecord) : Type 0 where
  pub paid : p'.program ≡ record p.program {
    remaining_balance = p.program.remaining_balance -ℤ total ps;
    payout_history = p.program.payout_history ++ ps;
  }
  pub sent : s' ≡ record s {
    transfers = send_all p.program.token_address e.current_contract_address ps s.transfers;
    events = s'.events;
  }
  pub counted : p'.released_count ≡ p.released_count + length ps
  pub bounded : p.released_count ≤ max_batch_size → p'.released_count ≤ max_batch_size
  pub same_ids : schedule_ids xs' ≡ schedule_ids xs
  pub once :
      (i : ℕ)
      → occurrences i (history_ids p'.history) + occurrences i (released_ids xs)
        ≡ occurrences i (history_ids p.history) + occurrences i (released_ids xs')
  pub chosen : AllChosen e s xs xs'
  pub paid_for : ps ≡ payouts_of e.timestamp (newly_released xs xs')
  pub logged : p'.history ≡ p.history ++ entries_of e.timestamp (newly_released xs xs')
  pub positive :
      All (λ x. pos 0 <ℤ x.amount) xs
      → All (λ x. pos 0 <ℤ x.amount) ps × All (λ x. pos 0 <ℤ x.amount) xs'
  pub complete :
      p'.released_count < max_batch_size → All (λ x. is_releasable e.timestamp x s ≡ false) xs'

pub sub_zero : (b : ℤ) → b ≡ b -ℤ pos 0
sub_zero b = omega int_laws

pub idle-Progressed : (e : Env) (s : State) (p : Progress) → Progressed e s s [] [] p p []
idle-Progressed e s p = record {
  paid = rw (← sub_zero p.program.remaining_balance, ← append_nil p.program.payout_history) refl;
  sent = refl;
  counted = omega arith;
  bounded = λ h. h;
  same_ids = refl;
  once = λ i. refl;
  chosen = tt;
  paid_for = refl;
  logged = append_nil p.history;
  positive = λ h. (tt, tt);
  complete = λ h. tt;
}

pub skip-Progressed :
    (e : Env) (s s' : State) (x : ProgramReleaseSchedule) (xs xs' : List ProgramReleaseSchedule)
    (p p' : Progress) (ps : List PayoutRecord)
    → (max_batch_size ≤ p.released_count) ⊎ (is_releasable e.timestamp x s ≡ false)
    → Progressed e s s' xs xs' p p' ps
    → Progressed e s s' (x ∷ xs) (x ∷ xs') p p' ps
skip-Progressed e s s' x xs xs' p p' ps why q = record {
  paid = q.paid;
  sent = q.sent;
  counted = q.counted;
  bounded = q.bounded;
  same_ids = ap (λ (is : List ℕ). x.schedule_id ∷ is) q.same_ids;
  once = λ i. ground (arith, q.once i);
  chosen = (inl refl, q.chosen);
  paid_for = q.paid_for ∙ ap (payouts_of e.timestamp) (sym (newly_same x xs xs'));
  logged =
      q.logged
      ∙ ap (λ (ys : List ProgramReleaseSchedule). p.history ++ entries_of e.timestamp ys)
          (sym (newly_same x xs xs'));
  positive = λ h. ((q.positive h.1).0, (h.0, (q.positive h.1).1));
  complete = λ few. (ground (arith, q.counted), q.complete few);
}

pub is_releasable-quiet :
    (t : ℕ) (x : ProgramReleaseSchedule) (s : State) (ts : List Transfer) (vs : List Event)
    → is_releasable t x (record s { transfers = ts; events = vs }) ≡ is_releasable t x s
unfolding is_releasable is_schedule_scope_disputed is_dispute_open_for_key is_payable
is_releasable-quiet t x s ts vs = refl

pub is_releasable-unreleased :
    (t : ℕ) (x : ProgramReleaseSchedule) (s : State)
    → is_releasable t x s ≡ true
    → x.released ≡ false
unfolding is_releasable
is_releasable-unreleased t x s h = ground arith

pub AllChosen-quiet :
    (e : Env) (s : State) (ts : List Transfer) (vs : List Event)
    (xs xs' : List ProgramReleaseSchedule)
    → AllChosen e (record s { transfers = ts; events = vs }) xs xs'
    → AllChosen e s xs xs'
AllChosen-quiet e s ts vs [] [] h = tt
AllChosen-quiet e s ts vs [] (y ∷ ys) h = h
AllChosen-quiet e s ts vs (x ∷ xs) [] h = h
AllChosen-quiet e s ts vs (x ∷ xs) (y ∷ ys) h =
    (rw (is_releasable-quiet e.timestamp x s ts vs) at h.0, AllChosen-quiet e s ts vs xs ys h.1)

pub none_releasable-quiet :
    (e : Env) (s : State) (ts : List Transfer) (vs : List Event) (xs : List ProgramReleaseSchedule)
    → All (λ x. is_releasable e.timestamp x (record s { transfers = ts; events = vs }) ≡ false) xs
    → All (λ x. is_releasable e.timestamp x s ≡ false) xs
none_releasable-quiet e s ts vs [] h = tt
none_releasable-quiet e s ts vs (x ∷ xs) h =
    (rw (is_releasable-quiet e.timestamp x s ts vs) at h.0, none_releasable-quiet e s ts vs xs h.1)

pub released-not_releasable :
    (t : ℕ) (x : ProgramReleaseSchedule) (n : ℕ) (a : Address) (s : State)
    → is_releasable t (released_schedule x n a) s ≡ false
unfolding is_releasable
released-not_releasable t x n a s = ground arith

pub occurrences-push_back :
    (i : ℕ) (xs : List ProgramReleaseHistory) (x : ProgramReleaseHistory)
    → occurrences i (history_ids (push_back xs x))
      ≡ occurrences i (history_ids xs) + (if x.schedule_id == i then 1 else 0)
occurrences-push_back i [] x = omega arith
occurrences-push_back i (y ∷ ys) x = ground (arith, occurrences-push_back i ys x)

pub sub_sub : (b a c : ℤ) → b -ℤ a -ℤ c ≡ b -ℤ (a +ℤ c)
sub_sub b a c = omega int_laws

pub take-Progressed :
    (e : Env) (s s' : State) (x : ProgramReleaseSchedule) (xs xs' : List ProgramReleaseSchedule)
    (p p' : Progress) (ps : List PayoutRecord) (vs : List Event)
    → p.released_count + 1 ≤ max_batch_size
    → is_releasable e.timestamp x s ≡ true
    → Progressed e
        (record s {
          transfers =
              sending p.program.token_address e.current_contract_address
                (payout_record x.recipient x.amount e.timestamp)
              ∷ s.transfers;
          events = vs;
        })
        s'
        xs
        xs'
        (advanced p x (p.program.remaining_balance -ℤ x.amount) e.timestamp)
        p'
        ps
    → Progressed e s s'
        (x ∷ xs)
        (released_schedule x e.timestamp e.current_contract_address ∷ xs')
        p
        p'
        (payout_record x.recipient x.amount e.timestamp ∷ ps)
take-Progressed e s s' x xs xs' p p' ps vs room may q = record {
  paid =
      q.paid
      ∙ rw
          (
            sub_sub p.program.remaining_balance x.amount (total ps),
            append_assoc_one p.program.payout_history
                (payout_record x.recipient x.amount e.timestamp) ps,
          )
          refl;
  sent = q.sent;
  counted = ground (arith, q.counted);
  bounded = λ h. q.bounded room;
  same_ids = ap (λ (is : List ℕ). x.schedule_id ∷ is) q.same_ids;
  once = λ i. ground (
    arith,
    is_releasable-unreleased e.timestamp x s may,
    q.once i,
    occurrences-push_back i p.history (release_entry x e.timestamp automatic),
  );
  chosen = (inr (may, refl), AllChosen-quiet e s _ vs xs xs' q.chosen);
  paid_for =
      rw
        (newly_marked x e.timestamp e.current_contract_address xs xs'
          (is_releasable-unreleased e.timestamp x s may))
        (ap (λ (qs : List PayoutRecord). payout_record x.recipient x.amount e.timestamp ∷ qs)
          q.paid_for);
  logged =
      rw
        (newly_marked x e.timestamp e.current_contract_address xs xs'
          (is_releasable-unreleased e.timestamp x s may))
        (q.logged
          ∙ append_assoc_one p.history (release_entry x e.timestamp automatic)
              (entries_of e.timestamp (newly_released xs xs')));
  positive = λ h. ((h.0, (q.positive h.1).0), (h.0, (q.positive h.1).1));
  complete = λ few. (
    released-not_releasable e.timestamp x e.timestamp e.current_contract_address s,
    none_releasable-quiet e s _ vs xs' (q.complete few),
  );
}
