-- ===== src/Program/Schedules/Marked.antt =====
-- The schedules that a call on release schedules of program-escrow/src/lib.rs marks as released, and
-- the payouts and the entries of the history that belong to them.
use grainlify_stellar_contra.Base.{
  ℕ, ◌+◌, ◌≡◌, refl, false, not, ◌&&◌, List, [], ◌∷◌, map, length, arith, if◌then◌else◌, Bool-cases,
  inl, inr,
}
use grainlify_stellar_contra.Base.Host.{Address}
use grainlify_stellar_contra.Program.State.{
  ProgramReleaseSchedule, ProgramReleaseHistory, PayoutRecord, automatic,
}
use grainlify_stellar_contra.Program.Payout.{payout_record}
use grainlify_stellar_contra.Program.Schedules.{released_schedule, release_entry}

-- The schedules, as they were, that are marked as released in `xs'` and not in `xs`.
abbrev pub newly_released : (xs xs' : List ProgramReleaseSchedule) → List ProgramReleaseSchedule
newly_released [] xs' = []
newly_released (x ∷ xs) [] = []
newly_released (x ∷ xs) (y ∷ ys) =
    if y.released && not x.released then x ∷ newly_released xs ys else newly_released xs ys

abbrev pub payouts_of : ℕ → List ProgramReleaseSchedule → List PayoutRecord
payouts_of time = map (λ x. payout_record x.recipient x.amount time)

abbrev pub entries_of : ℕ → List ProgramReleaseSchedule → List ProgramReleaseHistory
entries_of time = map (λ x. release_entry x time automatic)

pub newly_same :
    (x : ProgramReleaseSchedule) (xs ys : List ProgramReleaseSchedule)
    → newly_released (x ∷ xs) (x ∷ ys) ≡ newly_released xs ys
newly_same x xs ys = elim (Bool-cases x.released) [
  | inl yes_ ↦ rw yes_ refl
  | inr no_ ↦ rw no_ refl
]

pub newly_marked :
    (x : ProgramReleaseSchedule) (n : ℕ) (a : Address) (xs ys : List ProgramReleaseSchedule)
    → x.released ≡ false
    → newly_released (x ∷ xs) (released_schedule x n a ∷ ys) ≡ x ∷ newly_released xs ys
newly_marked x n a xs ys h = rw h refl

length-payouts_of :
    (time : ℕ) (xs : List ProgramReleaseSchedule) → length (payouts_of time xs) ≡ length xs
length-payouts_of time [] = refl
length-payouts_of time (x ∷ xs) = ground (arith, length-payouts_of time xs)

pub length-newly :
    (time : ℕ) (xs : List ProgramReleaseSchedule) (ps : List PayoutRecord)
    → ps ≡ payouts_of time xs
    → 0 + length ps ≡ length xs
length-newly time xs ps h = rw h (let same = length-payouts_of time xs in omega arith)
