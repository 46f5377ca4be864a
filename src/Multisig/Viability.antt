-- ===== src/Multisig/Viability.antt =====
-- The multisig of multisig.rs stays usable: distinct signers, and no more asked for than there are.
use grainlify_stellar_contra.Base.{
  ℕ, suc, ◌≡◌, ◌≤◌, ◌<◌, refl, true, false, Option, some, List, [], ◌∷◌, arith, inl, inr,
  Bool-cases, length, contains, push_back, length-append, IsDistinct, contains-push_back,
  push_back-IsDistinct, ◌==◌, unwrap_or,
}
use grainlify_stellar_contra.Base.Host.{Address, Env, ok, Outcome-cases}
use grainlify_stellar_contra.Multisig.State.{State, MultiSigConfig}
use grainlify_stellar_contra.Multisig.Operations.{
  has_duplicate, init, get_config, without, remove_signer, add_signer, remove_each, add_each,
  rotate_signers,
}

-- Distinct signers, of whom the threshold asks for at least one and for no more than there are.
pub record IsViable (c : MultiSigConfig) : Type 0 where
  pub distinct : IsDistinct c.signers
  pub positive : 0 < c.threshold
  pub reachable : c.threshold ≤ length c.signers

contains-without :
    (a b : Address) (xs : List Address) → contains xs b ≡ false → contains (without a xs) b ≡ false
unfolding without
contains-without a b [] h = refl
contains-without a b (x ∷ xs) h = ground (arith, contains-without a b xs (ground arith))

without-IsDistinct : (a : Address) (xs : List Address) → IsDistinct xs → IsDistinct (without a xs)
unfolding without
without-IsDistinct a [] d = tt
without-IsDistinct a (x ∷ xs) d =
    ground (arith, without-IsDistinct a xs d.1, contains-without a x xs d.0)

without_absent : (a : Address) (xs : List Address) → contains xs a ≡ false → without a xs ≡ xs
unfolding without
without_absent a [] h = refl
without_absent a (x ∷ xs) h = ground (arith, without_absent a xs (ground arith))

-- Removing a signer leaves one less.
length-without :
    (a : Address) (xs : List Address)
    → IsDistinct xs
    → contains xs a ≡ true
    → suc (length (without a xs)) ≡ length xs
unfolding without
length-without a [] d h = absurd (ground arith)
length-without a (x ∷ xs) d h = elim (Bool-cases (x == a)) [
  | inl here ↦ let gone = without_absent a xs (ground arith) in ground arith
  | inr there ↦ ground (arith, length-without a xs d.1 (ground arith))
]

has_duplicate-fresh :
    (seen xs : List Address) (b : Address)
    → has_duplicate seen xs ≡ false
    → contains seen b ≡ true
    → contains xs b ≡ false
unfolding has_duplicate
has_duplicate-fresh seen [] b h k = refl
has_duplicate-fresh seen (x ∷ xs) b h k = ground (
  arith,
  has_duplicate-fresh (push_back seen x) xs b (ground arith)
      (ground (arith, contains-push_back seen b x)),
)

has_duplicate-IsDistinct : (seen xs : List Address) → has_duplicate seen xs ≡ false → IsDistinct xs
unfolding has_duplicate
has_duplicate-IsDistinct seen [] h = tt
has_duplicate-IsDistinct seen (x ∷ xs) h = (
  has_duplicate-fresh (push_back seen x) xs x (ground arith)
      (ground (arith, contains-push_back seen x x)),
  has_duplicate-IsDistinct (push_back seen x) xs (ground arith),
)

-- What `init` sets up is viable.
pub init-IsViable :
    (e : Env) (s s' : State) (signers : List Address) (threshold : ℕ)
    → init signers threshold e s ≡ ok (tt, s')
    → (c : MultiSigConfig) × (s'.config ≡ some c) × IsViable c
unfolding init
init-IsViable e s s' signers threshold h = (
  record { signers = signers; threshold = threshold },
  ground arith,
  record {
    distinct = has_duplicate-IsDistinct [] signers (ground arith);
    positive = ground arith;
    reachable = ground arith;
  },
)

-- `remove_signer` keeps the multisig viable, with one signer less.
pub remove_signer-IsViable :
    (e : Env) (s s' : State) (caller a : Address) {c : MultiSigConfig}
    → s.config ≡ some c
    → IsViable c
    → remove_signer caller a e s ≡ ok (tt, s')
    → (c' : MultiSigConfig) × (s'.config ≡ some c')
      × IsViable c'
      × (suc (length c'.signers) ≡ length c.signers)
      × (c'.threshold ≡ c.threshold)
unfolding remove_signer get_config
remove_signer-IsViable e s s' caller a {c} k v h =
    let fewer = length-without a c.signers v.distinct (ground arith) in
    (
      record c { signers = without a c.signers },
      ground arith,
      record {
        distinct = without-IsDistinct a c.signers v.distinct;
        positive = v.positive;
        reachable = ground (arith, fewer);
      },
      fewer,
      refl,
    )

-- So does `add_signer`, with one signer more.
pub add_signer-IsViable :
    (e : Env) (s s' : State) (caller a : Address) {c : MultiSigConfig}
    → s.config ≡ some c
    → IsViable c
    → add_signer caller a e s ≡ ok (tt, s')
    → (c' : MultiSigConfig) × (s'.config ≡ some c')
      × IsViable c'
      × (length c'.signers ≡ suc (length c.signers))
      × (c'.threshold ≡ c.threshold)
unfolding add_signer get_config
add_signer-IsViable e s s' caller a {c} k v h =
    let more = length-append c.signers (a ∷ []) in
    (
      record c { signers = push_back c.signers a },
      ground arith,
      record {
        distinct = push_back-IsDistinct c.signers a v.distinct (ground arith);
        positive = v.positive;
        reachable = omega (arith, more, v.reachable);
      },
      omega (arith, more),
      refl,
    )

remove_each-IsDistinct :
    (e : Env) (s s' : State) (signers as_ : List Address) {left : List Address}
    → IsDistinct signers
    → remove_each signers as_ e s ≡ ok (left, s')
    → (s' ≡ s) × IsDistinct left
unfolding remove_each
remove_each-IsDistinct e s s' signers [] {left} d h =
    let same : signers ≡ left = cc in (cc, rw (← same) d)
remove_each-IsDistinct e s s' signers (a ∷ as_) d h =
    remove_each-IsDistinct e s s' (without a signers) as_ (without-IsDistinct a signers d)
      (ground arith)

add_each-IsDistinct :
    (e : Env) (s s' : State) (signers as_ : List Address) {all : List Address}
    → IsDistinct signers
    → add_each signers as_ e s ≡ ok (all, s')
    → (s' ≡ s) × IsDistinct all
unfolding add_each
add_each-IsDistinct e s s' signers [] {all} d h =
    let same : signers ≡ all = cc in (cc, rw (← same) d)
add_each-IsDistinct e s s' signers (a ∷ as_) d h =
    add_each-IsDistinct e s s' (push_back signers a) as_
      (push_back-IsDistinct signers a d (ground arith)) (ground arith)

-- And `rotate_signers`, whatever it adds, removes and changes.
pub rotate_signers-IsViable :
    (e : Env) (s s' : State) (caller : Address) (added removed : List Address)
    (new_threshold : Option ℕ) {c : MultiSigConfig}
    → s.config ≡ some c
    → IsViable c
    → rotate_signers caller added removed new_threshold e s ≡ ok (tt, s')
    → (c' : MultiSigConfig) × (s'.config ≡ some c') × IsViable c'
unfolding rotate_signers get_config
rotate_signers-IsViable e s s' caller added removed new_threshold {c} k v h =
    elim (Outcome-cases (remove_each c.signers removed e s)) [
      | inr (inl (x, failed)) ↦ absurd (ground arith)
      | inr (inr (x, failed)) ↦ absurd (ground arith)
      | inl (fewer, removes) ↦
          let (same, d) = remove_each-IsDistinct e s fewer.1 c.signers removed v.distinct removes in
          elim (Outcome-cases (add_each fewer.0 added e s)) [
            | inr (inl (x, failed)) ↦ absurd (ground arith)
            | inr (inr (x, failed)) ↦ absurd (ground arith)
            | inl (all, adds) ↦
                let (same', d') = add_each-IsDistinct e s all.1 fewer.0 added d adds in
                (
                  record { signers = all.0; threshold = unwrap_or new_threshold c.threshold },
                  ground arith,
                  record { distinct = d'; positive = ground arith; reachable = ground arith },
                )
          ]
    ]
