-- ===== src/Paging.antt =====
-- The loop that the queries of both escrows share, in program-escrow/src/lib.rs and in
-- bounty_escrow/contracts/escrow/src/lib.rs, with a reference for it: the entries that pass the
-- test, less the first `offset` of them, up to `limit`.
use grainlify_stellar_contra.Base.{
  ℕ, zero, suc, ◌+◌, ◌-◌, ◌≡◌, ◌≤◌, ◌∙◌, sym, refl, Bool, true, false, List, [], ◌∷◌, ◌++◌, leb,
  ltb, ◌==◌, if◌then◌else◌, arith, push_back, take, drop, filter, take_zero, drop_zero, drop-drop,
  append_nil, append_assoc_one, take-split, inl, inr, Bool-cases,
}

abbrev pub max_query_limit : ℕ
max_query_limit = 100

-- `limit.min(MAX_QUERY_LIMIT)`
abbrev pub capped : ℕ → ℕ
capped limit = if ltb max_query_limit limit then max_query_limit else limit

-- The loop that the queries share: the entries that pass the test, after the first `offset` of them
-- and up to `limit`, with those skipped and taken so far.
unfoldable pub scan :
    {A : Type 0} → (A → Bool) → (offset limit skipped count : ℕ) → List A → List A → List A
scan p offset limit skipped count results [] = results
scan p offset limit skipped count results (x ∷ xs) =
    if leb limit count then results else elim (p x) [
      | false ↦ scan p offset limit skipped count results xs
      | true ↦ elim (ltb skipped offset) [
        | true ↦ scan p offset limit (skipped + 1) count results xs
        | false ↦ scan p offset limit skipped (count + 1) (push_back results x) xs
      ]
    ]

abbrev pub query : {A : Type 0} → (A → Bool) → (offset limit : ℕ) → List A → List A
query p offset limit xs = scan p offset limit 0 0 [] xs

abbrev pub page : {A : Type 0} → (A → Bool) → (offset limit : ℕ) → List A → List A
page p offset limit xs = take limit (drop offset (filter p xs))

module _ {A : Type 0} (p : A → Bool) (offset limit : ℕ) where
  take_step :
      (n m : ℕ) (x : A) (xs : List A)
      → suc m ≤ n
      → take (n - m) (x ∷ xs) ≡ x ∷ take (n - (m + 1)) xs
  take_step n m x xs h = let one : n - m ≡ suc (n - (m + 1)) = omega arith in rw one refl

  drop_step :
      (n m : ℕ) (x : A) (xs : List A) → suc m ≤ n → drop (n - m) (x ∷ xs) ≡ drop (n - (m + 1)) xs
  drop_step n m x xs h = let one : n - m ≡ suc (n - (m + 1)) = omega arith in rw one refl

  scan_lem :
      (skipped count : ℕ) (results xs : List A)
      → scan p offset limit skipped count results xs
        ≡ results ++ take (limit - count) (drop (offset - skipped) (filter p xs))
  unfolding scan
  scan_lem skipped count results [] = append_nil results
  scan_lem skipped count results (x ∷ xs) = elim (Bool-cases (leb limit count)) [
    | inl full ↦
        let nothing : limit - count ≡ 0 = ground arith in
        rw
          (
            full,
            nothing,
            take_zero (drop (offset - skipped) (filter p (x ∷ xs))),
            ← append_nil results,
          )
          refl
    | inr more ↦ elim (Bool-cases (p x)) [
      | inr no_ ↦ rw (more, no_) (scan_lem skipped count results xs)
      | inl yes_ ↦ elim (Bool-cases (ltb skipped offset)) [
        | inl early ↦
            rw (more, yes_, early)
              (scan_lem (skipped + 1) count results xs
                ∙ rw (drop_step offset skipped x (filter p xs) (ground arith)) refl)
        | inr late ↦
            let all : offset - skipped ≡ 0 = ground arith in
            rw (more, yes_, late)
              (scan_lem skipped (count + 1) (push_back results x) xs
                ∙ rw
                    (
                      all,
                      drop_zero (filter p xs),
                      append_assoc_one results x (take (limit - (count + 1)) (filter p xs)),
                      take_step limit count x (filter p xs) (ground arith),
                    )
                    refl)
      ]
    ]
  ]

pub query-page :
    {A : Type 0} (p : A → Bool) (offset limit : ℕ) (xs : List A)
    → query p offset limit xs ≡ page p offset limit xs
query-page p offset limit xs =
    let whole : limit - 0 ≡ limit = omega arith in
    let first : offset - 0 ≡ offset = omega arith in
    scan_lem p offset limit 0 0 [] xs ∙ rw (whole, first) refl

pub capped_page :
    {A : Type 0} (p : A → Bool) (offset limit : ℕ) (xs : List A)
    → (if limit == 0 then [] else query p offset limit xs) ≡ page p offset limit xs
capped_page p offset zero xs = sym (take_zero (drop offset (filter p xs)))
capped_page p offset (suc n) xs =
    let some_ : (suc n == 0) ≡ false = ground arith in rw some_ (query-page p offset (suc n) xs)

-- Two pages, the second from where the first ends, are one page.
pub page_join :
    {A : Type 0} (p : A → Bool) (offset m n : ℕ) (xs : List A)
    → page p offset m xs ++ page p (offset + m) n xs ≡ page p offset (m + n) xs
page_join p offset m n xs =
    rw (← drop-drop offset m (filter p xs)) (take-split m n (drop offset (filter p xs)))
