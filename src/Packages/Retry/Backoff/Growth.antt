-- ===== src/Packages/Retry/Backoff/Growth.antt =====
-- How the delays of `Exponential` grow: packages/go/retry/backoff.go.
use careeria.Base.{
  ◌≡◌, refl, sym, ap, ℕ, ◌-◌, ◌*◌, ◌/◌, ◌%◌, ◌^◌, ◌≤◌, ◌<◌, true, false, ◌||◌, if◌then◌else◌, ltb,
  leb, ◌==◌, arith, Bool-cases, inl, inr, ltb→lt, ltb→le,
}
use careeria.Base.Int.{ℤ, pos}
use careeria.Packages.Retry.Backoff.{
  max_int64, wrap_int64, positive_duration, capped, cap_duration, exponential,
}
use careeria.Base.Guards.{branched}
use native.Mathlib.Nat.{
  mod-eq_of_lt, div-lt_iff_lt-mul, pow-le-pow_right, mul-le-mul_left, mul-le-mul_right,
  div-mul-le_self, zero-mul, one-le-pow,
}

abbrev limited : ℕ → ℕ
limited n = if leb n max_int64 then n else max_int64

-- The delay that the package means: the base, doubled with each further attempt and kept below the
-- largest `int64` and below `max`, where there is one.
abbrev pub doubled : ℕ → ℕ → ℕ → ℕ
doubled base max attempt = capped (limited (base * 2 ^ (attempt - 1))) max

limited_small : (n : ℕ) → n ≤ max_int64 → limited n ≡ n
limited_small n h = ground (arith, h)

limited_large : (n : ℕ) → max_int64 < n → limited n ≡ max_int64
limited_large n h = ground (arith, h)

wrap_int64_small : (n : ℕ) → n ≤ max_int64 → wrap_int64 n ≡ pos n
unfolding wrap_int64
wrap_int64_small n h =
    let small : n % 2 ^ 64 ≡ n = mod-eq_of_lt (omega (arith, h)) in rw small (ground (arith, h))

power_pos : (p : ℕ) → 0 < 2 ^ p
power_pos p = one-le-pow p 2 (omega arith)

-- From the second to the 62nd attempt, the code's delay is the delay meant, although it computes
-- with machine integers.
pub exponential-doubled :
    (base max attempt : ℕ)
    → 1 < attempt
    → attempt ≤ 62
    → exponential (pos base) (pos max) attempt ≡ pos (doubled base max attempt)
unfolding exponential positive_duration cap_duration
exponential-doubled base max attempt more few =
    branched P (leb attempt 1 || base == 0) _ _
      (λ zero_base.
        (let none_left : base * 2 ^ (attempt - 1) ≡ 0 = rw (base_zero zero_base) (zero-mul _) in
          rw (none_left, base_zero zero_base) (ground arith)))
      (λ counts.
        branched P (leb 62 (attempt - 1)) _ _ (λ late. absurd (too_late late))
          (λ soon.
            branched P (ltb (max_int64 / 2 ^ (attempt - 1)) base) _ _
              (λ large.
                ap (λ n. pos (capped n max))
                  (sym (limited_large (base * 2 ^ (attempt - 1)) (above large))))
              (λ small.
                rw
                  (
                    wrap_int64_small (base * 2 ^ (attempt - 1)) (below small),
                    limited_small (base * 2 ^ (attempt - 1)) (below small),
                  )
                  refl)))
  where
    P : ℤ → Type 0
    P r = r ≡ pos (doubled base max attempt)

    base_zero : (leb attempt 1 || base == 0) ≡ true → base ≡ 0
    base_zero h = ground (arith, h, more)

    too_late : leb 62 (attempt - 1) ≡ true → ⊥
    too_late h = ground (arith, h, few)

    above : ltb (max_int64 / 2 ^ (attempt - 1)) base ≡ true → max_int64 < base * 2 ^ (attempt - 1)
    above h = (div-lt_iff_lt-mul (power_pos (attempt - 1))).0 (ltb→lt _ _ h)

    below : ltb (max_int64 / 2 ^ (attempt - 1)) base ≡ false → base * 2 ^ (attempt - 1) ≤ max_int64
    below h = omega (
      arith,
      mul-le-mul_right (2 ^ (attempt - 1)) (ltb→le (max_int64 / 2 ^ (attempt - 1)) base h),
      div-mul-le_self max_int64 (2 ^ (attempt - 1)),
    )

doubled_mono : (base max a b : ℕ) → a ≤ b → doubled base max a ≤ doubled base max b
doubled_mono base max a b h =
    let steps : 2 ^ (a - 1) ≤ 2 ^ (b - 1) =
      pow-le-pow_right {n = 2} (omega arith) {i = a - 1} {j = b - 1} (omega (arith, h)) in
    clamped (base * 2 ^ (a - 1)) (base * 2 ^ (b - 1)) (mul-le-mul_left base steps)
  where
    clamped : (x y : ℕ) → x ≤ y → capped (limited x) max ≤ capped (limited y) max
    clamped x y h = ground (arith, h)

-- The delays grow: from the second to the 62nd attempt, a later one never waits for less.
exponential_mono :
    (base max a b : ℕ)
    → 1 < a
    → a ≤ b
    → b ≤ 62
    → positive_duration (exponential (pos base) (pos max) a)
      ≤ positive_duration (exponential (pos base) (pos max) b)
unfolding positive_duration
exponential_mono base max a b more order few =
    rw
      (
        exponential-doubled base max a more (omega (arith, order, few)),
        exponential-doubled base max b (omega (arith, more, order)) few,
      )
      (doubled_mono base max a b order)

-- From the 63rd attempt on, the delay is the base again, capped: whatever has been reached is lost.
exponential_late :
    (base max attempt : ℕ)
    → 63 ≤ attempt
    → exponential (pos base) (pos max) attempt ≡ pos (if base == 0 then 0 else capped base max)
unfolding exponential positive_duration cap_duration
exponential_late base max attempt late = ground (arith, late)

-- Where there is a maximum, no attempt after the first waits for longer.
exponential-le :
    (base max attempt : ℕ)
    → 1 < attempt
    → 0 < max
    → positive_duration (exponential (pos base) (pos max) attempt) ≤ max
unfolding positive_duration
exponential-le base max attempt more some_max = elim (Bool-cases (leb attempt 62)) [
  | inl few ↦
      rw (exponential-doubled base max attempt more (ground (arith, few)))
        (capped-le (limited (base * 2 ^ (attempt - 1))))
  | inr many ↦ rw (exponential_late base max attempt (ground (arith, many))) (ground arith)
]
  where
    capped-le : (n : ℕ) → capped n max ≤ max
    capped-le n = ground (arith, some_max)

-- The delays do not grow for ever: with a positive base below a maximum that an `int64` can hold,
-- every attempt from the 63rd on waits for the base alone, which is less than the 62nd waits for.
pub exponential_drops :
    (base max attempt : ℕ)
    → 0 < base
    → base < max
    → max ≤ max_int64
    → 63 ≤ attempt
    → (exponential (pos base) (pos max) attempt ≡ pos base)
      × (positive_duration (exponential (pos base) (pos max) attempt)
          < positive_duration (exponential (pos base) (pos max) 62))
unfolding positive_duration
exponential_drops base max attempt some_base above fits late =
    rw
      (
        exponential_late base max attempt late,
        exponential-doubled base max 62 (omega arith) (omega arith),
      )
      (ap pos (ground (arith, some_base, above)), ground (arith, some_base, above, fits))
