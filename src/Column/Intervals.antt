-- ===== src/Column/Intervals.antt =====
-- rows.go: that the numbers which `Next` computes for the two interval types do not wrap around.
use go_oci.Prelude.{ℕ, ◌≡◌, ◌+◌, ◌*◌, ◌<◌, ◌≤◌, ◌^◌, refl, ap, ◌∙◌, arith}
use go_oci.Prelude.Int.{
  ℤ, pos, negsuc, pos_part, neg_part, sub_ℕ, ◌+ℤ◌, ◌*ℤ◌, wrap64, signed, residue,
}
use native.Mathlib.Nat.{mul-le-mul_right}
use go_oci.Column.Fetch.{
  Cell, nanoseconds, month_count, times64, plus64, column_value, switch_value, if_success, integer,
}
use go_oci.Oci.{Sqlt}

-- The absolute value is at most `n`.
abbrev pub AtMost : ℕ → ℤ → Type 0
AtMost n a = (pos_part a ≤ n) × (neg_part a ≤ n)

wrap64-AtMost : (n : ℕ) (a : ℤ) → n < 2 ^ 63 → AtMost n a → wrap64 a ≡ a
unfolding wrap64 signed residue
wrap64-AtMost n (pos k) small h = ground arith
wrap64-AtMost n (negsuc k) small h = ground arith

sub_ℕ-AtMost : (n x y : ℕ) → x ≤ n → y ≤ n → AtMost n (sub_ℕ x y)
sub_ℕ-AtMost n x y h g = ground arith

-- A computed integer is the exact one, whose absolute value is at most `n`.
abbrev Exact : ℕ → ℤ → ℤ → Type 0
Exact n x a = (x ≡ a) × AtMost n a

plus64-Exact :
    (n m : ℕ) (x y a b : ℤ)
    → n + m < 2 ^ 63
    → Exact n x a
    → Exact m y b
    → Exact (n + m) (plus64 x y) (a +ℤ b)
unfolding ◌+ℤ◌
plus64-Exact n m x y a b small (e, (h, h')) (e', (g, g')) =
    (ap (λ z. plus64 z y) e ∙ ap (plus64 a) e' ∙ wrap64-AtMost (n + m) (a +ℤ b) small bound, bound)
  where
    bound : AtMost (n + m) (a +ℤ b)
    bound =
        sub_ℕ-AtMost (n + m) (pos_part a + pos_part b) (neg_part a + neg_part b) (omega arith)
          (omega arith)

times64-Exact :
    (n c : ℕ) (x a : ℤ) → n * c < 2 ^ 63 → Exact n x a → Exact (n * c) (times64 x c) (a *ℤ pos c)
unfolding ◌*ℤ◌
times64-Exact n c x a small (e, (h, h')) =
    (ap (λ y. times64 y c) e ∙ wrap64-AtMost (n * c) (a *ℤ pos c) small bound, bound)
  where
    bound : AtMost (n * c) (a *ℤ pos c)
    bound =
        sub_ℕ-AtMost (n * c) (pos_part a * c + neg_part a * 0) (pos_part a * 0 + neg_part a * c)
          (omega (arith, mul-le-mul_right c h)) (omega (arith, mul-le-mul_right c h'))

-- The ranges of the parts of an interval of days, up to as many days as fit.
pub record InRange {Time : Type 0} (c : Cell Time) : Type 0 where
  pub days : AtMost 106_750 c.days
  pub hours : AtMost 23 c.hours
  pub minutes : AtMost 59 c.minutes
  pub seconds : AtMost 59 c.seconds
  pub frac_seconds : AtMost 999_999_999 c.frac_seconds

-- The exact length of an interval, in nanoseconds, and the exact number of its months.
abbrev pub span : {Time : Type 0} → Cell Time → ℤ
span c =
    c.days *ℤ pos 24 *ℤ pos 3_600_000_000_000
    +ℤ c.hours *ℤ pos 3_600_000_000_000
    +ℤ c.minutes *ℤ pos 60_000_000_000
    +ℤ c.seconds *ℤ pos 1_000_000_000
    +ℤ c.frac_seconds

abbrev pub months_span : {Time : Type 0} → Cell Time → ℤ
months_span c = c.years *ℤ pos 12 +ℤ c.months

nanoseconds-exact : {Time : Type 0} (c : Cell Time) → InRange c → nanoseconds c ≡ span c
unfolding nanoseconds
nanoseconds-exact c r =
    let days =
      times64-Exact (106_750 * 24) 3_600_000_000_000 _ _ (omega arith)
        (times64-Exact 106_750 24 _ _ (omega arith) (refl, r.days)) in
    let hours = times64-Exact 23 3_600_000_000_000 _ _ (omega arith) (refl, r.hours) in
    let minutes = times64-Exact 59 60_000_000_000 _ _ (omega arith) (refl, r.minutes) in
    let seconds = times64-Exact 59 1_000_000_000 _ _ (omega arith) (refl, r.seconds) in
    let sum₁ = plus64-Exact _ _ _ _ _ _ (omega arith) days hours in
    let sum₂ = plus64-Exact _ _ _ _ _ _ (omega arith) sum₁ minutes in
    let sum₃ = plus64-Exact _ _ _ _ _ _ (omega arith) sum₂ seconds in
    (plus64-Exact _ _ _ _ _ _ (omega arith) sum₃ (refl, r.frac_seconds)).0

-- An `sb4`.
pub record YearRange {Time : Type 0} (c : Cell Time) : Type 0 where
  pub years : AtMost (2 ^ 31) c.years
  pub months : AtMost (2 ^ 31) c.months

month_count-exact : {Time : Type 0} (c : Cell Time) → YearRange c → month_count c ≡ months_span c
unfolding month_count
month_count-exact c r =
    (plus64-Exact _ _ _ _ _ _ (omega arith)
      (times64-Exact (2 ^ 31) 12 _ _ (omega arith) (refl, r.years)) (refl, r.months)).0

-- A cell that is not NULL and holds an interval of at most 106,750 days with hours, minutes,
-- seconds and nanoseconds in their ranges is returned as its exact length in nanoseconds, and one
-- that holds an interval of years and months, each an `sb4`, as its exact number of months; where
-- OCI does not return the parts of the interval, `Next` returns OCI's error.
pub column_value-interval :
    {Time : Type 0} (c : Cell Time)
    → c.indicator ≡ pos 0
    → InRange c
    → YearRange c
    → (column_value Sqlt.interval_ds c ≡ if_success c.interval_result (integer (span c)))
      × (column_value Sqlt.interval_ym c ≡ if_success c.interval_result (integer (months_span c)))
unfolding column_value switch_value
column_value-interval c here r y =
    (rw (nanoseconds-exact c r, here), rw (month_count-exact c y, here))
