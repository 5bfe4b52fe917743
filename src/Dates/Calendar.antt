-- ===== src/Dates/Calendar.antt =====
-- The calendar: dates lie in their year, and order by day as they order by text.
use scope_is_team_management.Base.{
  ℕ, zero, suc, ◌+◌, ◌-◌, ◌<◌, ◌≤◌, ◌≡◌, ◌⊎◌, arith, Bool-cases, inl, inr, refl,
}
use scope_is_team_management.Dates.{
  Date, is_leap, year_length, month_length, days_in_months, days_before_year, day_number, key,
  IsDate,
}

pub Nat-order : (a b : ℕ) → (a < b) ⊎ ((a ≡ b) ⊎ (b < a))
Nat-order a b = ground arith

pub years_order : (y z : ℕ) → y ≤ z → days_before_year y ≤ days_before_year z
unfolding days_before_year
years_order y zero h = grind arith
years_order y (suc z) h = grind (arith, years_order y z)

months_order : (y i j : ℕ) → i ≤ j → days_in_months y i ≤ days_in_months y j
unfolding days_in_months
months_order y i zero h = grind arith
months_order y i (suc j) h = elim (Nat-order i (suc j)) [
  | inl less ↦ omega (arith, months_order y i j (omega (arith, less)))
  | inr (inl same) ↦ rw same (omega arith)
  | inr (inr more) ↦ absurd (omega (arith, h, more))
]

pub whole_year : (y : ℕ) → days_in_months y 12 ≡ year_length y
unfolding days_in_months month_length
whole_year y = elim (Bool-cases (is_leap y)) [
  | inl leap ↦ rw leap refl
  | inr common ↦ rw common refl
]

-- The days of the earlier months and a month's own days fit before any later month.
pub month_length-le : (y m : ℕ) → month_length y m ≤ 31
unfolding month_length
month_length-le y m = ground arith

month_fits :
    (y m n : ℕ) → 1 ≤ m → m ≤ n → days_in_months y (m - 1) + month_length y m ≤ days_in_months y n
unfolding days_in_months
month_fits y zero n h k = absurd (omega (arith, h))
month_fits y (suc m) n h k = grind (arith, months_order y (suc m) n k)

-- A date lies in its year.
pub in_year :
    (d : Date)
    → IsDate d
    → (days_before_year d.year < day_number d) × (day_number d ≤ days_before_year (suc d.year))
unfolding day_number days_before_year
in_year d (m, m', n, n') =
    omega (arith, n, n', whole_year d.year, month_fits d.year d.month 12 m m')

same_year :
    (y : ℕ) (a b : Date)
    → a.year ≡ y
    → b.year ≡ y
    → IsDate a
    → IsDate b
    → key a < key b
    → day_number a < day_number b
unfolding day_number
same_year y a b in_a in_b (m, m', n, n') (p, p', q, q') h = elim (Nat-order a.month b.month) [
  | inl earlier ↦
      rw (in_a, in_b)
        (omega
          (arith, q, rw in_a at n', month_fits y a.month (b.month - 1) m (omega (arith, earlier))))
  | inr (inl same) ↦ rw (in_a, in_b, same) (omega (arith, h, in_a, in_b, same))
  | inr (inr later) ↦
      absurd (omega (arith, h, in_a, in_b, later, q', month_length-le b.year b.month))
]

-- A date with an earlier text has a smaller day number.
pub day_number_mono :
    (a b : Date) → IsDate a → IsDate b → key a < key b → day_number a < day_number b
day_number_mono a b is_a is_b h = elim (Nat-order a.year b.year) [
  | inl earlier ↦
      omega (arith, (in_year a is_a).1, (in_year b is_b).0, years_order (suc a.year) b.year earlier)
  | inr (inl same) ↦ same_year b.year a b same refl is_a is_b h
  | inr (inr later) ↦
      absurd (omega (arith, h, later, is_a.0, is_b.1, is_b.3, month_length-le b.year b.month))
]

same_day :
    (y m : ℕ) (a b : Date)
    → a.year ≡ y
    → b.year ≡ y
    → a.month ≡ m
    → b.month ≡ m
    → a.day ≡ b.day
    → day_number a ≡ day_number b
unfolding day_number
same_day y m a b e e' f f' g = rw (e, e', f, f', g) refl

-- A date whose text is not later has no larger day number.
pub day_number_order :
    (a b : Date) → IsDate a → IsDate b → key a ≤ key b → day_number a ≤ day_number b
day_number_order a b is_a is_b h = elim (Nat-order (key a) (key b)) [
  | inl less ↦ omega (arith, day_number_mono a b is_a is_b less)
  | inr (inl same) ↦
      let short_a = month_length-le a.year a.month in
      let short_b = month_length-le b.year b.month in
      omega (
        arith,
        same_day b.year b.month a b (omega (arith, same, is_a, is_b, short_a, short_b)) refl
            (omega (arith, same, is_a, is_b, short_a, short_b)) refl
            (omega (arith, same, is_a, is_b, short_a, short_b)),
      )
  | inr (inr more) ↦ absurd (omega (arith, h, more))
]
