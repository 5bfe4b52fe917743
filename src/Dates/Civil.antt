-- ===== src/Dates/Civil.antt =====
-- The date of a day number, as `new Date(ms).toISOString().slice(0, 10)` gives it, and the proof
-- that it is the calendar's inverse of `day_number`.
use scope_is_team_management.Base.{
  ℕ, zero, suc, ◌+◌, ◌*◌, ◌-◌, ◌/◌, ◌≤◌, ◌<◌, ◌≡◌, inl, inr, arith, refl, leb, true, false,
  Bool-cases, ap,
}
use scope_is_team_management.Dates.{
  Date, year_length, month_length, days_in_months, days_before_year, day_number, key, IsDate,
}
use scope_is_team_management.Dates.Calendar.{
  Nat-order, day_number_mono, whole_year, in_year, month_length-le,
}

-- The year of the n-th day from the start of a year, and the day of that year; the count bounds
-- the number of years to go.
unfoldable pub year_from : ℕ → ℕ → ℕ → ℕ × ℕ
year_from zero y n = (y, n)
year_from (suc count) y n = elim (leb n (year_length y)) [
  | true ↦ (y, n)
  | false ↦ year_from count (suc y) (n - year_length y)
]

unfoldable pub month_from : ℕ → ℕ → ℕ → ℕ → ℕ × ℕ
month_from zero y m n = (m, n)
month_from (suc count) y m n = elim (leb n (month_length y m)) [
  | true ↦ (m, n)
  | false ↦ month_from count y (suc m) (n - month_length y m)
]

unfoldable pub date_of : ℕ → Date
unfolding year_from month_from
date_of n =
    let year_day = year_from (n / 365) 0 n in
    let month_day = month_from 11 year_day.0 1 year_day.1 in
    record { year = year_day.0; month = month_day.0; day = month_day.1 }

year_length-ge : (y : ℕ) → 365 ≤ year_length y
year_length-ge y = ground arith

year_from_lem :
    (count y n : ℕ)
    → 1 ≤ n
    → n ≤ 365 * suc count
    → (days_before_year (year_from count y n).0 + (year_from count y n).1 ≡ days_before_year y + n)
      × (1 ≤ (year_from count y n).1)
      × ((year_from count y n).1 ≤ year_length (year_from count y n).0)
unfolding year_from days_before_year
year_from_lem zero y n h k = (refl, h, omega (arith, k, year_length-ge y))
year_from_lem (suc count) y n h k = elim (Bool-cases (leb n (year_length y))) [
  | inl here ↦ rw (here, year_from) (refl, h, ground arith)
  | inr later ↦
      let long = year_length-ge y in
      let more : year_length y < n = ground arith in
      let (e, low, high) =
        year_from_lem count (suc y) (n - year_length y) (omega arith) (omega arith) in
      rw (later, year_from) (omega arith, low, high)
]

month_from_lem :
    (count y m n last : ℕ)
    → 1 ≤ n
    → last ≡ suc m + count
    → n + days_in_months y m ≤ days_in_months y last
    → (k : ℕ) × ((month_from count y (suc m) n).0 ≡ suc k)
      × (days_in_months y k + (month_from count y (suc m) n).1 ≡ days_in_months y m + n)
      × (1 ≤ (month_from count y (suc m) n).1)
      × ((month_from count y (suc m) n).1 ≤ month_length y (suc k))
      × (suc k ≤ last)
unfolding month_from days_in_months
month_from_lem zero y m n last h e fits =
    let end : last ≡ suc m = omega (arith, e) in
    (m, refl, refl, h, omega (arith, rw end at fits), omega (arith, end))
month_from_lem (suc count) y m n last h e fits =
    elim (Bool-cases (leb n (month_length y (suc m)))) [
      | inl here ↦ rw (here, month_from) (m, refl, refl, h, ground arith, omega (arith, e))
      | inr later ↦
          let more : month_length y (suc m) < n = ground arith in
          let (k, is_k, sum, low, high, in_year) =
            month_from_lem count y (suc m) (n - month_length y (suc m)) last (omega arith)
              (omega (arith, e)) (omega (arith, fits, more)) in
          rw (later, month_from) (k, is_k, omega (arith, sum, more), low, high, in_year)
    ]

-- The date of a day number is a date of the calendar, and has that day number.
pub date_of_lem : (n : ℕ) → 1 ≤ n → IsDate (date_of n) × (day_number (date_of n) ≡ n)
unfolding date_of day_number days_in_months days_before_year
date_of_lem n h =
    let (e, low, high) = year_from_lem (n / 365) 0 n h (omega arith) in
    let year_day = year_from (n / 365) 0 n in
    let (k, is_k, e', low', high', last) =
      month_from_lem 11 year_day.0 0 year_day.1 12 low refl
        (omega (arith, whole_year year_day.0, high)) in
    let before_it : (date_of n).month - 1 ≡ k = omega (arith, is_k) in
    let months : days_in_months year_day.0 ((date_of n).month - 1) ≡ days_in_months year_day.0 k =
      ap (days_in_months year_day.0) before_it in
    (
      (omega (arith, is_k), omega (arith, is_k, last), low', rw is_k high'),
      omega (arith, e, e', months),
    )

-- Dates with the same day number are the same.
pub day_number-injective : (a b : Date) → IsDate a → IsDate b → day_number a ≡ day_number b → a ≡ b
day_number-injective a b is_a is_b h = elim (Nat-order (key a) (key b)) [
  | inl less ↦ absurd (omega (arith, h, day_number_mono a b is_a is_b less))
  | inr (inl same) ↦
      let short_a = month_length-le a.year a.month in
      let short_b = month_length-le b.year b.month in
      let years : a.year ≡ b.year = omega (arith, same, is_a, is_b, short_a, short_b) in
      let months : a.month ≡ b.month = omega (arith, same, is_a, is_b, short_a, short_b) in
      let days : a.day ≡ b.day = omega (arith, same, is_a, is_b, short_a, short_b) in cc
  | inr (inr more) ↦ absurd (omega (arith, h, day_number_mono b a is_b is_a more))
]

pub day_number-pos : (d : Date) → IsDate d → 1 ≤ day_number d
day_number-pos d is_d = omega (arith, (in_year d is_d).0)

pub date_of-day_number : (d : Date) → IsDate d → date_of (day_number d) ≡ d
date_of-day_number d is_d =
    let (is_date, same) = date_of_lem (day_number d) (day_number-pos d is_d) in
    day_number-injective (date_of (day_number d)) d is_date is_d same
