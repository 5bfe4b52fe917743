-- ===== src/Leave/Rules.antt =====
-- modules/leave/date-rules.ts: working days split at any day, and so by year.
use scope_is_team_management.Base.{
  ℕ, zero, suc, false, List, map, ◌+◌, ◌-◌, ◌<◌, ◌≤◌, ◌≡◌, ◌⊎◌, refl, subst, ap, ◌∙◌, sym, arith,
  Bool-cases, inl, inr,
}
use scope_is_team_management.Dates.{
  Date, day_number, before, key, is_leap, IsDate, month_length, days_in_months, days_before_year,
}
use scope_is_team_management.Dates.Calendar.{
  in_year, day_number_order, years_order, month_length-le,
}
use scope_is_team_management.Leave.DateRules.{
  count_working, working_days, year_start, year_end, later, earlier, YearDays, year_days,
  years_from, working_days_by_year, sum,
}

count_working-add :
    (a m n middle total : ℕ)
    → middle ≡ a + m
    → total ≡ m + n
    → count_working a total ≡ count_working a m + count_working middle n
unfolding count_working
count_working-add a zero n middle total e f =
    let same : middle ≡ a = omega (arith, e) in
    let all : total ≡ n = omega (arith, f) in rw (same, all) (omega arith)
count_working-add a (suc m) n middle zero e f = absurd (omega (arith, f))
count_working-add a (suc m) n middle (suc total) e f =
    omega (arith, count_working-add (suc a) m n middle total (omega (arith, e)) (omega (arith, f)))

-- The working days from one day number up to, but not at, another.
abbrev span : ℕ → ℕ → ℕ
span a b = count_working a (b - a)

span-split : (a m b : ℕ) → a ≤ m → m ≤ b → span a m + span m b ≡ span a b
span-split a m b h k =
    sym (count_working-add a (m - a) (b - m) m (b - a) (omega (arith, h)) (omega (arith, h, k)))

span_empty : (a b : ℕ) → b ≤ a → span a b ≡ 0
unfolding count_working
span_empty a b h = let none_left : b - a ≡ 0 = omega (arith, h) in rw none_left refl

year_start-day_number : (y : ℕ) → day_number (year_start y) ≡ suc (days_before_year y)
unfolding day_number days_in_months
year_start-day_number y = omega arith

year_end-day_number : (y : ℕ) → day_number (year_end y) ≡ days_before_year (suc y)
unfolding day_number days_before_year month_length days_in_months
year_end-day_number y = elim (Bool-cases (is_leap y)) [
  | inl leap ↦ rw leap (omega arith)
  | inr common ↦ rw common (omega arith)
]

year_start-IsDate : (y : ℕ) → IsDate (year_start y)
unfolding month_length
year_start-IsDate y = (omega arith, omega arith, omega arith, omega arith)

year_end-IsDate : (y : ℕ) → IsDate (year_end y)
unfolding month_length
year_end-IsDate y = (omega arith, omega arith, omega arith, omega arith)

-- The later of two dates has the larger day number, and the earlier the smaller.
later-cases :
    (a b : Date)
    → IsDate a
    → IsDate b
    → ((later a b ≡ a) × (day_number b ≤ day_number a))
      ⊎ ((later a b ≡ b) × (day_number a ≤ day_number b))
later-cases a b is_a is_b =
    grind (arith, day_number_order a b is_a is_b, day_number_order b a is_b is_a)

earlier-cases :
    (a b : Date)
    → IsDate a
    → IsDate b
    → ((earlier a b ≡ a) × (day_number a ≤ day_number b))
      ⊎ ((earlier a b ≡ b) × (day_number b ≤ day_number a))
earlier-cases a b is_a is_b =
    grind (arith, day_number_order a b is_a is_b, day_number_order b a is_b is_a)

module _ (start end : Date) (is_start : IsDate start) (is_end : IsDate end) where
  -- The day number from which a year's entry counts, and the one up to which it counts.
  abbrev from : ℕ → ℕ
  from y = day_number (later start (year_start y))

  abbrev upto : ℕ → ℕ
  upto y = day_number (earlier end (year_end y))

  from_first : from start.year ≡ day_number start
  from_first =
      elim (later-cases start (year_start start.year) is_start (year_start-IsDate start.year)) [
        | inl (same, _) ↦ rw same refl
        | inr (same, le) ↦
            rw same
              (omega (arith, le, year_start-day_number start.year, (in_year start is_start).0))
      ]

  from_next : (y : ℕ) → start.year ≤ y → from (suc y) ≡ suc (days_before_year (suc y))
  from_next y h =
      elim (later-cases start (year_start (suc y)) is_start (year_start-IsDate (suc y))) [
        | inl (same, le) ↦ rw same (
            omega (
              arith,
              le,
              year_start-day_number (suc y),
              (in_year start is_start).1,
              years_order (suc start.year) (suc y) (omega (arith, h)),
            ))
        | inr (same, _) ↦ rw same (year_start-day_number (suc y))
      ]

  upto_last : upto end.year ≡ day_number end
  upto_last = elim (earlier-cases end (year_end end.year) is_end (year_end-IsDate end.year)) [
    | inl (same, _) ↦ rw same refl
    | inr (same, le) ↦
        rw same (omega (arith, le, year_end-day_number end.year, (in_year end is_end).1))
  ]

  upto_inner : (y : ℕ) → y < end.year → upto y ≡ days_before_year (suc y)
  upto_inner y h = elim (earlier-cases end (year_end y) is_end (year_end-IsDate y)) [
    | inl (same, le) ↦ rw same (
        omega (
          arith,
          le,
          year_end-day_number y,
          (in_year end is_end).0,
          years_order (suc y) end.year h,
        ))
    | inr (same, _) ↦ rw same (year_end-day_number y)
  ]

  abbrev days_of : List YearDays → List ℕ
  days_of ys = map (λ y. y.working_days) ys

  from-le : (y : ℕ) → start.year ≤ y → from y ≤ suc (days_before_year (suc y))
  from-le y h = elim (later-cases start (year_start y) is_start (year_start-IsDate y)) [
    | inl (same, _) ↦ rw same (
        omega (
          arith,
          (in_year start is_start).1,
          years_order (suc start.year) (suc y) (omega (arith, h)),
        ))
    | inr (same, _) ↦
        rw same (omega (arith, year_start-day_number y, years_order y (suc y) (omega arith)))
  ]

  entry : (y k : ℕ) → upto y ≡ k → (year_days start end y).working_days ≡ span (from y) (suc k)
  unfolding working_days
  entry y k e = ap (λ j. span (from y) (suc j)) e

  sum-years_from :
      (count y : ℕ)
      → start.year ≤ y
      → y + suc count ≡ suc end.year
      → sum (days_of (years_from start end y (suc count))) ≡ span (from y) (suc (day_number end))
  unfolding sum years_from
  sum-years_from zero y h e =
      let last : y ≡ end.year = omega (arith, e) in
      let whole : upto y ≡ day_number end =
        subst (λ k. upto k ≡ day_number end) (sym last) upto_last in
      omega (arith, entry y (day_number end) whole)
  sum-years_from (suc count) y h e =
      let rest = sum-years_from count (suc y) (omega (arith, h)) (omega (arith, e)) in
      let inner : y < end.year = omega (arith, e) in
      omega (
        arith,
        rest,
        entry y (days_before_year (suc y)) (upto_inner y inner),
        ap (λ k. span k (suc (day_number end))) (from_next y h),
        span-split (from y) (suc (days_before_year (suc y))) (suc (day_number end)) (from-le y h) (
            omega
              (arith, (in_year end is_end).0, years_order (suc y) end.year (omega (arith, inner)))),
      )

  years_in_order : before end start ≡ false → start.year ≤ end.year
  years_in_order h =
      let ordered : key start ≤ key end = ground arith in
      omega (
        arith,
        ordered,
        is_start,
        is_end,
        month_length-le start.year start.month,
        month_length-le end.year end.month,
      )

  -- For two dates of the calendar in order, the working days of each year add up to the working days
  -- of the whole range: no day is lost or counted twice where a year ends.
  pub sum-working_days_by_year :
      before end start ≡ false
      → sum (days_of (working_days_by_year start end)) ≡ working_days start end
  unfolding working_days_by_year working_days
  sum-working_days_by_year h =
      let ordered = years_in_order h in
      let some_year : suc end.year - start.year ≡ suc (end.year - start.year) =
        omega (arith, ordered) in
      let total =
        sum-years_from (end.year - start.year) start.year (omega arith) (omega (arith, ordered)) in
      rw some_year (total ∙ ap (λ k. span k (suc (day_number end))) from_first)
