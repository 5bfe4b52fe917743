-- ===== src/Reporting/Bounds.antt =====
-- modules/reporting/date-rules.ts and the requests of service.ts: which dates and windows are
-- accepted, and how large an accepted window is.
use scope_is_team_management.Base.{
  ℕ, zero, suc, Bool, true, false, ◌≡◌, ◌↔◌, ◌≤◌, ◌+◌, ◌-◌, ◌&&◌, not, arith, refl, ok, some, ltb,
  pos, minus, >>=-eq-ok, ensure_passed, >>=-ok, ensure-ok, ok-injective, ap, sym, ◌∙◌, subst,
}
use scope_is_team_management.Dates.{Date, IsDate, day_number, key, before}
use scope_is_team_management.Dates.Calendar.{month_length-le, day_number_order}
use scope_is_team_management.Dates.Civil.{date_of, date_of_lem, date_of-day_number, day_number-pos}
use scope_is_team_management.Reporting.Windows.{
  is_business_date, parse_day, same_date, add_days, inclusive_day_count, assert_window, DateWindow,
  above, validation_error, window_too_large,
}

day_parsed :
    (d : Date)
    → 1 ≤ d.month
    → d.month ≤ 12
    → 1 ≤ d.day
    → d.day ≤ 31
    → parse_day d ≡ some (day_number d)
unfolding parse_day
day_parsed d a b c e = ground arith

IsDate-parsed : (d : Date) → IsDate d → parse_day d ≡ some (day_number d)
IsDate-parsed d (a, b, c, e) = day_parsed d a b c (omega (arith, e, month_length-le d.year d.month))

same_date_refl : (d : Date) → same_date d d ≡ true
same_date_refl d = ground arith

same_date-eq : (a b : Date) → same_date a b ≡ true → a ≡ b
same_date-eq a b h =
    let years : a.year ≡ b.year = ground arith in
    let months : a.month ≡ b.month = ground arith in let days : a.day ≡ b.day = ground arith in cc

written_back :
    (d : Date)
    → is_business_date d ≡ true
    → (1 ≤ d.month) × (d.month ≤ 12) × (1 ≤ d.day) × (same_date (date_of (day_number d)) d ≡ true)
unfolding is_business_date parse_day
written_back d h = ground arith

business_of_parsed :
    (d : Date)
    → parse_day d ≡ some (day_number d)
    → is_business_date d ≡ same_date (date_of (day_number d)) d
unfolding is_business_date
business_of_parsed d h = rw (h, is_business_date) refl

day_number-pos_of_day : (d : Date) → 1 ≤ d.day → 1 ≤ day_number d
unfolding day_number
day_number-pos_of_day d h = omega arith

-- A date is a business date exactly when it is a day of the Gregorian calendar: its month is 1 to
-- 12 and its day 1 to the length of that month. The code tests this by writing the parsed day back.
pub is_business_date_iff : (d : Date) → (is_business_date d ≡ true) ↔ IsDate d
is_business_date_iff d = (
  λ h.
      let (m, m', n, same) = written_back d h in
      let is_d = date_of_lem (day_number d) (day_number-pos_of_day d n) in
      subst (λ e. IsDate e) (same_date-eq (date_of (day_number d)) d same) is_d.0,
  λ is_d.
      rw (business_of_parsed d (IsDate-parsed d is_d), date_of-day_number d is_d)
        (same_date_refl d),
)

minus_add : (a n : ℕ) → minus (a + n) a ≡ pos n
minus_add zero n = ap pos (omega arith)
minus_add (suc a) n = let next : suc a + n ≡ suc (a + n) = omega arith in rw next (minus_add a n)

day_counted :
    {S : Type 0} (a b : Date) (n : ℕ) (s : S)
    → IsDate a
    → IsDate b
    → day_number b ≡ day_number a + n
    → inclusive_day_count a b s ≡ ok (pos (n + 1), s)
unfolding inclusive_day_count
day_counted a b n s is_a is_b e =
    rw (inclusive_day_count, IsDate-parsed a is_a, IsDate-parsed b is_b, e)
      (rw (minus_add (day_number a) n) refl)

-- Adding n days to a day of the calendar always gives a day of the calendar, and the window from
-- the day to that day has n + 1 days.
pub inclusive_day_count-add_days :
    {S : Type 0} (d : Date) (n : ℕ) (s : S)
    → IsDate d
    → (e : Date) × (add_days d n s ≡ ok (e, s))
      × IsDate e
      × (inclusive_day_count d e s ≡ ok (pos (n + 1), s))
unfolding add_days
inclusive_day_count-add_days d n s is_d =
    let (is_e, number) = date_of_lem (day_number d + n) (omega (arith, day_number-pos d is_d)) in
    (
      date_of (day_number d + n),
      rw (add_days, (is_business_date_iff d).1 is_d) refl,
      is_e,
      day_counted d (date_of (day_number d + n)) n s is_d is_e number,
    )

minus_le : (a b : ℕ) → a ≤ b → minus b a ≡ pos (b - a)
minus_le a b h =
    let whole : b ≡ a + (b - a) = omega (arith, h) in
    subst (λ c. minus c a ≡ pos (b - a)) (sym whole) (minus_add a (b - a))

-- What the count of an ordered window is.
ordered_count :
    {S : Type 0} (a b : Date) (s : S)
    → IsDate a
    → IsDate b
    → key a ≤ key b
    → inclusive_day_count a b s ≡ ok (pos (day_number b - day_number a + 1), s)
ordered_count a b s is_a is_b h =
    let apart : day_number b ≡ day_number a + (day_number b - day_number a) =
      omega (arith, day_number_order a b is_a is_b h) in
    day_counted a b (day_number b - day_number a) s is_a is_b apart

-- A window of days of the calendar, in order, whose days number at most `days`.
abbrev pub IsWindow : DateWindow → ℕ → Type 0
IsWindow window days =
    IsDate window.from
    × IsDate window.to
    × (key window.from ≤ key window.to)
    × (day_number window.to + 1 ≤ day_number window.from + days)

pub window_accepted :
    {S : Type 0} (window : DateWindow) (max_days : ℕ) (s : S)
    → IsWindow window max_days
    → assert_window window max_days s ≡ ok (window, s)
unfolding assert_window
window_accepted window max_days s (is_from, is_to, ordered, short) =
    let counted = ordered_count window.from window.to s is_from is_to ordered in
    let later = day_number_order window.from window.to is_from is_to ordered in
    let not_before : before window.to window.from ≡ false = ground arith in
    let not_above : ltb max_days (day_number window.to - day_number window.from + 1) ≡ false =
      ground arith in
    let dates : (is_business_date window.from && is_business_date window.to) ≡ true =
      rw ((is_business_date_iff window.from).1 is_from, (is_business_date_iff window.to).1 is_to)
        refl in
    ensure-ok (is_business_date window.from && is_business_date window.to) validation_error _ s
      dates
    ∙ (ensure-ok (not (before window.to window.from)) validation_error _ s (rw not_before refl)
        ∙ (>>=-ok (inclusive_day_count window.from window.to) _ s counted
            ∙ ensure-ok (not (ltb max_days (day_number window.to - day_number window.from + 1)))
                window_too_large _ s (rw not_above refl)))

not-true : (b : Bool) → not b ≡ true → b ≡ false
not-true b h = ground arith

fits : (most a b : ℕ) → ltb most (b - a + 1) ≡ false → b + 1 ≤ a + most
fits most a b h = ground arith

pub assert_window-IsWindow :
    {S : Type 0} (window w : DateWindow) (max_days : ℕ) (s s' : S)
    → assert_window window max_days s ≡ ok (w, s')
    → (w ≡ window) × (s' ≡ s) × IsWindow window max_days
unfolding assert_window
assert_window-IsWindow window w max_days s s' h =
    let b = is_business_date window.from && is_business_date window.to in
    let (dates, h1) = ensure_passed b validation_error _ s h in
    let (ordered, h2) =
      ensure_passed (not (before window.to window.from)) validation_error _ s h1 in
    let is_from = (is_business_date_iff window.from).0 (ground (arith, dates)) in
    let is_to = (is_business_date_iff window.to).0 (ground (arith, dates)) in
    let in_order : key window.from ≤ key window.to = ground (arith, ordered) in
    let counted = ordered_count window.from window.to s is_from is_to in_order in
    let (count, s1, e, h3) = >>=-eq-ok (inclusive_day_count window.from window.to) _ s h2 in
    let same : (count, s1) ≡ (pos (day_number window.to - day_number window.from + 1), s) =
      ok-injective (inclusive_day_count window.from window.to s) e counted in
    let (short, h4) = ensure_passed (not (above count max_days)) window_too_large _ s1 h3 in
    let number = day_number window.to - day_number window.from + 1 in
    let counted_short : not (ltb max_days number) ≡ true =
      subst (λ c. not (above c max_days) ≡ true) (ap (λ p. p.0) same) short in
    let short' : ltb max_days number ≡ false = not-true (ltb max_days number) counted_short in
    (
      ap (λ p. p.0) (ok-injective (ok (w, s')) refl (sym h4)),
      ap (λ p. p.1) (ok-injective (ok (w, s')) refl (sym h4)) ∙ ap (λ p. p.1) same,
      (
        is_from,
        is_to,
        in_order,
        fits max_days (day_number window.from) (day_number window.to) short',
      ),
    )
