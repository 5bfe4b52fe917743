-- ===== src/Base/Queries.antt =====
-- Queries on tables, which are lists of rows: joins, order, pages and counts as SQL has them.
use Prim.Native.Nat.{ℕ, zero, suc, ◌≤◌}
use mathlib.Core.Path.{◌≡◌, refl}
use mathlib.Core.Bool.{Bool, false, ◌||◌}
use mathlib.Core.List.{List, [], ◌∷◌, ◌++◌}
use mathlib.Core.Option.{Option}
use native.Mathlib.Omega.{arith}
use scope_is_team_management.Base.Tests.{if◌then◌else◌, ltb}
use scope_is_team_management.Base.Lists.{length, find}

module _ {ℓ κ} {A : Type ℓ} {B : Type κ} where
  -- The pairs of a row with each row of a table that it meets.
  unfoldable pub paired : A → (A → B → Bool) → List B → List (A × B)
  paired x on [] = []
  paired x on (y ∷ ys) = let rest = paired x on ys in if on x y then (x, y) ∷ rest else rest

  -- `inner join ... on`
  unfoldable pub inner_join : (A → B → Bool) → List A → List B → List (A × B)
  inner_join on [] ys = []
  inner_join on (x ∷ xs) ys = paired x on ys ++ inner_join on xs ys

  -- `left join ... on`, with a key of the second table.
  unfoldable pub left_join : (A → B → Bool) → List A → List B → List (A × Option B)
  left_join on [] ys = []
  left_join on (x ∷ xs) ys = (x, find (on x) ys) ∷ left_join on xs ys

module _ {ℓ} {A : Type ℓ} where
  unfoldable pub insert : (A → A → Bool) → A → List A → List A
  insert less x [] = x ∷ []
  insert less x (y ∷ ys) = let rest = insert less x ys in if less y x then y ∷ rest else x ∷ y ∷ ys

  -- `order by`: rows of which neither is before the other keep the table's order.
  unfoldable pub order_by : (A → A → Bool) → List A → List A
  unfolding insert
  order_by less [] = []
  order_by less (x ∷ xs) = insert less x (order_by less xs)

  unfoldable pub take : ℕ → List A → List A
  take zero xs = []
  take (suc n) [] = []
  take (suc n) (x ∷ xs) = x ∷ take n xs

  unfoldable pub drop : ℕ → List A → List A
  drop zero xs = xs
  drop (suc n) [] = []
  drop (suc n) (x ∷ xs) = drop n xs

  -- `limit ... offset ...`
  unfoldable pub page_of : ℕ → ℕ → List A → List A
  unfolding take drop
  page_of limit offset xs = take limit (drop offset xs)

  -- A comparison on a first key, and on a second where the first keys tie.
  abbrev pub then_by : (A → A → Bool) → (A → A → Bool) → A → A → Bool
  then_by first second x y = first x y || (if first y x then false else second x y)

  -- `asc(key)` and `desc(key)` on a numeric key.
  abbrev pub asc : (A → ℕ) → A → A → Bool
  asc key x y = ltb (key x) (key y)

  abbrev pub desc : (A → ℕ) → A → A → Bool
  desc key x y = ltb (key y) (key x)

  pub length-insert :
      (less : A → A → Bool) (x : A) (xs : List A) → length (insert less x xs) ≡ suc (length xs)
  unfolding insert
  length-insert less x [] = refl
  length-insert less x (y ∷ ys) = ground (arith, length-insert less x ys)

  -- Sorting keeps the number of rows.
  pub length-order_by : (less : A → A → Bool) (xs : List A) → length (order_by less xs) ≡ length xs
  unfolding order_by
  length-order_by less [] = refl
  length-order_by less (x ∷ xs) =
      omega (arith, length-insert less x (order_by less xs), length-order_by less xs)

  pub length-take : (n : ℕ) (xs : List A) → n ≤ length xs → length (take n xs) ≡ n
  unfolding take
  length-take zero xs h = refl
  length-take (suc n) [] h = omega (arith, h)
  length-take (suc n) (x ∷ xs) h = omega (arith, length-take n xs (omega (arith, h)))
