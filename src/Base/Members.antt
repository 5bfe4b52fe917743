-- ===== src/Base/Members.antt =====
-- Which rows a query returns, and how many.
use Prim.Native.Nat.{ℕ, zero, suc}
use mathlib.Core.Path.{◌≡◌, refl, ap, sym, subst}
use mathlib.Core.Logic.{◌⊎◌, ◌↔◌, inl, inr}
use mathlib.Core.Bool.{Bool, true, false}
use mathlib.Core.List.{List, [], ◌∷◌, ◌++◌, map, Memᴰ}
use native.Mathlib.Omega.{arith}
use scope_is_team_management.Base.Tests.{Bool-cases, ◌==◌, if◌then◌else◌}
use scope_is_team_management.Base.Lists.{length, length-append, filter, unique}
use scope_is_team_management.Base.Queries.{
  paired, inner_join, insert, order_by, take, drop, page_of,
}

module _ {ℓ} {A : Type ℓ} where
  pub mem-filter :
      (p : A → Bool) (x : A) (xs : List A) → Memᴰ x (filter p xs) → Memᴰ x xs × (p x ≡ true)
  mem-filter p x [] m = elim m [ ]
  mem-filter p x (y ∷ ys) m = elim (Bool-cases (p y)) [
    | inl keep ↦ elim (rw keep at m) [
      | Memᴰ.head e ↦ (Memᴰ.head e, subst (λ z. p z ≡ true) (sym e) keep)
      | Memᴰ.tail n ↦ let (k, q) = mem-filter p x ys n in (Memᴰ.tail k, q)
    ]
    | inr skip ↦ let (k, q) = mem-filter p x ys (rw skip at m) in (Memᴰ.tail k, q)
  ]

  pub mem_of_filter :
      (p : A → Bool) (x : A) (xs : List A) → Memᴰ x xs → p x ≡ true → Memᴰ x (filter p xs)
  mem_of_filter p x [] m h = elim m [ ]
  mem_of_filter p x (y ∷ ys) (Memᴰ.head e) h = rw (subst (λ z. p z ≡ true) e h) (Memᴰ.head e)
  mem_of_filter p x (y ∷ ys) (Memᴰ.tail m) h = elim (Bool-cases (p y)) [
    | inl keep ↦ rw keep (Memᴰ.tail (mem_of_filter p x ys m h))
    | inr skip ↦ rw skip (mem_of_filter p x ys m h)
  ]

  -- Membership in a list that is two lists, one after the other.
  pub mem-append : (x : A) (xs ys : List A) → Memᴰ x (xs ++ ys) ↔ (Memᴰ x xs ⊎ Memᴰ x ys)
  mem-append x [] ys = (λ m. inr m, λ m. elim m [ inl n ↦ elim n [ ] | inr n ↦ n ])
  mem-append x (z ∷ zs) ys =
      let (there, back) = mem-append x zs ys in
      (
        λ m. elim m [
          | Memᴰ.head e ↦ inl (Memᴰ.head e)
          | Memᴰ.tail n ↦ elim (there n) [ inl k ↦ inl (Memᴰ.tail k) | inr k ↦ inr k ]
        ],
        λ m. elim m [
          | inl n ↦ elim n [ Memᴰ.head e ↦ Memᴰ.head e | Memᴰ.tail k ↦ Memᴰ.tail (back (inl k)) ]
          | inr n ↦ Memᴰ.tail (back (inr n))
        ],
      )

  mem-insert :
      (less : A → A → Bool) (x y : A) (ys : List A) → Memᴰ x (insert less y ys) → Memᴰ x (y ∷ ys)
  unfolding insert
  mem-insert less x y [] m = m
  mem-insert less x y (z ∷ zs) m = elim (Bool-cases (less z y)) [
    | inl after ↦ elim (rw after at m) [
      | Memᴰ.head e ↦ Memᴰ.tail (Memᴰ.head e)
      | Memᴰ.tail n ↦ elim (mem-insert less x y zs n) [
        | Memᴰ.head e ↦ Memᴰ.head e
        | Memᴰ.tail k ↦ Memᴰ.tail (Memᴰ.tail k)
      ]
    ]
    | inr before ↦ rw before at m
  ]

  pub mem-order_by :
      (less : A → A → Bool) (x : A) (xs : List A) → Memᴰ x (order_by less xs) → Memᴰ x xs
  unfolding order_by
  mem-order_by less x [] m = m
  mem-order_by less x (y ∷ ys) m = elim (mem-insert less x y (order_by less ys) m) [
    | Memᴰ.head e ↦ Memᴰ.head e
    | Memᴰ.tail n ↦ Memᴰ.tail (mem-order_by less x ys n)
  ]

  mem-take : (n : ℕ) (x : A) (xs : List A) → Memᴰ x (take n xs) → Memᴰ x xs
  unfolding take
  mem-take zero x xs m = elim m [ ]
  mem-take (suc n) x [] m = m
  mem-take (suc n) x (y ∷ ys) (Memᴰ.head e) = Memᴰ.head e
  mem-take (suc n) x (y ∷ ys) (Memᴰ.tail m) = Memᴰ.tail (mem-take n x ys m)

  mem-drop : (n : ℕ) (x : A) (xs : List A) → Memᴰ x (drop n xs) → Memᴰ x xs
  unfolding drop
  mem-drop zero x xs m = m
  mem-drop (suc n) x [] m = m
  mem-drop (suc n) x (y ∷ ys) m = Memᴰ.tail (mem-drop n x ys m)

  pub mem-page_of :
      (limit offset : ℕ) (x : A) (xs : List A) → Memᴰ x (page_of limit offset xs) → Memᴰ x xs
  unfolding page_of
  mem-page_of limit offset x xs m = mem-drop offset x xs (mem-take limit x (drop offset xs) m)

module _ {ℓ κ} {A : Type ℓ} {B : Type κ} where
  pub mem-map :
      (f : A → B) (y : B) (xs : List A) → Memᴰ y (map f xs) → (x : A) × Memᴰ x xs × (f x ≡ y)
  mem-map f y [] m = elim m [ ]
  mem-map f y (x ∷ xs) (Memᴰ.head e) = (x, Memᴰ.head refl, sym e)
  mem-map f y (x ∷ xs) (Memᴰ.tail m) = let (z, k, e) = mem-map f y xs m in (z, Memᴰ.tail k, e)

  pub mem_of_map : (f : A → B) (x : A) (xs : List A) → Memᴰ x xs → Memᴰ (f x) (map f xs)
  mem_of_map f x [] m = elim m [ ]
  mem_of_map f x (y ∷ ys) (Memᴰ.head e) = Memᴰ.head (ap f e)
  mem_of_map f x (y ∷ ys) (Memᴰ.tail m) = Memᴰ.tail (mem_of_map f x ys m)

  mem-paired :
      (on : A → B → Bool) (x : A) (j : A × B) (ys : List B)
      → Memᴰ j (paired x on ys)
      → (j.0 ≡ x) × Memᴰ j.1 ys × (on j.0 j.1 ≡ true)
  unfolding paired
  mem-paired on x j [] m = elim m [ ]
  mem-paired on x j (y ∷ ys) m = elim (Bool-cases (on x y)) [
    | inl keep ↦ elim (rw keep at m) [
      | Memᴰ.head e ↦ (
        ap (λ k. k.0) e,
        Memᴰ.head (ap (λ k. k.1) e),
        subst (λ k. on k.0 k.1 ≡ true) (sym e) keep,
      )
      | Memᴰ.tail n ↦ let (e, k, q) = mem-paired on x j ys n in (e, Memᴰ.tail k, q)
    ]
    | inr skip ↦ let (e, k, q) = mem-paired on x j ys (rw skip at m) in (e, Memᴰ.tail k, q)
  ]

  -- A joined row pairs rows of the two tables that meet.
  pub mem-inner_join :
      (on : A → B → Bool) (j : A × B) (xs : List A) (ys : List B)
      → Memᴰ j (inner_join on xs ys)
      → Memᴰ j.0 xs × Memᴰ j.1 ys × (on j.0 j.1 ≡ true)
  unfolding inner_join
  mem-inner_join on j [] ys m = elim m [ ]
  mem-inner_join on j (x ∷ xs) ys m =
      elim ((mem-append j (paired x on ys) (inner_join on xs ys)).0 m) [
        | inl here ↦ let (e, k, q) = mem-paired on x j ys here in (Memᴰ.head e, k, q)
        | inr later ↦ let (n, k, q) = mem-inner_join on j xs ys later in (Memᴰ.tail n, k, q)
      ]

  length-paired :
      (on : A → B → Bool) (x : A) (ys : List B)
      → length (paired x on ys) ≡ length (filter (on x) ys)
  unfolding paired
  length-paired on x [] = refl
  length-paired on x (y ∷ ys) = ground (arith, length-paired on x ys)

  -- Where each row meets exactly one row, a join has as many rows as the first table.
  pub length-inner_join :
      (on : A → B → Bool) (xs : List A) (ys : List B)
      → ((x : A) → Memᴰ x xs → length (filter (on x) ys) ≡ 1)
      → length (inner_join on xs ys) ≡ length xs
  unfolding inner_join
  length-inner_join on [] ys one = refl
  length-inner_join on (x ∷ xs) ys one = omega (
    arith,
    length-append (paired x on ys) (inner_join on xs ys),
    length-paired on x ys,
    one x (Memᴰ.head refl),
    length-inner_join on xs ys (λ z m. one z (Memᴰ.tail m)),
  )

  pub length-map : (f : A → B) (xs : List A) → length (map f xs) ≡ length xs
  length-map f [] = refl
  length-map f (x ∷ xs) = ap suc (length-map f xs)

-- A set has the elements of the list that it is made of.
pub mem-unique : (x : ℕ) (xs : List ℕ) → Memᴰ x (unique xs) ↔ Memᴰ x xs
mem-unique x [] = (λ m. m, λ m. m)
mem-unique x (z ∷ zs) =
    let (there, back) = mem-unique x zs in
    (
      λ m. elim m [
        | Memᴰ.head e ↦ Memᴰ.head e
        | Memᴰ.tail n ↦
            Memᴰ.tail (there (mem-filter (λ y. if y == z then false else true) x (unique zs) n).0)
      ],
      λ m. elim (Bool-cases (x == z)) [
        | inl same ↦ Memᴰ.head (ground arith)
        | inr other ↦ elim m [
          | Memᴰ.head e ↦ absurd (ground arith)
          | Memᴰ.tail n ↦ Memᴰ.tail (
              mem_of_filter (λ y. if y == z then false else true) x (unique zs) (back n)
                (ground arith))
        ]
      ],
    )
