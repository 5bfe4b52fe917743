-- ===== src/Base/Apart.antt =====
-- Tables in which no two rows are rivals of each other, as a unique index keeps them.
use mathlib.Core.Path.{◌≡◌, refl, sym, subst}
use mathlib.Core.Logic.{inl, inr}
use mathlib.Core.Bool.{Bool, true, false, ◌&&◌, not}
use mathlib.Core.List.{List, [], ◌∷◌, Memᴰ}
use mathlib.Core.Option.{none, some}
use native.Mathlib.Omega.{arith}
use scope_is_team_management.Base.Tests.{if◌then◌else◌, Bool-cases}
use scope_is_team_management.Base.Lists.{any, find, update_where, any-mem, any_of_mem}

module _ {A : Type 0} where
  -- An update of one row.
  abbrev pub updated : (A → Bool) → (A → A) → A → A
  updated p f x = if p x then f x else x

  pub mem-update_where :
      (p : A → Bool) (f : A → A) (y : A) (xs : List A)
      → Memᴰ y (update_where p f xs)
      → (x : A) × Memᴰ x xs × (y ≡ updated p f x)
  mem-update_where p f y [] m = elim m [ ]
  mem-update_where p f y (x ∷ xs) (Memᴰ.head e) = (x, Memᴰ.head refl, e)
  mem-update_where p f y (x ∷ xs) (Memᴰ.tail m) =
      let (z, n, e) = mem-update_where p f y xs m in (z, Memᴰ.tail n, e)

  -- A row that `find` passed over fails the test.
  pub find-none : (p : A → Bool) (xs : List A) (x : A) → find p xs ≡ none → Memᴰ x xs → p x ≡ false
  find-none p [] x h m = elim m [ ]
  find-none p (y ∷ ys) x h m = elim (Bool-cases (p y)) [
    | inl hit ↦ let e : some y ≡ none = rw hit at h in cc
    | inr miss ↦ elim m [
      | Memᴰ.head e ↦ subst (λ k. p k ≡ false) (sym e) miss
      | Memᴰ.tail n ↦ find-none p ys x (rw miss at h) n
    ]
  ]

  module _ (R : A → A → Bool) where
    abbrev pub apart : List A → Bool
    apart [] = true
    apart (x ∷ xs) = not (any (R x) xs) && apart xs

    -- An update that makes no rivals keeps the rows apart.
    pub apart-update_where :
        (p : A → Bool) (f : A → A) (xs : List A)
        → apart xs ≡ true
        → ((x y : A)
            → Memᴰ x xs
            → Memᴰ y xs
            → R (updated p f x) (updated p f y) ≡ true
            → R x y ≡ true)
        → apart (update_where p f xs) ≡ true
    apart-update_where p f [] h w = refl
    apart-update_where p f (x ∷ xs) h w =
        elim (Bool-cases (any (R (updated p f x)) (update_where p f xs))) [
          | inr none_new ↦
              let rest =
                apart-update_where p f xs (ground arith)
                  (λ a b m n. w a b (Memᴰ.tail m) (Memᴰ.tail n)) in
              ground arith
          | inl some_new ↦
              let (z, m, r) = any-mem (R (updated p f x)) (update_where p f xs) some_new in
              let (y, n, e) = mem-update_where p f z xs m in
              let old =
                w x y (Memᴰ.head refl) (Memᴰ.tail n)
                  (subst (λ k. R (updated p f x) k ≡ true) e r) in
              let clash = any_of_mem (R x) y xs n old in ground arith
        ]

    -- The only row that passes a test that only rivals share.
    pub find_unique :
        (p : A → Bool) (xs : List A) (c x : A)
        → apart xs ≡ true
        → ((a b : A) → p a ≡ true → p b ≡ true → R a b ≡ true)
        → find p xs ≡ some c
        → Memᴰ x xs
        → p x ≡ true
        → x ≡ c
    find_unique p [] c x h w found m px = elim m [ ]
    find_unique p (y ∷ ys) c x h w found (Memᴰ.head e) px =
        let first : some y ≡ some c = rw (subst (λ k. p k ≡ true) e px) at found in cc
    find_unique p (y ∷ ys) c x h w found (Memᴰ.tail m) px = elim (Bool-cases (p y)) [
      | inl hit ↦ let clash = any_of_mem (R y) x ys m (w y x hit px) in ground arith
      | inr miss ↦ find_unique p ys c x (ground arith) w (rw miss at found) m px
    ]
