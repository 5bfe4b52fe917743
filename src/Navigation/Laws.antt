-- ===== src/Navigation/Laws.antt =====
-- modules/navigation/navigation.ts: navigation offers only what the actor may open.
use scope_is_team_management.Base.{
  ◌≡◌, Bool, true, none, List, [], ◌∷◌, ◌++◌, map, filter, All, Bool-cases, inl, inr, not, refl,
  subst, sym,
}
use scope_is_team_management.Shared.{Actor, employee, same_role}
use scope_is_team_management.Authorization.Capabilities.{
  ModuleKey, Capability, view, can, same_key, replacements,
}
use scope_is_team_management.Navigation.{
  ModuleDefinition, modules, in_key_order, employee_keys, navigation_for,
}

-- The actor may view the module that the entry is about.
abbrev pub IsOpen : Actor → ModuleDefinition → Type 0
IsOpen actor m = can actor (view m.key) none ≡ true

All-append : {A : Type 0} (P : A → Type 0) (xs ys : List A) → All P xs → All P ys → All P (xs ++ ys)
All-append P [] ys p q = q
All-append P (x ∷ xs) ys p q = (p.0, All-append P xs ys p.1 q)

All-filter :
    {A : Type 0} (P : A → Type 0) (f : A → Bool) (xs : List A) → All P xs → All P (filter f xs)
All-filter P f [] p = tt
All-filter P f (x ∷ xs) p = elim (Bool-cases (f x)) [
  | inl kept ↦ rw kept (p.0, All-filter P f xs p.1)
  | inr dropped ↦ rw dropped (All-filter P f xs p.1)
]

shown-IsOpen :
    (actor : Actor) (f : ModuleDefinition → ModuleDefinition)
    → ((m : ModuleDefinition) → (f m).key ≡ m.key)
    → (ms : List ModuleDefinition) → All (IsOpen actor) ms
    → All (IsOpen actor) (map f ms)
shown-IsOpen actor f same [] p = tt
shown-IsOpen actor f same (m ∷ ms) p = (
  subst (λ (k : ModuleKey). can actor (view k) none ≡ true) (sym (same m)) p.0,
  shown-IsOpen actor f same ms p.1,
)

in_key_order-IsOpen :
    (actor : Actor) (ks : List ModuleKey) (ms : List ModuleDefinition)
    → All (IsOpen actor) ms
    → All (IsOpen actor) (in_key_order ks ms)
unfolding in_key_order
in_key_order-IsOpen actor [] ms p = tt
in_key_order-IsOpen actor (k ∷ ks) ms p =
    All-append (IsOpen actor) (filter (λ m. same_key m.key k) ms) (in_key_order ks ms)
      (All-filter (IsOpen actor) (λ m. same_key m.key k) ms p) (in_key_order-IsOpen actor ks ms p)

-- The capability that opens an entry is the one to view the module that the entry is about.
abbrev IsGuarded : ModuleDefinition → Type 0
IsGuarded m = m.capability ≡ view m.key

modules-IsGuarded : All IsGuarded modules
unfolding modules
modules-IsGuarded = (
  refl,
  (
    refl,
    (
      refl,
      (
        refl,
        (
          refl,
          (
            refl,
            (
              refl,
              (
                refl,
                (
                  refl,
                  (
                    refl,
                    (
                      refl,
                      (
                        refl,
                        (
                          refl,
                          (
                            refl,
                            (refl, (refl, (refl, (refl, (refl, (refl, (refl, (refl, tt)))))))),
                          ),
                        ),
                      ),
                    ),
                  ),
                ),
              ),
            ),
          ),
        ),
      ),
    ),
  ),
)

filter-IsOpen :
    (actor : Actor) (ms : List ModuleDefinition)
    → All IsGuarded ms
    → All (IsOpen actor) (filter (λ m. can actor m.capability none) ms)
filter-IsOpen actor [] g = tt
filter-IsOpen actor (m ∷ ms) (same, g) = elim (Bool-cases (can actor m.capability none)) [
  | inl opens ↦
      rw opens
        (subst (λ (c : Capability). can actor c none ≡ true) same opens, filter-IsOpen actor ms g)
  | inr shut ↦ rw shut (filter-IsOpen actor ms g)
]

-- Every entry of an actor's navigation is about a module for which the actor holds the capability
-- to view that very module.
pub navigation_for-IsOpen : (actor : Actor) → All (IsOpen actor) (navigation_for actor)
unfolding navigation_for
navigation_for-IsOpen actor =
    let open_modules = filter-IsOpen actor modules modules-IsGuarded in
    elim (Bool-cases (same_role actor.role employee)) [
      | inl worker ↦ rw worker (
          shown-IsOpen actor _ (λ m. refl) _
            (in_key_order-IsOpen actor employee_keys _ open_modules))
      | inr manager ↦ rw manager (
          shown-IsOpen actor _ (λ m. refl) _
            (All-filter (IsOpen actor) (λ m. not (same_key m.key replacements)) _ open_modules))
    ]
