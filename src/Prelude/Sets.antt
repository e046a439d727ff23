-- ===== src/Prelude/Sets.antt =====
-- Python's finite sets as lists read only through membership.
use mathlib.Core.Path.{◌≡◌, refl}
use mathlib.Core.Logic.{ite}
use mathlib.Core.Bool.{Bool, true, false, ◌&&◌, ◌||◌, not}
use mathlib.Core.List.{List, [], ◌∷◌, ◌++◌}
use native.Mathlib.Omega.{arith}
use xyzzy.Prelude.Lists.{keep}

module _ {ℓ} {A : Type ℓ} (dec : Discrete A) where
  -- `a in xs`
  unfoldable pub contains : A → List A → Bool
  contains a [] = false
  contains a (x ∷ xs) = ite (dec a x) true (contains a xs)

  -- `xs & ys`
  abbrev pub inter : List A → List A → List A
  inter xs ys = keep (λ a. contains a ys) xs

  -- `xs - ys`
  abbrev pub diff : List A → List A → List A
  diff xs ys = keep (λ a. not (contains a ys)) xs

  -- `xs <= ys`
  unfoldable pub subset : List A → List A → Bool
  subset [] ys = true
  subset (x ∷ xs) ys = contains x ys && subset xs ys

  -- `xs == ys`, between sets
  abbrev pub set_eq : List A → List A → Bool
  set_eq xs ys = subset xs ys && subset ys xs

  pub contains-append :
      (a : A) (xs ys : List A) → contains a (xs ++ ys) ≡ (contains a xs || contains a ys)
  unfolding contains
  contains-append a [] ys = refl
  contains-append a (x ∷ xs) ys = ground (arith, contains-append a xs ys)

  pub contains-keep :
      (a : A) (p : A → Bool) (xs : List A) → contains a (keep p xs) ≡ (contains a xs && p a)
  unfolding contains
  contains-keep a p [] = refl
  contains-keep a p (x ∷ xs) = ground (arith, contains-keep a p xs)

  pub contains-subset :
      (a : A) (xs ys : List A) → subset xs ys ≡ true → contains a xs ≡ true → contains a ys ≡ true
  unfolding contains subset
  contains-subset a [] ys h m = cc
  contains-subset a (x ∷ xs) ys h m = ground (arith, contains-subset a xs ys)

  pub contains-set_eq :
      (a : A) (xs ys : List A) → set_eq xs ys ≡ true → contains a xs ≡ contains a ys
  contains-set_eq a xs ys h = ground (arith, contains-subset a xs ys, contains-subset a ys xs)

  -- A set whose members all belong to another is a subset of it.
  pub subset_of_contains :
      (xs ys : List A)
      → ((a : A) → contains a xs ≡ true → contains a ys ≡ true)
      → subset xs ys ≡ true
  unfolding contains subset
  subset_of_contains [] ys h = refl
  subset_of_contains (x ∷ xs) ys h =
      let head : contains x ys ≡ true = h x (ground arith) in
      let tail : subset xs ys ≡ true = subset_of_contains xs ys (λ a m. h a (ground arith)) in
      ground arith
