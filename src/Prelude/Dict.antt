-- ===== src/Prelude/Dict.antt =====
-- Python's dictionaries as association lists in insertion order, over the library's `lookup`.
use mathlib.Core.Path.{◌≡◌, refl, ◌∙◌, sym, subst, subst₂, ap}
use mathlib.Core.Bool.{Bool}
use xyzzy.Prelude.Tests.{if◌then◌else◌}
use mathlib.Core.Logic.{ite, ◌≢◌, if_pos, if_neg}
use mathlib.Core.List.{List, [], ◌∷◌, lookup}
use mathlib.Core.Option.{Option, none, some, some-injective}
use native.Mathlib.Omega.{arith}

module _ {ℓ} {K V : Type ℓ} (dec : Discrete K) where
  -- `d[k] = v`: in place where the key is there, else at the end
  unfoldable pub insert : K → V → List (K × V) → List (K × V)
  insert k v [] = (k, v) ∷ []
  insert k v ((j, w) ∷ d) = ite (dec k j) ((k, v) ∷ d) ((j, w) ∷ insert k v d)

  -- `d.pop(k, None)`, for the dictionary left
  unfoldable pub remove : K → List (K × V) → List (K × V)
  remove k [] = []
  remove k ((j, w) ∷ d) = ite (dec k j) (remove k d) ((j, w) ∷ remove k d)

  pub lookup-insert :
      (k j : K) (v : V) (d : List (K × V))
      → lookup dec j (insert k v d) ≡ ite (dec j k) (some v) (lookup dec j d)
  unfolding lookup insert
  lookup-insert k j v [] = refl
  lookup-insert k j v ((i, w) ∷ d) = ground (arith, lookup-insert k j v d)

  pub lookup-remove :
      (k j : K) (d : List (K × V)) → lookup dec j (remove k d) ≡ ite (dec j k) none (lookup dec j d)
  unfolding lookup remove
  lookup-remove k j [] = ground arith
  lookup-remove k j ((i, w) ∷ d) = ground (arith, lookup-remove k j d)

  pub lookup-insert_self : (k : K) (v : V) (d : List (K × V)) → lookup dec k (insert k v d) ≡ some v
  lookup-insert_self k v d = lookup-insert k k v d ∙ if_pos (dec k k) refl _ _

  pub lookup-insert_ne :
      (k j : K) (v : V) (d : List (K × V)) → j ≢ k → lookup dec j (insert k v d) ≡ lookup dec j d
  lookup-insert_ne k j v d ne = lookup-insert k j v d ∙ if_neg (dec j k) ne _ _

  pub lookup-remove_self : (k : K) (d : List (K × V)) → lookup dec k (remove k d) ≡ none
  lookup-remove_self k d = lookup-remove k k d ∙ if_pos (dec k k) refl _ _

  pub lookup-remove_ne :
      (k j : K) (d : List (K × V)) → j ≢ k → lookup dec j (remove k d) ≡ lookup dec j d
  lookup-remove_ne k j d ne = lookup-remove k j d ∙ if_neg (dec j k) ne _ _

  -- What holds of every entry, and of a new one, holds of every entry once that is stored.
  pub lookup-insert_all {μ} :
      (P : K → V → Type μ) (k : K) (v : V) (d : List (K × V))
      → ((j : K) (w : V) → lookup dec j d ≡ some w → P j w)
      → P k v
      → (j : K) (w : V) → lookup dec j (insert k v d) ≡ some w
      → P j w
  lookup-insert_all P k v d all new j w h = elim (dec j k) [
    | yes e ↦
        let same : v ≡ w = some-injective v w (
          sym (lookup-insert_self k v d)
          ∙ (subst (λ i. lookup dec i (insert k v d) ≡ some w) e h)) in
        subst₂ P (sym e) same new
    | no ne ↦ all j w (sym (lookup-insert_ne k j v d ne) ∙ h)
  ]

-- `UPDATE … SET … WHERE …`: the rows that satisfy the test are changed.
abbrev pub updated {ℓ} : {V : Type ℓ} → Bool → (V → V) → V → V
updated b f v = if b then f v else v

abbrev pub update_all {ℓ} : {K V : Type ℓ} → (K → V → Bool) → (V → V) → List (K × V) → List (K × V)
update_all p f [] = []
update_all p f ((k, v) ∷ d) = (k, updated (p k v) f v) ∷ update_all p f d

abbrev pub map_found {ℓ} : {V : Type ℓ} → (V → V) → Option V → Option V
map_found f none = none
map_found f (some v) = some (f v)

pub lookup-update_all {ℓ} :
    {K V : Type ℓ} (dec : Discrete K) (p : K → V → Bool) (f : V → V) (j : K) (d : List (K × V))
    → lookup dec j (update_all p f d) ≡ map_found (λ v. updated (p j v) f v) (lookup dec j d)
unfolding lookup
lookup-update_all dec p f j [] = refl
lookup-update_all dec p f j ((k, v) ∷ d) = elim (dec j k) [
  | yes e ↦
      let here : p k v ≡ p j v = ap (λ i. p i v) (sym e) in
      ground (arith, lookup-update_all dec p f j d)
  | no ne ↦ ground (arith, lookup-update_all dec p f j d)
]
