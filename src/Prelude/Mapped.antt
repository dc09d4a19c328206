-- ===== src/Prelude/Mapped.antt =====
-- Lists that are mapped, and a field of the first row that passes a test.
use mathlib.Core.Path.{◌≡◌, refl, ap}
use mathlib.Core.Logic.{inl, inr}
use mathlib.Core.Bool.{Bool, true, false}
use mathlib.Core.Option
use mathlib.Core.Option.{Option, none, some}
use mathlib.Core.List.{List, [], ◌∷◌, ◌++◌, map}
use native.Mathlib.Omega.{arith}
use pbuf_registry.Prelude.Tests.{Option-cases}
use pbuf_registry.Prelude.Lists.{any, first, select, Distinct, first-append, first-select}

module _ {ℓ κ} {A : Type ℓ} {B : Type κ} where
  pub any-map-false :
      (f : A → B) (p : B → Bool) (q : A → Bool) (xs : List A)
      → ((a : A) → q a ≡ false → p (f a) ≡ false)
      → any q xs ≡ false
      → any p (map f xs) ≡ false
  any-map-false f p q [] k h = refl
  any-map-false f p q (x ∷ xs) k h = ground (arith, k x, any-map-false f p q xs k)

  pub Distinct-map :
      (f : A → B) (same : A → A → Bool) (same' : B → B → Bool) (xs : List A)
      → ((a b : A) → same a b ≡ false → same' (f a) (f b) ≡ false)
      → Distinct same xs
      → Distinct same' (map f xs)
  Distinct-map f same same' [] k u = tt
  Distinct-map f same same' (x ∷ xs) k u =
      (any-map-false f (same' (f x)) (same x) xs (k x) u.0, Distinct-map f same same' xs k u.1)

  -- A field of the first row that passes.
  pub map-first :
      (f : A → B) (p : A → Bool) (xs : List A) (b : B)
      → Option.map f (first p xs) ≡ some b
      → (a : A) × (first p xs ≡ some a) × (f a ≡ b)
  map-first f p xs b h = elim (Option-cases (first p xs)) [
    | inl e ↦ absurd (ground arith)
    | inr (a, e) ↦ (a, e, ground arith)
  ]

  pub map-first-append :
      (f : A → B) (p : A → Bool) (xs ys : List A) (b : B)
      → Option.map f (first p xs) ≡ some b
      → Option.map f (first p (xs ++ ys)) ≡ some b
  map-first-append f p xs ys b h =
      let (a, found, e) = map-first f p xs b h in rw (first-append p xs ys a found) (ap some e)

  pub map-first-select :
      (f : A → B) (p q : A → Bool) (xs : List A) (b : B)
      → Option.map f (first p xs) ≡ some b
      → ((a : A) → first p xs ≡ some a → q a ≡ true)
      → Option.map f (first p (select q xs)) ≡ some b
  map-first-select f p q xs b h k =
      let (a, found, e) = map-first f p xs b h in
      rw (first-select p q xs a found (k a found)) (ap some e)
