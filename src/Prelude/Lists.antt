-- ===== src/Prelude/Lists.antt =====
-- Lists as tables: the rows that pass a test, the first of them, and rows that are pairwise apart.
use Prim.Native.Nat.{ℕ, zero, suc, ◌+◌}
use mathlib.Core.Path.{◌≡◌, refl, ap}
use mathlib.Core.Logic.{inl, inr}
use mathlib.Core.Bool.{Bool, true, false, not, ◌&&◌, ◌||◌}
use mathlib.Core.Option.{Option, none, some}
use mathlib.Core.List.{List, [], ◌∷◌, ◌++◌}
use native.Mathlib.Omega.{arith}
use pbuf_registry.Prelude.Tests.{if◌then◌else◌, Bool-cases}

module _ {ℓ} {A : Type ℓ} where
  abbrev pub length : List A → ℕ
  length [] = 0
  length (x ∷ xs) = suc (length xs)

  abbrev pub take : ℕ → List A → List A
  take zero xs = []
  take (suc n) [] = []
  take (suc n) (x ∷ xs) = x ∷ take n xs

  pub length-append : (xs ys : List A) → length (xs ++ ys) ≡ length xs + length ys
  length-append [] ys = omega arith
  length-append (x ∷ xs) ys = omega (arith, length-append xs ys)

  -- The first element that passes the test.
  abbrev pub first : (A → Bool) → List A → Option A
  first p [] = none
  first p (x ∷ xs) = if p x then some x else first p xs

  -- The elements that pass the test, in their order.
  abbrev pub select : (A → Bool) → List A → List A
  select p [] = []
  select p (x ∷ xs) = let rest = select p xs in if p x then x ∷ rest else rest

  abbrev pub any : (A → Bool) → List A → Bool
  any p [] = false
  any p (x ∷ xs) = p x || any p xs

  -- No two elements are the same.
  abbrev pub Distinct : (A → A → Bool) → List A → Type 0
  Distinct same [] = Unit {0}
  Distinct same (x ∷ xs) = (any (same x) xs ≡ false) × Distinct same xs

  -- What a test found before a row was added at the end, it finds after.
  pub first-append :
      (p : A → Bool) (xs ys : List A) (a : A) → first p xs ≡ some a → first p (xs ++ ys) ≡ some a
  first-append p [] ys a h = ground arith
  first-append p (x ∷ xs) ys a h = ground (arith, first-append p xs ys a)

  pub first-append_none :
      (p : A → Bool) (xs ys : List A) → any p xs ≡ false → first p (xs ++ ys) ≡ first p ys
  first-append_none p [] ys h = refl
  first-append_none p (x ∷ xs) ys h = ground (arith, first-append_none p xs ys)

  pub select-append :
      (p : A → Bool) (xs ys : List A) → select p (xs ++ ys) ≡ select p xs ++ select p ys
  select-append p [] ys = refl
  select-append p (x ∷ xs) ys = ground (arith, select-append p xs ys)

  pub any-append : (p : A → Bool) (xs ys : List A) → any p (xs ++ ys) ≡ (any p xs || any p ys)
  any-append p [] ys = refl
  any-append p (x ∷ xs) ys = ground (arith, any-append p xs ys)

  -- The row that was found passes the test.
  pub first-passes : (p : A → Bool) (xs : List A) (a : A) → first p xs ≡ some a → p a ≡ true
  first-passes p [] a h = ground arith
  first-passes p (x ∷ xs) a h = ground (arith, first-passes p xs a)

  -- A test that no row passes fails on the row found by any other.
  pub first-fails :
      (p q : A → Bool) (xs : List A) (a : A) → first p xs ≡ some a → any q xs ≡ false → q a ≡ false
  first-fails p q [] a h n = ground arith
  first-fails p q (x ∷ xs) a h n = ground (arith, first-fails p q xs a)

  abbrev pub all : (A → Bool) → List A → Bool
  all p [] = true
  all p (x ∷ xs) = p x && all p xs

  pub any_mono :
      (p q : A → Bool) (xs : List A)
      → ((a : A) → q a ≡ false → p a ≡ false)
      → any q xs ≡ false
      → any p xs ≡ false
  any_mono p q [] k h = refl
  any_mono p q (x ∷ xs) k h = ground (arith, k x, any_mono p q xs k)

  pub all_mono :
      (p q : A → Bool) (xs : List A)
      → ((a : A) → p a ≡ true → q a ≡ true)
      → all p xs ≡ true
      → all q xs ≡ true
  all_mono p q [] k h = refl
  all_mono p q (x ∷ xs) k h = ground (arith, k x, all_mono p q xs k)

  pub all-append : (p : A → Bool) (xs ys : List A) → all p (xs ++ ys) ≡ (all p xs && all p ys)
  all-append p [] ys = refl
  all-append p (x ∷ xs) ys = ground (arith, all-append p xs ys)

  pub any-select-false :
      (p q : A → Bool) (xs : List A) → any q xs ≡ false → any q (select p xs) ≡ false
  any-select-false p q [] h = refl
  any-select-false p q (x ∷ xs) h = ground (arith, any-select-false p q xs)

  -- What holds of the rows that pass holds of the selection.
  pub all-select : (p q : A → Bool) (xs : List A) → all q xs ≡ true → all q (select p xs) ≡ true
  all-select p q [] h = refl
  all-select p q (x ∷ xs) h = ground (arith, all-select p q xs)

  pub all-of_select : (p : A → Bool) (xs : List A) → all p (select p xs) ≡ true
  all-of_select p [] = refl
  all-of_select p (x ∷ xs) = ground (arith, all-of_select p xs)

  pub all-and :
      (p q : A → Bool) (xs : List A)
      → all p xs ≡ true
      → all q xs ≡ true
      → all (λ x. p x && q x) xs ≡ true
  all-and p q [] h k = refl
  all-and p q (x ∷ xs) h k = ground (arith, all-and p q xs)

  -- A test of which one passing row survives still has a passing row.
  pub any-select :
      (p q : A → Bool) (xs : List A)
      → ((a : A) → q a ≡ true → p a ≡ true)
      → any q xs ≡ true
      → any q (select p xs) ≡ true
  any-select p q [] k h = h
  any-select p q (x ∷ xs) k h = ground (arith, k x, any-select p q xs k)

  pub Distinct-concat :
      (same : A → A → Bool) (xs : List A) (a : A)
      → ((u : A) → same a u ≡ false → same u a ≡ false)
      → any (same a) xs ≡ false
      → Distinct same xs
      → Distinct same (xs ++ a ∷ [])
  Distinct-concat same [] a k h u = (refl, tt)
  Distinct-concat same (x ∷ xs) a k h u = (
    ground (arith, any-append (same x) xs (a ∷ []), k x),
    Distinct-concat same xs a k (ground arith) u.1,
  )

  pub Distinct-select :
      (same : A → A → Bool) (p : A → Bool) (xs : List A)
      → Distinct same xs
      → Distinct same (select p xs)
  Distinct-select same p [] u = tt
  Distinct-select same p (x ∷ xs) u =
      ground (arith, any-select-false p (same x) xs u.0, Distinct-select same p xs u.1)

  -- Rows are told apart: a test that singles out rows the same as `a` fails everywhere if it fails
  -- at `a`.
  pub Distinct-any :
      (same : A → A → Bool) (p r : A → Bool) (xs : List A) (a : A)
      → ((u : A) → r u ≡ true → (same a u ≡ true) × (same u a ≡ true))
      → Distinct same xs
      → first p xs ≡ some a
      → r a ≡ false
      → any r xs ≡ false
  Distinct-any same p r [] a k u h n = refl
  Distinct-any same p r (x ∷ xs) a k u h n = elim (Bool-cases (p x)) [
    | inl here ↦
        let e : x ≡ a = ground arith in
        let rest : any r xs ≡ false = any_mono r (same x) xs (λ y m. apart y x e m) u.0 in
        ground (arith, ap r e)
    | inr later ↦
        let h' : first p xs ≡ some a = ground arith in
        ground
          (arith, Distinct-any same p r xs a k u.1 h' n, first-fails p (same x) xs a h' u.0, k x)
  ]
    where
      apart : (y x : A) → x ≡ a → same x y ≡ false → r y ≡ false
      apart y x e m = ground (arith, k y, ap (λ z. same z y) e)

  pub any-or :
      (p q : A → Bool) (xs : List A)
      → any p xs ≡ false
      → any q xs ≡ false
      → any (λ x. p x || q x) xs ≡ false
  any-or p q [] h k = refl
  any-or p q (x ∷ xs) h k = ground (arith, any-or p q xs)

  pub any-append_left : (p : A → Bool) (xs ys : List A) → any p xs ≡ true → any p (xs ++ ys) ≡ true
  any-append_left p xs ys h = ground (arith, any-append p xs ys)

  pub all-concat :
      (p : A → Bool) (xs : List A) (a : A)
      → all p xs ≡ true
      → p a ≡ true
      → all p (xs ++ a ∷ []) ≡ true
  all-concat p xs a h k = ground (arith, all-append p xs (a ∷ []))

  pub any-none : (p : A → Bool) (xs : List A) → ((a : A) → p a ≡ false) → any p xs ≡ false
  any-none p [] k = refl
  any-none p (x ∷ xs) k = ground (arith, k x, any-none p xs k)

  -- A row that passes `q`, and none of whose like is taken out, is left.
  pub any-select_other :
      (g q : A → Bool) (xs : List A)
      → any q xs ≡ true
      → any (λ x. g x && q x) xs ≡ false
      → any q (select (λ x. not (g x)) xs) ≡ true
  any-select_other g q [] h k = h
  any-select_other g q (x ∷ xs) h k = ground (arith, any-select_other g q xs)

  pub first-none : (p : A → Bool) (xs : List A) → first p xs ≡ none → any p xs ≡ false
  first-none p [] h = refl
  first-none p (x ∷ xs) h = ground (arith, first-none p xs)

  pub first-any :
      (p q : A → Bool) (xs : List A) (a : A) → first p xs ≡ some a → q a ≡ true → any q xs ≡ true
  first-any p q xs a h k = elim (Bool-cases (any q xs)) [
    | inl e ↦ e
    | inr e ↦ cc (first-fails p q xs a h e)
  ]

  -- Rows that are taken out before another test is made, if none of them passes it.
  pub select-select :
      (p q : A → Bool) (xs : List A)
      → ((a : A) → p a ≡ true → q a ≡ true)
      → select p (select q xs) ≡ select p xs
  select-select p q [] k = refl
  select-select p q (x ∷ xs) k = ground (arith, k x, select-select p q xs k)

  pub first-select :
      (p q : A → Bool) (xs : List A) (a : A)
      → first p xs ≡ some a
      → q a ≡ true
      → first p (select q xs) ≡ some a
  first-select p q [] a h k = h
  first-select p q (x ∷ xs) a h k = elim (Bool-cases (p x)) [
    | inl here ↦ let e : x ≡ a = ground arith in ground (arith, ap q e)
    | inr later ↦
        let h' : first p xs ≡ some a = ground arith in ground (arith, first-select p q xs a h' k)
  ]
