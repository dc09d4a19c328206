-- ===== src/Drift/Puts.antt =====
-- Lists of declarations, put into a map one after another.
use pbuf_registry.Prelude.{
  String, Bool, true, false, ◌||◌, Option, none, some, ◌≡◌, refl, ◌∙◌, ap, List, [], ◌∷◌, ◌++◌, any,
  ◌==◌, ==_iff, string_eq, if◌then◌else◌, Bool-cases, inl, inr, arith,
}
use pbuf_registry.Drift.Maps.{Map, put, lookup, is_some}

module _ {ℓ} {V : Type ℓ} where
  abbrev pub or_this : Option V → Option V → Option V
  or_this (some v) o = some v
  or_this none o = o

  -- What the last of the declarations with a key says
  abbrev pub last_of : String → List (String × V) → Option V
  last_of k [] = none
  last_of k ((j, v) ∷ ds) = or_this (last_of k ds) (if j == k then some v else none)

  abbrev pub has_key : String → List (String × V) → Bool
  has_key k ds = any (λ d. d.0 == k) ds

  -- The declarations, put into a map one after another
  abbrev pub put_all : List (String × V) → Map V → Map V
  put_all [] m = m
  put_all ((k, v) ∷ ds) m = put_all ds (put k v m)

  pub put_all-append :
      (ds es : List (String × V)) (m : Map V) → put_all (ds ++ es) m ≡ put_all es (put_all ds m)
  put_all-append [] es m = refl
  put_all-append ((k, v) ∷ ds) es m = put_all-append ds es (put k v m)

  lookup-put :
      (k j : String) (v : V) (m : Map V)
      → lookup k (put j v m) ≡ or_this (if j == k then some v else none) (lookup k m)
  lookup-put k j v [] = elim (Bool-cases (j == k)) [ inl h ↦ rw h refl | inr h ↦ rw h refl ]
  lookup-put k j v ((i, u) ∷ m) = elim (Bool-cases (i == j)) [
    | inl same ↦
        let moved : (i == k) ≡ (j == k) = ap (λ x. x == k) ((==_iff i j).0 same) in
        rw same
          (elim (Bool-cases (j == k)) [ inl h ↦ rw h refl | inr h ↦ rw h (rw (moved ∙ h) refl) ])
    | inr other ↦ rw other (elim (Bool-cases (i == k)) [
      | inl h ↦
          let differ : (j == k) ≡ false = ground (arith, ==_iff i k, ==_iff j k, ==_iff i j) in
          rw (h, differ) refl
      | inr h ↦ rw h (lookup-put k j v m)
    ])
  ]

  or_this_assoc : (a b c : Option V) → or_this a (or_this b c) ≡ or_this (or_this a b) c
  or_this_assoc none b c = refl
  or_this_assoc (some v) b c = refl

  pub lookup-put_all :
      (k : String) (ds : List (String × V)) (m : Map V)
      → lookup k (put_all ds m) ≡ or_this (last_of k ds) (lookup k m)
  lookup-put_all k [] m = refl
  lookup-put_all k ((j, v) ∷ ds) m =
      lookup-put_all k ds (put j v m)
      ∙ ap (or_this (last_of k ds)) (lookup-put k j v m)
      ∙ or_this_assoc (last_of k ds) (if j == k then some v else none) (lookup k m)

  pub last_of-has_key :
      (k : String) (ds : List (String × V)) → is_some (last_of k ds) ≡ has_key k ds
  last_of-has_key k [] = refl
  last_of-has_key k ((j, v) ∷ ds) = joined (last_of k ds) (j == k) (last_of-has_key k ds)
    where
      joined :
          (o : Option V) (b : Bool)
          → is_some o ≡ has_key k ds
          → is_some (or_this o (if b then some v else none)) ≡ (b || has_key k ds)
      joined none true h = refl
      joined none false h = h
      joined (some u) true h = refl
      joined (some u) false h = h

  -- Whether a test of keys holds of some key does not change when declarations are put into a map.
  pub any-put :
      (g : String → Bool) (k : String) (v : V) (m : Map V)
      → any (λ d. g d.0) (put k v m) ≡ (g k || any (λ d. g d.0) m)
  any-put g k v [] = refl
  any-put g k v ((i, u) ∷ m) = elim (Bool-cases (i == k)) [
    | inl same ↦
        let moved : g i ≡ g k = ap g ((==_iff i k).0 same) in rw (same, moved) (ground arith)
    | inr other ↦ rw (other, any-put g k v m) (ground arith)
  ]

  pub any-put_all :
      (g : String → Bool) (ds : List (String × V)) (m : Map V)
      → any (λ d. g d.0) (put_all ds m) ≡ (any (λ d. g d.0) ds || any (λ d. g d.0) m)
  any-put_all g [] m = refl
  any-put_all g ((k, v) ∷ ds) m = rw (any-put_all g ds (put k v m), any-put g k v m) (ground arith)
