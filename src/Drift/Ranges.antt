-- ===== src/Drift/Ranges.antt =====
-- What a loop over a map that returns at the first hit says of the map.
use pbuf_registry.Prelude.{
  String, Bool, false, Option, none, some, ◌≡◌, refl, ap, [], ◌∷◌, ◌==◌, ==_iff, string_eq, any,
  any-none, Bool-cases, inl, inr, arith,
}
use pbuf_registry.Drift.Maps.{Map, lookup, at_key, range}

module _ {ℓ} {V : Type ℓ} where
  any-key :
      (g : String → Bool) (m : Map V) (k : String) (v : V)
      → any (λ q. g q.0) m ≡ false
      → lookup k m ≡ some v
      → g k ≡ false
  any-key g [] k v h e = absurd (ground arith)
  any-key g ((j, u) ∷ m) k v h e = elim (Bool-cases (j == k)) [
    | inl same ↦ let at : j ≡ k = (==_iff j k).0 same in ground (arith, ap g at)
    | inr other ↦ any-key g m k v (ground arith) (ground arith)
  ]

  at_key-false :
      (f : String → V → Bool) (k : String) (o : Option V)
      → ((v : V) → o ≡ some v → f k v ≡ false)
      → at_key f k o ≡ false
  at_key-false f k none h = refl
  at_key-false f k (some v) h = h v refl

  -- The loop returns nothing if no entry of the map is a hit,
  pub range-false :
      (f : String → V → Bool) (m : Map V)
      → ((k : String) (v : V) → lookup k m ≡ some v → f k v ≡ false)
      → range f m ≡ false
  range-false f m h = any-none _ m λ q. at_key-false f q.0 (lookup q.0 m) (h q.0)

  -- and only if none is.
  pub range-lookup :
      (f : String → V → Bool) (m : Map V) (k : String) (v : V)
      → range f m ≡ false
      → lookup k m ≡ some v
      → f k v ≡ false
  range-lookup f m k v h e =
      let miss = any-key (λ j. at_key f j (lookup j m)) m k v h e in rw e at miss
