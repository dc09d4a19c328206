-- ===== src/Drift/Maps.antt =====
-- Go maps with texts for keys.
use pbuf_registry.Prelude.{
  String, Bool, true, false, Option, none, some, List, [], ◌∷◌, ◌==◌, string_eq, any, if◌then◌else◌,
}

abbrev pub Map {ℓ} : Type ℓ → Type ℓ
Map V = List (String × V)

module _ {ℓ} {V : Type ℓ} where
  -- m[k] = v
  abbrev pub put : String → V → Map V → Map V
  put k v [] = (k, v) ∷ []
  put k v ((j, u) ∷ m) = let rest = put k v m in if j == k then (k, v) ∷ m else (j, u) ∷ rest

  -- v, ok := m[k]
  abbrev pub lookup : String → Map V → Option V
  lookup k [] = none
  lookup k ((j, u) ∷ m) = let rest = lookup k m in if j == k then some u else rest

  abbrev pub at_key : (String → V → Bool) → String → Option V → Bool
  at_key f k (some v) = f k v
  at_key f k none = false

  -- for k, v := range m { if f(k, v) { return true } }: does it return?
  abbrev pub range : (String → V → Bool) → Map V → Bool
  range f m = any (λ p. at_key f p.0 (lookup p.0 m)) m

  abbrev pub is_some : Option V → Bool
  is_some (some v) = true
  is_some none = false
