-- ===== src/Database/Total.antt =====
-- Calls that return a value whatever the database answers, and change nothing.
use pbuf_registry.Prelude.{◌≡◌, refl, ◌∙◌, arith}
use pbuf_registry.Database.Errors.{Result, ok, err}
use pbuf_registry.Database.Io.{World, Io, pure, attempt, continue, ◌>>=◌}

abbrev pub Returns {ℓ κ} : {A : Type ℓ} → (A → Type κ) → World → Result A × World → Type (ℓ ⊔ κ)
Returns {A = A} Q w r = (a : A) × (r.0 ≡ ok a) × (r.1.db ≡ w.db) × Q a

pub record Surely {ℓ κ} {A : Type ℓ} (Q : A → Type κ) (m : Io A) : Type (ℓ ⊔ κ) where
  pub at : (w : World) → Returns Q w (m w)

module _ {ℓ κ} {A : Type ℓ} {Q : A → Type κ} where
  pub Surely-pure : (a : A) → Q a → Surely Q (pure a)
  unfolding pure
  Surely-pure a q = record { at = λ w. (a, refl, refl, q) }

pub Surely-attempt {ℓ} :
    {A : Type ℓ} (m : Io A)
    → ((w : World) → (m w).1.db ≡ w.db)
    → Surely {A = Result A} (λ _. Unit {0}) (attempt m)
unfolding attempt
Surely-attempt m k = record { at = λ w. ((m w).0, refl, k w, tt) }

module _ {ℓ κ μ ν} {A : Type ℓ} {B : Type μ} {Q : A → Type κ} {R : B → Type ν} where
  pub Surely-bind :
      (m : Io A) (f : A → Io B) → Surely Q m → ((a : A) → Q a → Surely R (f a)) → Surely R (m >>= f)
  unfolding ◌>>=◌
  Surely-bind m f s k = record { at = λ w. go w (m w) (s.at w) }
    where
      go : (w : World) (r : Result A × World) → Returns Q w r → Returns R w (continue r.0 f r.1)
      go w (ok a, w') (b, same, kept, q) =
          let e : b ≡ a = ground arith in
          let (c, found, kept', q') = (k a (rw⁻¹ e q)).at w' in (c, found, kept' ∙ kept, q')
      go w (err x, w') (b, same, kept, q) = absurd (ground arith)

pub Surely-weaken {ℓ κ μ} :
    {A : Type ℓ} {Q : A → Type κ} {R : A → Type μ} (m : Io A)
    → ((a : A) → Q a → R a)
    → Surely Q m
    → Surely R m
Surely-weaken m k s = record {
  at = λ w. let (a, found, kept, q) = s.at w in (a, found, kept, k a q);
}
