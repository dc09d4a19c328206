-- ===== src/Database/Quiet.antt =====
-- Calls against a database that answers every statement: they return a value.
use pbuf_registry.Prelude.{ℕ, false, Option, none, some, List, ◌≡◌, refl, subst, arith}
use pbuf_registry.Database.Tables.{Db}
use pbuf_registry.Database.Errors.{Error, Result, ok, err}
use pbuf_registry.Database.Keeps.{Leads}
use pbuf_registry.Database.Io.{
  Answer, World, Io, answer, advance, finish, continue, pure, execute, query, query_row, attempt,
  on_error, scan, scan_unordered, arrange, relabel, transaction, ◌>>=◌,
}

-- No statement is refused for a reason outside the tables, and no reading of rows is cut short.
abbrev pub Quiet : World → Type 0
Quiet w = (n : ℕ) → ((w.answers n).fails ≡ false) × ((w.answers n).cut ≡ none)

abbrev pub Served {ℓ κ} : {A : Type ℓ} → (A → Db → Type κ) → Result A × World → Type (ℓ ⊔ κ)
Served {A = A} Q r = (a : A) × (r.0 ≡ ok a) × Quiet r.1 × Q a r.1.db

pub record Serves {ℓ κ μ} {A : Type ℓ} (P : Db → Type κ) (m : Io A) (Q : A → Db → Type μ)
    : Type (ℓ ⊔ κ ⊔ μ) where
  pub at : (w : World) → Quiet w → P w.db → Served Q (m w)

module _ {ℓ κ μ} {A : Type ℓ} {P : Db → Type κ} {Q : A → Db → Type μ} where
  pub Serves-pure : (a : A) → ((d : Db) → P d → Q a d) → Serves P (pure a) Q
  unfolding pure
  Serves-pure a k = record { at = λ w q h. (a, refl, q, k w.db h) }

  pub Serves-execute :
      (f : Answer → Db → Option (A × Db))
      → ((n : Answer) (d : Db) → P d → (a : A) × (d' : Db) × (f n d ≡ some (a, d')) × Q a d')
      → Serves P (execute f) Q
  unfolding execute
  Serves-execute f k = record {
    at = λ w q h.
        let (a, d', e, g) = k (answer w) w.db h in
        rw ((q w.turn).0, execute) (rw e (a, refl, q, g));
  }

  pub Serves-query : (f : Db → A) → ((d : Db) → P d → Q (f d) d) → Serves P (query f) Q
  unfolding query
  Serves-query f k = Serves-execute _ λ n d h. (f d, d, refl, k d h)

  pub Serves-query_row :
      (f : Db → Option A)
      → ((d : Db) → P d → (a : A) × (f d ≡ some a) × Q a d)
      → Serves P (query_row f) Q
  unfolding query_row
  Serves-query_row f k = record {
    at = λ w q h. let (a, e, g) = k w.db h in rw ((q w.turn).0, query_row) (rw e (a, refl, q, g));
  }

  pub Serves-transaction :
      (begin commit : Error) (m : Io A) → Serves P m Q → Serves P (transaction begin commit m) Q
  unfolding transaction
  Serves-transaction begin commit m s = record {
    at = λ w q h.
        rw ((q w.turn).0, transaction)
          (ended w.db (m (advance w w.db)) (s.at (advance w w.db) q h));
  }
    where
      ended : (d : Db) (r : Result A × World) → Served Q r → Served Q (finish commit d r.0 r.1)
      ended d (err e, w) (a, found, q, g) = absurd (ground arith)
      ended d (ok b, w) (a, found, q, g) =
          let same : a ≡ b = ground arith in
          rw ((q w.turn).0) (b, refl, q, subst (λ x. Q x w.db) same g)

module _ {ℓ κ μ} {A : Type ℓ} {P : Db → Type κ} {Q : A → Db → Type μ} where
  -- An error is not met.
  pub Serves-attempt :
      (m : Io A) → Serves P m Q → Serves P (attempt m) (λ r d. (a : A) × (r ≡ ok a) × Q a d)
  unfolding attempt
  Serves-attempt m s = record {
    at = λ w q h. let (a, e, q', g) = s.at w q h in ((m w).0, refl, q', (a, e, g));
  }

module _ {ℓ κ μ} {A : Type ℓ} {P : Db → Type κ} {Q : List A → Db → Type μ} where
  pub Serves-scan : (f : Db → List A) → ((d : Db) → P d → Q (f d) d) → Serves P (scan f) Q
  unfolding scan
  Serves-scan f k = record {
    at = λ w q h. rw (q w.turn).0 (rw (q w.turn).1 (f w.db, refl, q, k w.db h));
  }

  pub Serves-scan_unordered :
      (f : Db → List A)
      → ((d : Db) (order : ℕ → ℕ) → P d → Q (arrange order (f d)) d)
      → Serves P (scan_unordered f) Q
  unfolding scan_unordered
  Serves-scan_unordered f k = record {
    at = λ w q h.
        rw (q w.turn).0
          (rw (q w.turn).1 (arrange (answer w).order (f w.db), refl, q, k w.db (answer w).order h));
  }

module _ {ℓ κ μ} {A : Type ℓ} {P : Db → Type κ} {Q : A → Db → Type μ} where
  pub Serves-on_error : (f : Error → Error) (m : Io A) → Serves P m Q → Serves P (on_error f m) Q
  unfolding on_error
  Serves-on_error f m s = record { at = λ w q h. go (m w) (s.at w q h) }
    where
      go : (r : Result A × World) → Served Q r → Served Q (relabel f r.0, r.1)
      go (ok b, w) g = g
      go (err e, w) (a, found, q, g) = absurd (ground arith)

module _ {ℓ κ μ ν ρ} {A : Type ℓ} {B : Type ν} {P : Db → Type κ} {Q : A → Db → Type μ}
    {R : B → Db → Type ρ} where
  pub Serves-bind :
      (m : Io A) (f : A → Io B)
      → Serves P m Q
      → ((a : A) → Serves (Q a) (f a) R)
      → Serves P (m >>= f) R
  unfolding ◌>>=◌
  Serves-bind m f sm sf = record { at = λ w q h. go (m w) (sm.at w q h) }
    where
      go : (r : Result A × World) → Served Q r → Served R (continue r.0 f r.1)
      go (err e, w) (a, found, q, g) = absurd (ground arith)
      go (ok b, w) (a, found, q, g) =
          let same : a ≡ b = ground arith in (sf b).at w q (subst (λ x. Q x w.db) same g)

module _ {ℓ κ μ ν ρ} {A : Type ℓ} {P : Db → Type κ} {P' : Db → Type ν} {Q : A → Db → Type μ}
    {Q' : A → Db → Type ρ} where
  pub Serves-weaken :
      (m : Io A)
      → ((d : Db) → P' d → P d)
      → ((a : A) (d : Db) → Q a d → Q' a d)
      → Serves P m Q
      → Serves P' m Q'
  Serves-weaken m pre post s = record {
    at = λ w q h. let (a, e, q', g) = s.at w q (pre w.db h) in (a, e, q', post a (m w).1.db g);
  }

-- Calls that return a value whatever is answered.
pub record Returns {ℓ} {A : Type ℓ} (m : Io A) : Type ℓ where
  pub at : (w : World) → (a : A) × ((m w).0 ≡ ok a)

module _ {ℓ} {A : Type ℓ} where
  pub Returns-pure : (a : A) → Returns (pure a)
  unfolding pure
  Returns-pure a = record { at = λ w. (a, refl) }

  pub Returns-attempt : (m : Io A) → Returns (attempt m)
  unfolding attempt
  Returns-attempt m = record { at = λ w. ((m w).0, refl) }

module _ {ℓ κ} {A : Type ℓ} {B : Type κ} where
  pub Returns-bind :
      (m : Io A) (f : A → Io B) → Returns m → ((a : A) → Returns (f a)) → Returns (m >>= f)
  unfolding ◌>>=◌
  Returns-bind m f rm rf = record { at = λ w. go (m w) (rm.at w) }
    where
      go :
          (r : Result A × World)
          → ((a : A) × (r.0 ≡ ok a))
          → (b : B) × ((continue r.0 f r.1).0 ≡ ok b)
      go (ok a, w) h = (rf a).at w
      go (err e, w) (a, h) = absurd (ground arith)

pub ruleset returns_rules = (Returns-pure, Returns-attempt, Returns-bind)

-- Against a database that answers, `m` returns a value and leads to tables with `R`.
pub record Ends {ℓ κ μ} {A : Type ℓ} (P : Db → Type κ) (m : Io A) (R : Db → Type μ)
    : Type (ℓ ⊔ κ ⊔ μ) where
  pub at : (w : World) → Quiet w → P w.db → ((a : A) × ((m w).0 ≡ ok a)) × R (m w).1.db

module _ {ℓ κ μ} {A : Type ℓ} {P : Db → Type κ} {R : Db → Type μ} where
  pub Ends-of : (m : Io A) → Returns m → Leads P m R → Ends P m R
  Ends-of m r l = record { at = λ w q h. (r.at w, l.at w h) }

module _ {ℓ κ μ ν ρ} {A : Type ℓ} {B : Type ν} {P : Db → Type κ} {Q : A → Db → Type μ}
    {R : Db → Type ρ} where
  pub Ends-bind :
      (m : Io A) (f : A → Io B) → Serves P m Q → ((a : A) → Ends (Q a) (f a) R) → Ends P (m >>= f) R
  unfolding ◌>>=◌
  Ends-bind m f sm sf = record { at = λ w q h. go (m w) (sm.at w q h) }
    where
      go :
          (r : Result A × World)
          → Served Q r
          → let (s, w') = continue r.0 f r.1 in ((b : B) × (s ≡ ok b)) × R w'.db
      go (err e, w) (a, found, q, g) = absurd (ground arith)
      go (ok b, w) (a, found, q, g) =
          let same : a ≡ b = ground arith in (sf b).at w q (subst (λ x. Q x w.db) same g)
