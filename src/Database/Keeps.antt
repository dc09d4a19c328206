-- ===== src/Database/Keeps.antt =====
-- What repository calls leave behind, whatever the answers of the database, and whether they return
-- or fail: from tables with `P`, `m` leads to tables with `R`. An invariant is kept.
use pbuf_registry.Prelude.{
  List, Bool, true, false, if◌then◌else◌, Option, none, some, ◌≡◌, refl, arith, Bool-cases, inl,
  inr, Option-cases, ◌⊎◌,
}
use pbuf_registry.Database.Tables.{Db}
use pbuf_registry.Database.Errors.{Error, Result, ok, err}
use pbuf_registry.Database.Io.{
  scan, scan_unordered, Answer, After, World, Io, answer, advance, finish, continue, pure, raise,
  execute, query, query_row, attempt, on_error, transaction, ◌>>=◌,
}

pub record Leads {ℓ κ μ} {A : Type ℓ} (P : Db → Type κ) (m : Io A) (R : Db → Type μ)
    : Type (κ ⊔ μ) where
  pub at : (w : World) → P w.db → R (m w).1.db

abbrev pub Keeps {ℓ κ} : {A : Type ℓ} → (Db → Type κ) → Io A → Type κ
Keeps P m = Leads P m P

finish-keeps {ℓ κ} :
    {A : Type ℓ} (P : Db → Type κ) (e : Error) (d : Db) (r : Result A) (w : World)
    → P d
    → P w.db
    → P (finish e d r w).1.db
finish-keeps P e d (err x) w h k = h
finish-keeps P e d (ok a) w h k = elim (Bool-cases (answer w).fails) [
  | inl b ↦ rw b h
  | inr b ↦ rw b k
]

module _ {ℓ κ} {A : Type ℓ} {P : Db → Type κ} where
  pub Keeps-pure : (a : A) → Keeps P (pure a)
  unfolding pure
  Keeps-pure a = record { at = λ w h. h }

  pub Keeps-raise : (e : Error) → Keeps P (raise {A = A} e)
  unfolding raise
  Keeps-raise e = record { at = λ w h. h }

  pub Keeps-query : (f : Db → A) → Keeps P (query f)
  unfolding query
  Keeps-query f = record { at = λ w h. ground arith }

  pub Keeps-query_row : (f : Db → Option A) → Keeps P (query_row f)
  unfolding query_row
  Keeps-query_row f = record { at = λ w h. ground arith }

  -- A statement keeps what its effect on the tables keeps.
  pub Keeps-execute :
      (f : Answer → Db → Option (A × Db))
      → ((n : Answer) (d : Db) → P d → After (λ a d'. P d') (f n d))
      → Keeps P (execute f)
  unfolding execute
  Keeps-execute f k = record {
    at = λ w h. go w h (Bool-cases (answer w).fails) (Option-cases (f (answer w) w.db));
  }
    where
      go :
          (w : World)
          → P w.db
          → ((answer w).fails ≡ true) ⊎ ((answer w).fails ≡ false)
          → (f (answer w) w.db ≡ none) ⊎ ((r : A × Db) × (f (answer w) w.db ≡ some r))
          → P (execute f w).1.db
      go w h (inl b) o = rw (b, execute) h
      go w h (inr b) (inl e) = rw (b, execute) (rw e h)
      go w h (inr b) (inr ((a, d'), e)) = rw (b, execute) (rw e (rw e at (k (answer w) w.db h)))

  pub Keeps-attempt : (m : Io A) → Keeps P m → Keeps P (attempt m)
  unfolding attempt
  Keeps-attempt m k = record { at = k.at }

  pub Keeps-on_error : (f : Error → Error) (m : Io A) → Keeps P m → Keeps P (on_error f m)
  unfolding on_error
  Keeps-on_error f m k = record { at = k.at }

  pub Keeps-if : (b : Bool) (m n : Io A) → Keeps P m → Keeps P n → Keeps P (if b then m else n)
  Keeps-if true m n km kn = km
  Keeps-if false m n km kn = kn

  pub Keeps-transaction :
      (begin commit : Error) (m : Io A) → Keeps P m → Keeps P (transaction begin commit m)
  unfolding transaction
  Keeps-transaction begin commit m k = record {
    at = λ w h. elim (Bool-cases (answer w).fails) [
      | inl b ↦ rw (b, transaction) h
      | inr b ↦
          let (r, w') = m (advance w w.db) in
          rw (b, transaction) (finish-keeps P commit w.db r w' h (k.at (advance w w.db) h))
    ];
  }

continue-keeps {ℓ κ μ} :
    {A : Type ℓ} {B : Type μ} (P : Db → Type κ) (r : Result A) (f : A → Io B) (w : World)
    → ((a : A) → r ≡ ok a → P w.db → P (f a w).1.db)
    → P w.db
    → P (continue r f w).1.db
continue-keeps P (ok a) f w k h = k a refl h
continue-keeps P (err e) f w k h = h

module _ {ℓ κ μ} {A : Type ℓ} {B : Type μ} {P : Db → Type κ} where
  pub Keeps-bind :
      (m : Io A) (f : A → Io B) → Keeps P m → ((a : A) → Keeps P (f a)) → Keeps P (m >>= f)
  unfolding ◌>>=◌
  Keeps-bind m f km kf = record {
    at = λ w h. let (r, w') = m w in continue-keeps P r f w' (λ a _ q. (kf a).at w' q) (km.at w h);
  }

module _ {ℓ κ} {A : Type ℓ} {P : Db → Type κ} where
  pub Keeps-scan : (f : Db → List A) → Keeps P (scan f)
  unfolding scan
  Keeps-scan f = record { at = λ w h. ground arith }

  pub Keeps-scan_unordered : (f : Db → List A) → Keeps P (scan_unordered f)
  unfolding scan_unordered
  Keeps-scan_unordered f = record { at = λ w h. ground arith }

pub ruleset keeps_rules = (
  Keeps-pure, Keeps-raise, Keeps-query, Keeps-scan, Keeps-scan_unordered, Keeps-query_row,
  Keeps-attempt, Keeps-on_error, Keeps-if, Keeps-bind, Keeps-transaction,
)
