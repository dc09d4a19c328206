-- ===== src/Database/Outcomes.antt =====
-- What holds of the value of a call, and what of its error.
use pbuf_registry.Prelude.{
  List, Option, none, some, ◌≡◌, refl, Bool-cases, Option-cases, inl, inr, ◌⊎◌,
}
use pbuf_registry.Database.Tables.{Db}
use pbuf_registry.Database.Errors.{Error, Result, ok, err, refused, no_rows}
use pbuf_registry.Database.Io.{
  Answer, scan, scan_unordered, rows_read, arrange, World, Io, answer, one_row, relabel, continue,
  pure, raise, query, query_row, attempt, on_error, ◌>>=◌,
}
use pbuf_registry.Database.Triples.{Triple}

-- `Q` holds of the value and the tables, or `E` of the error.
abbrev pub Settled : {A : Type 0} → (A → Db → Type 0) → (Error → Type 0) → Result A × World → Type 0
Settled Q E (ok a, w) = Q a w.db
Settled Q E (err e, w) = E e

pub record Outcome {A : Type 0} (P : Db → Type 0) (m : Io A) (Q : A → Db → Type 0)
    (E : Error → Type 0) : Type 0 where
  pub at : (w : World) → P w.db → Settled Q E (m w)

module _ {A : Type 0} {P : Db → Type 0} {Q : A → Db → Type 0} {E : Error → Type 0} where
  pub Outcome-pure : (a : A) → ((d : Db) → P d → Q a d) → Outcome P (pure a) Q E
  unfolding pure
  Outcome-pure a k = record { at = λ w h. k w.db h }

  pub Outcome-raise : (e : Error) → ((d : Db) → P d → E e) → Outcome P (raise e) Q E
  unfolding raise
  Outcome-raise e k = record { at = λ w h. k w.db h }

  pub Outcome-query :
      (f : Db → A) → E refused → ((d : Db) → P d → Q (f d) d) → Outcome P (query f) Q E
  unfolding query
  Outcome-query f r k = record {
    at = λ w h. elim (Bool-cases (answer w).fails) [ inl b ↦ rw b r | inr b ↦ rw b (k w.db h) ];
  }

  pub Outcome-on_error :
      {E' : Error → Type 0} (f : Error → Error) (m : Io A)
      → ((e : Error) → E' e → E (f e))
      → Outcome P m Q E'
      → Outcome P (on_error f m) Q E
  unfolding on_error
  Outcome-on_error {E' = E'} f m k o = record { at = λ w h. go (m w) (o.at w h) }
    where
      go : (r : Result A × World) → Settled Q E' r → Settled Q E (relabel f r.0, r.1)
      go (ok a, w) g = g
      go (err e, w) g = k e g

module _ {A : Type 0} {P : Db → Type 0} {R : List A → Db → Type 0} {E : Error → Type 0} where
  pub Outcome-scan :
      (f : Db → List A)
      → E refused
      → ((n : Answer) (d : Db) → P d → R (rows_read n.cut (f d)) d)
      → Outcome P (scan f) R E
  unfolding scan
  Outcome-scan f r k = record {
    at = λ w h. elim (Bool-cases (answer w).fails) [
      | inl b ↦ rw b r
      | inr b ↦ rw b (k (answer w) w.db h)
    ];
  }

  pub Outcome-scan_unordered :
      (f : Db → List A)
      → E refused
      → ((n : Answer) (d : Db) → P d → R (rows_read n.cut (arrange n.order (f d))) d)
      → Outcome P (scan_unordered f) R E
  unfolding scan_unordered
  Outcome-scan_unordered f r k = record {
    at = λ w h. elim (Bool-cases (answer w).fails) [
      | inl b ↦ rw b r
      | inr b ↦ rw b (k (answer w) w.db h)
    ];
  }

-- A row, or one of the two errors of a look-up that tells whether there is a row.
abbrev pub Looked : {A : Type 0} → (Db → Option A) → Db → Result A → Type 0
Looked f d (ok a) = f d ≡ some a
Looked f d (err e) = (e ≡ refused) ⊎ ((e ≡ no_rows) × (f d ≡ none))

module _ {A : Type 0} {P : Db → Type 0} {E : Error → Type 0} where
  pub Outcome-look :
      (f : Db → Option A) → Outcome P (attempt (query_row f)) (λ r d. P d × Looked f d r) E
  unfolding attempt query_row
  Outcome-look f = record {
    at = λ w h. elim (Bool-cases (answer w).fails) [
      | inl b ↦ rw (b, query_row) (h, inl refl)
      | inr b ↦ rw (b, query_row) (looked w h (Option-cases (f w.db)))
    ];
  }
    where
      looked :
          (w : World)
          → P w.db
          → (f w.db ≡ none) ⊎ ((a : A) × (f w.db ≡ some a))
          → P (one_row w (f w.db)).1.db × Looked f (one_row w (f w.db)).1.db (one_row w (f w.db)).0
      looked w h (inl e) = rw e (h, inr (refl, e))
      looked w h (inr (a, e)) = rw e (h, e)

module _ {A B : Type 0} {P : Db → Type 0} {Q : A → Db → Type 0} {R : B → Db → Type 0}
    {E : Error → Type 0} where
  pub Outcome-bind :
      (m : Io A) (f : A → Io B)
      → Outcome P m Q E
      → ((a : A) → Outcome (Q a) (f a) R E)
      → Outcome P (m >>= f) R E
  unfolding ◌>>=◌
  Outcome-bind m f o k = record { at = λ w h. go (m w) (o.at w h) }
    where
      go : (r : Result A × World) → Settled Q E r → Settled R E (continue r.0 f r.1)
      go (ok a, w) g = (k a).at w g
      go (err e, w) g = g

abbrev pub Value : {A : Type 0} → (A → Type 0) → (Error → Type 0) → Result A → Type 0
Value Q E (ok a) = Q a
Value Q E (err e) = E e

module _ {A : Type 0} {P : Db → Type 0} {Q : A → Type 0} {E : Error → Type 0} where
  -- What is known of a result that the code goes on to test.
  pub Triple-attempt-Value :
      (m : Io A) → Outcome P m (λ a d. Q a) E → Triple P (attempt m) (λ r d. Value Q E r)
  unfolding attempt
  Triple-attempt-Value m o = record { at = λ w h. go (m w) (o.at w h) }
    where
      go : (r : Result A × World) → Settled (λ a d. Q a) E r → Value Q E r.0
      go (ok a, w) g = g
      go (err e, w) g = g
