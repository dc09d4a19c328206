-- ===== src/Database/Triples.antt =====
-- What a repository call ensures when it returns, whatever the answers of the database.
use pbuf_registry.Prelude.{
  List, true, false, Option, none, some, ◌≡◌, refl, Bool-cases, inl, inr, Option-cases, ◌⊎◌,
}
use pbuf_registry.Database.Tables.{Db}
use pbuf_registry.Database.Errors.{Error, Result, ok, err}
use pbuf_registry.Database.Io.{
  scan, scan_unordered, rows_read, arrange, Answer, After, World, Io, answer, advance, one_row,
  relabel, finish, continue, pure, raise, execute, query, query_row, attempt, on_error, transaction,
  ◌>>=◌,
}
use pbuf_registry.Database.Keeps.{Leads, Keeps}

-- `Q` holds of the value and of the tables, if there is a value.
abbrev pub Good {ℓ κ} : {A : Type ℓ} → (A → Db → Type κ) → Result A × World → Type κ
Good Q (ok a, w) = Q a w.db
Good Q (err e, w) = Unit

-- `r` is what QueryRow found by `f`, if it is a row.
abbrev pub RowOf {ℓ} : {A : Type ℓ} → (Db → Option A) → Db → Result A → Type ℓ
RowOf f d (ok a) = f d ≡ some a
RowOf f d (err e) = Unit

pub record Triple {ℓ κ μ} {A : Type ℓ} (P : Db → Type κ) (m : Io A) (Q : A → Db → Type μ)
    : Type (κ ⊔ μ) where
  pub at : (w : World) → P w.db → Good Q (m w)

module _ {ℓ κ} {A : Type ℓ} {P : Db → Type κ} where
  pub Triple-scan :
      (f : Db → List A)
      → Triple P (scan f) (λ xs d. P d × ((n : Answer) × (xs ≡ rows_read n.cut (f d))))
  unfolding scan
  Triple-scan f = record {
    at = λ w h. elim (Bool-cases (answer w).fails) [
      | inl b ↦ rw b tt
      | inr b ↦ rw b (h, (answer w, refl))
    ];
  }

  pub Triple-scan_unordered :
      (f : Db → List A)
      → Triple P
          (scan_unordered f)
          (λ xs d. P d × ((n : Answer) × (xs ≡ rows_read n.cut (arrange n.order (f d)))))
  unfolding scan_unordered
  Triple-scan_unordered f = record {
    at = λ w h. elim (Bool-cases (answer w).fails) [
      | inl b ↦ rw b tt
      | inr b ↦ rw b (h, (answer w, refl))
    ];
  }

module _ {ℓ κ} {A : Type ℓ} {P : Db → Type κ} where
  pub Triple-query : (f : Db → A) → Triple P (query f) (λ a d. P d × (a ≡ f d))
  unfolding query
  Triple-query f = record {
    at = λ w h. elim (Bool-cases (answer w).fails) [ inl b ↦ rw b tt | inr b ↦ rw b (h, refl) ];
  }

  pub Triple-query_row : (f : Db → Option A) → Triple P (query_row f) (λ a d. P d × (f d ≡ some a))
  unfolding query_row
  Triple-query_row f = record {
    at = λ w h. elim (Bool-cases (answer w).fails) [
      | inl b ↦ rw b tt
      | inr b ↦ rw b (found w h (Option-cases (f w.db)))
    ];
  }
    where
      found :
          (w : World)
          → P w.db
          → (f w.db ≡ none) ⊎ ((a : A) × (f w.db ≡ some a))
          → Good (λ a d. P d × (f d ≡ some a)) (one_row w (f w.db))
      found w h (inl e) = rw e tt
      found w h (inr (a, e)) = rw e (h, e)

  pub Triple-pure : (a : A) → Triple P (pure a) (λ b d. P d × (b ≡ a))
  unfolding pure
  Triple-pure a = record { at = λ w h. (h, refl) }

  pub Triple-of-Keeps : (m : Io A) → Keeps P m → Triple P m (λ a d. P d)
  Triple-of-Keeps m k = record { at = λ w h. kept (m w) (k.at w h) }
    where
      kept : (r : Result A × World) → P r.1.db → Good (λ a d. P d) r
      kept (ok a, w) h = h
      kept (err e, w) h = tt

  -- The row, or an error, as a value.
  pub Triple-attempt_row :
      (f : Db → Option A) → Triple P (attempt (query_row f)) (λ r d. P d × RowOf f d r)
  unfolding attempt query_row
  Triple-attempt_row f = record {
    at = λ w h. elim (Bool-cases (answer w).fails) [
      | inl b ↦ rw (b, query_row) (h, tt)
      | inr b ↦ rw (b, query_row) (tried w h (Option-cases (f w.db)))
    ];
  }
    where
      tried :
          (w : World)
          → P w.db
          → (f w.db ≡ none) ⊎ ((a : A) × (f w.db ≡ some a))
          → P (one_row w (f w.db)).1.db × RowOf f (one_row w (f w.db)).1.db (one_row w (f w.db)).0
      tried w h (inl e) = rw e (h, tt)
      tried w h (inr (a, e)) = rw e (h, e)

module _ {ℓ κ μ} {A : Type ℓ} {P : Db → Type κ} {R : Db → Type μ} where
  -- A transaction leads to what its statements establish by their end, or changes nothing.
  pub Leads-transaction :
      (begin commit : Error) (m : Io A)
      → ((d : Db) → P d → R d)
      → Triple P m (λ a d. R d)
      → Leads P (transaction begin commit m) R
  unfolding transaction
  Leads-transaction begin commit m same t = record {
    at = λ w h. elim (Bool-cases (answer w).fails) [
      | inl b ↦ rw (b, transaction) (same w.db h)
      | inr b ↦ rw (b, transaction) (ended w (m (advance w w.db)) h (t.at (advance w w.db) h))
    ];
  }
    where
      ended :
          (w : World) (r : Result A × World)
          → P w.db
          → Good (λ a d. R d) r
          → R (finish commit w.db r.0 r.1).1.db
      ended w (err e, w') h g = same w.db h
      ended w (ok a, w') h g = elim (Bool-cases (answer w').fails) [
        | inl b ↦ rw b (same w.db h)
        | inr b ↦ rw b g
      ]

  pub Leads-then {ν} :
      {B : Type ν} (m : Io A) (f : A → Io B)
      → Leads P m R
      → ((a : A) → Keeps R (f a))
      → Leads P (m >>= f) R
  unfolding ◌>>=◌
  Leads-then m f l k = record { at = λ w h. ends (m w) (l.at w h) }
    where
      ends : (r : Result A × World) → R r.1.db → R (continue r.0 f r.1).1.db
      ends (ok a, w) h = (k a).at w h
      ends (err e, w) h = h

module _ {ℓ κ μ} {A : Type ℓ} {P : Db → Type κ} {Q : A → Db → Type μ} where
  pub Triple-execute :
      (f : Answer → Db → Option (A × Db))
      → ((n : Answer) (d : Db) → P d → After Q (f n d))
      → Triple P (execute f) Q
  unfolding execute
  Triple-execute f k = record {
    at = λ w h. go w h (Bool-cases (answer w).fails) (Option-cases (f (answer w) w.db));
  }
    where
      go :
          (w : World)
          → P w.db
          → ((answer w).fails ≡ true) ⊎ ((answer w).fails ≡ false)
          → (f (answer w) w.db ≡ none) ⊎ ((r : A × Db) × (f (answer w) w.db ≡ some r))
          → Good Q (execute f w)
      go w h (inl b) o = rw (b, execute) tt
      go w h (inr b) (inl e) = rw (b, execute) (rw e tt)
      go w h (inr b) (inr ((a, d'), e)) = rw (b, execute) (rw e (rw e at (k (answer w) w.db h)))

  pub Triple-on_error : (f : Error → Error) (m : Io A) → Triple P m Q → Triple P (on_error f m) Q
  unfolding on_error
  Triple-on_error f m t = record { at = λ w h. kept (m w) (t.at w h) }
    where
      kept : (r : Result A × World) → Good Q r → Good Q (relabel f r.0, r.1)
      kept (ok a, w) g = g
      kept (err e, w) g = tt

  pub Triple-raise : (e : Error) → Triple P (raise e) Q
  unfolding raise
  Triple-raise e = record { at = λ w h. tt }

module _ {ℓ κ μ ν ρ} {A : Type ℓ} {B : Type ν} {P : Db → Type κ} {Q : A → Db → Type μ}
    {R : B → Db → Type ρ} where
  pub Triple-bind :
      (m : Io A) (f : A → Io B)
      → Triple P m Q
      → ((a : A) → Triple (Q a) (f a) R)
      → Triple P (m >>= f) R
  unfolding ◌>>=◌
  Triple-bind m f tm tf = record { at = λ w h. kept (m w) (tm.at w h) }
    where
      kept : (r : Result A × World) → Good Q r → Good R (continue r.0 f r.1)
      kept (ok a, w) g = (tf a).at w g
      kept (err e, w) g = tt

module _ {ℓ κ μ ν ρ} {A : Type ℓ} {B : Type ν} {P : Db → Type κ} {Q : A → Db → Type μ}
    {R : Db → Type ρ} where
  -- What the first part ensures is at hand in the second; a failure of the first leads to `R` too.
  pub Leads-bind :
      (m : Io A) (f : A → Io B)
      → Triple P m Q
      → Leads P m R
      → ((a : A) → Leads (Q a) (f a) R)
      → Leads P (m >>= f) R
  unfolding ◌>>=◌
  Leads-bind m f t l lf = record { at = λ w h. ends (m w) (t.at w h) (l.at w h) }
    where
      ends : (r : Result A × World) → Good Q r → R r.1.db → R (continue r.0 f r.1).1.db
      ends (ok a, w) g k = (lf a).at w g
      ends (err e, w) g k = k

module _ {ℓ κ μ ρ} {A : Type ℓ} {P : Db → Type κ} {Q : Db → Type μ} {R : Db → Type ρ} where
  pub Leads-from : (m : Io A) → ((d : Db) → P d → Q d) → Leads Q m R → Leads P m R
  Leads-from m k l = record { at = λ w h. l.at w (k w.db h) }

  pub Leads-to : (m : Io A) → ((d : Db) → Q d → R d) → Leads P m Q → Leads P m R
  Leads-to m k l = record { at = λ w h. k _ (l.at w h) }

module _ {ℓ κ μ ν ρ} {A : Type ℓ} {B : Type ν} {P : Db → Type κ} {Q : A → Db → Type μ}
    {R : Db → Type ρ} where
  -- A statement whose failure ends the function, and the rest of the function.
  pub Leads-statement :
      (e : Error → Error) (f : Answer → Db → Option (A × Db)) (k : A → Io B)
      → ((d : Db) → P d → R d)
      → ((n : Answer) (d : Db) → P d → After Q (f n d))
      → ((a : A) → Leads (Q a) (k a) R)
      → Leads P (on_error e (execute f) >>= k) R
  unfolding ◌>>=◌ on_error execute
  Leads-statement e f k weaken step rest = record {
    at = λ w h. go w h (Bool-cases (answer w).fails) (Option-cases (f (answer w) w.db));
  }
    where
      go :
          (w : World)
          → P w.db
          → ((answer w).fails ≡ true) ⊎ ((answer w).fails ≡ false)
          → (f (answer w) w.db ≡ none) ⊎ ((r : A × Db) × (f (answer w) w.db ≡ some r))
          → R ((on_error e (execute f) >>= k) w).1.db
      go w h (inl b) o = rw (b, execute) (weaken w.db h)
      go w h (inr b) (inl x) = rw (b, execute) (rw x (weaken w.db h))
      go w h (inr b) (inr ((a, d'), x)) =
          rw (b, execute) (rw x ((rest a).at (advance w d') (rw x at (step (answer w) w.db h))))

module _ {ℓ κ μ ν ρ} {A : Type ℓ} {P : Db → Type κ} {P' : Db → Type ν} {Q : A → Db → Type μ}
    {Q' : A → Db → Type ρ} where
  pub Triple-weaken :
      (m : Io A)
      → ((d : Db) → P' d → P d)
      → ((a : A) (d : Db) → Q a d → Q' a d)
      → Triple P m Q
      → Triple P' m Q'
  Triple-weaken m pre post t = record { at = λ w h. kept (m w) (t.at w (pre w.db h)) }
    where
      kept : (r : Result A × World) → Good Q r → Good Q' r
      kept (ok a, w) g = post a w.db g
      kept (err e, w) g = tt

module _ {ℓ κ μ} {A : Type ℓ} {P : Db → Type κ} {Q : A → Db → Type μ} where
  pub Triple-return : (a : A) → ((d : Db) → P d → Q a d) → Triple P (pure a) Q
  unfolding pure
  Triple-return a k = record { at = λ w h. k w.db h }
