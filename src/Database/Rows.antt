-- ===== src/Database/Rows.antt =====
-- What QueryRow found, and what an error of it means.
use pbuf_registry.Prelude.{
  subst, refl, Bool, true, false, Option, none, some, ◌≡◌, Bool-cases, inl, inr, Option-cases, ◌⊎◌,
  arith,
}
use pbuf_registry.Database.Tables.{Db}
use pbuf_registry.Database.Errors.{Error, Result, ok, err, is_no_rows}
use pbuf_registry.Database.Io.{
  World, Io, answer, one_row, query_row, attempt, unless, advance, finish, transaction,
}
use pbuf_registry.Database.Triples.{Triple, Good, Triple-raise, Triple-pure, Triple-weaken}

-- A row that was found, or, if the error says so, that there is none.
abbrev pub Found {ℓ} : {A : Type ℓ} → (Db → Option A) → Db → Result A → Type ℓ
Found f d (ok a) = f d ≡ some a
Found f d (err e) = is_no_rows e ≡ true → f d ≡ none

module _ {ℓ κ} {A : Type ℓ} {P : Db → Type κ} where
  pub Triple-attempt-Found :
      (f : Db → Option A) → Triple P (attempt (query_row f)) (λ r d. P d × Found f d r)
  unfolding attempt query_row
  Triple-attempt-Found f = record {
    at = λ w h. elim (Bool-cases (answer w).fails) [
      | inl b ↦ rw (b, query_row) (h, λ e. absurd (ground arith))
      | inr b ↦ rw (b, query_row) (tried w h (Option-cases (f w.db)))
    ];
  }
    where
      tried :
          (w : World)
          → P w.db
          → (f w.db ≡ none) ⊎ ((a : A) × (f w.db ≡ some a))
          → P (one_row w (f w.db)).1.db × Found f (one_row w (f w.db)).1.db (one_row w (f w.db)).0
      tried w h (inl e) = rw e (h, λ _. e)
      tried w h (inr (a, e)) = rw e (h, e)

module _ {ℓ κ μ} {A : Type ℓ} {P : Db → Type κ} {Q : A → Db → Type μ} where
  -- What a call that returned a value has ensured.
  pub Triple-ok :
      (m : Io A) (w : World) (a : A) → Triple P m Q → P w.db → (m w).0 ≡ ok a → Q a (m w).1.db
  Triple-ok m w a t h e = ensured (m w) e (t.at w h)
    where
      ensured : (r : Result A × World) → r.0 ≡ ok a → Good Q r → Q a r.1.db
      ensured (ok b, w') e g = let same : b ≡ a = ground arith in subst (λ x. Q x w'.db) same g
      ensured (err x, w') e g = absurd (ground arith)

-- A guard that returns an error, or nothing.
pub Triple-unless {κ} :
    {P : Db → Type κ} (b : Bool) (e : Error) → Triple P (unless b e) (λ _ d. P d)
Triple-unless true e = Triple-raise e
Triple-unless false e = Triple-weaken _ (λ d h. h) (λ _ d h. h.0) (Triple-pure tt)

module _ {ℓ κ μ} {A : Type ℓ} {P : Db → Type κ} {Q : A → Db → Type μ} where
  -- A transaction that returned a value has committed what its statements ensured.
  pub Triple-transaction :
      (begin commit : Error) (m : Io A) → Triple P m Q → Triple P (transaction begin commit m) Q
  unfolding transaction
  Triple-transaction begin commit m t = record {
    at = λ w h. elim (Bool-cases (answer w).fails) [
      | inl b ↦ rw (b, transaction) tt
      | inr b ↦ rw (b, transaction) (ended w (m (advance w w.db)) (t.at (advance w w.db) h))
    ];
  }
    where
      ended : (w : World) (r : Result A × World) → Good Q r → Good Q (finish commit w.db r.0 r.1)
      ended w (err e, w') g = tt
      ended w (ok a, w') g = elim (Bool-cases (answer w').fails) [
        | inl b ↦ rw b tt
        | inr b ↦ rw b g
      ]

  -- A transaction has done all of it, or nothing.
  pub transaction_outcome :
      (begin commit : Error) (m : Io A) (w : World)
      → P w.db
      → Triple P m Q
      → let (r, w') = transaction begin commit m w in
        ((a : A) × (r ≡ ok a) × Q a w'.db) ⊎ ((e : Error) × (r ≡ err e) × (w'.db ≡ w.db))
  unfolding transaction
  transaction_outcome begin commit m w h t = elim (Bool-cases (answer w).fails) [
    | inl b ↦ rw b (inr (begin, refl, refl))
    | inr b ↦ rw b (ended (m (advance w w.db)) (t.at (advance w w.db) h))
  ]
    where
      ended :
          (r : Result A × World)
          → Good Q r
          → let (s, w') = finish commit w.db r.0 r.1 in
            ((a : A) × (s ≡ ok a) × Q a w'.db) ⊎ ((e : Error) × (s ≡ err e) × (w'.db ≡ w.db))
      ended (err e, w') g = inr (e, refl, refl)
      ended (ok a, w') g = elim (Bool-cases (answer w').fails) [
        | inl b ↦ rw b (inr (commit, refl, refl))
        | inr b ↦ rw b (inl (a, refl, g))
      ]
