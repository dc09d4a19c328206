-- ===== src/Database/Io.antt =====
-- How the repositories reach the database. PostgreSQL answers each statement in turn: `fails` says
-- that it is refused for a reason outside the tables (a lost connection, a cancelled request, a
-- value that is too long for its column), `uuid` is what gen_random_uuid() gives, `uuids` what it
-- gives for the rows of a statement that inserts several, and `now` is NOW(). `cut` says after how
-- many rows the reading of a result ends because the connection is lost, if it does, and `order` in
-- which order the rows of a result without ORDER BY arrive.
-- A statement that breaks a constraint of the schema is refused too, and changes nothing.
-- Handlers run one after another.
use pbuf_registry.Prelude.{
  ℕ, zero, suc, String, Bool, true, false, Option, none, some, List, [], ◌∷◌, take, length,
  if◌then◌else◌,
}
use pbuf_registry.Database.Tables.{Db}
use pbuf_registry.Database.Errors.{Error, refused, no_rows, wrapped, Result, ok, err}

pub record Answer : Type 0 where
  pub fails : Bool
  pub uuid : ℕ
  pub now : ℕ
  pub salt : String
  pub uuids : ℕ → ℕ
  pub cut : Option ℕ
  pub order : ℕ → ℕ

pub record World : Type 0 where
  pub db : Db
  pub answers : ℕ → Answer
  pub turn : ℕ

abbrev pub Io {ℓ} : Type ℓ → Type ℓ
Io A = World → Result A × World

abbrev pub answer : World → Answer
answer w = w.answers w.turn

abbrev pub advance : World → Db → World
advance w d = record w { db = d; turn = suc w.turn }

module _ {ℓ} {A : Type ℓ} where
  unfoldable pub pure : A → Io A
  pure a w = (ok a, w)

  unfoldable pub raise : Error → Io A
  raise e w = (err e, w)

  abbrev pub answered : World → Option (A × Db) → Result A × World
  answered w none = (err refused, advance w w.db)
  answered w (some (a, d)) = (ok a, advance w d)

  -- pool.Exec, tx.Exec: `none` is a constraint that the new rows would break.
  unfoldable pub execute : (Answer → Db → Option (A × Db)) → Io A
  execute f w =
      if (answer w).fails then (err refused, advance w w.db) else answered w (f (answer w) w.db)

  -- pool.Query with the loop over its rows and the test of rows.Err()
  unfoldable pub query : (Db → A) → Io A
  unfolding execute
  query f = execute (λ a d. some (f d, d))

  -- The rows that rows.Next() gives.
  abbrev pub rows_read : Option ℕ → List A → List A
  rows_read none xs = xs
  rows_read (some n) xs = take n xs

  abbrev pub insert_at : ℕ → A → List A → List A
  insert_at zero x ys = x ∷ ys
  insert_at (suc n) x [] = x ∷ []
  insert_at (suc n) x (y ∷ ys) = y ∷ insert_at n x ys

  -- The rows in one of their orders: every order is one of these.
  abbrev pub arrange : (ℕ → ℕ) → List A → List A
  arrange order [] = []
  arrange order (x ∷ xs) = insert_at (order (length xs)) x (arrange order xs)

  abbrev pub one_row : World → Option A → Result A × World
  one_row w none = (err no_rows, advance w w.db)
  one_row w (some a) = (ok a, advance w w.db)

  -- pool.QueryRow(...).Scan
  unfoldable pub query_row : (Db → Option A) → Io A
  query_row f w = if (answer w).fails then (err refused, advance w w.db) else one_row w (f w.db)

  -- `x, err := m`: the error is a value that the code goes on to test.
  unfoldable pub attempt : Io A → Io (Result A)
  attempt m w = let (r, w') = m w in (ok r, w')

  abbrev pub relabel : (Error → Error) → Result A → Result A
  relabel f (ok a) = ok a
  relabel f (err e) = err (f e)

  -- `if err != nil { return f(err) }`
  unfoldable pub on_error : (Error → Error) → Io A → Io A
  on_error f m w = let (r, w') = m w in (relabel f r, w')

  -- `if err != nil { return fmt.Errorf("s: %w", err) }`
  abbrev pub wrap : String → Io A → Io A
  wrap s = on_error (wrapped s)

  abbrev pub finish : Error → Db → Result A → World → Result A × World
  finish failed before (err e) w = (err e, advance w before)
  finish failed before (ok a) w =
      if (answer w).fails then (err failed, advance w before) else (ok a, advance w w.db)

  -- pool.Begin, the statements, tx.Commit, and the deferred tx.Rollback. The database is what it
  -- was unless the commit succeeds; the outcome of a rollback is only logged.
  unfoldable pub transaction : (begin commit : Error) → Io A → Io A
  transaction begin commit m w =
      if (answer w).fails
      then (err begin, advance w w.db)
      else (let (r, w') = m (advance w w.db) in finish commit w.db r w')

module _ {ℓ} {A : Type ℓ} where
  -- pool.Query with a loop over its rows after which rows.Err() is not asked: a connection that is
  -- lost ends the loop, and the rows before are taken for all
  unfoldable pub scan : (Db → List A) → Io (List A)
  unfolding execute
  scan f = execute (λ n d. some (rows_read n.cut (f d), d))

  -- the same for a SELECT without ORDER BY
  unfoldable pub scan_unordered : (Db → List A) → Io (List A)
  unfolding execute
  scan_unordered f = execute (λ n d. some (rows_read n.cut (arrange n.order (f d)), d))

module _ {ℓ κ} {A : Type ℓ} {B : Type κ} where
  abbrev pub continue : Result A → (A → Io B) → Io B
  continue (ok a) f w = f a w
  continue (err e) f w = (err e, w)

  infixl 5 ◌>>=◌
  unfoldable pub ◌>>=◌ : Io A → (A → Io B) → Io B
  ◌>>=◌ m f w = let (r, w') = m w in continue r f w'

infixl 5 ◌>>◌
abbrev pub ◌>>◌ {ℓ κ} : {A : Type ℓ} {B : Type κ} → Io A → Io B → Io B
m >> k = m >>= λ _. k

-- `if cond { return err }`
abbrev pub unless : Bool → Error → Io (Unit {0})
unless bad e = if bad then raise e else pure tt

-- What holds after a statement, unless it is refused.
abbrev pub After {ℓ κ} : {A : Type ℓ} → (A → Db → Type κ) → Option (A × Db) → Type κ
After Q none = Unit
After Q (some (a, d)) = Q a d

pub After-mono {ℓ κ μ} :
    {A : Type ℓ} {Q : A → Db → Type κ} {R : A → Db → Type μ} (o : Option (A × Db))
    → ((a : A) (d : Db) → Q a d → R a d)
    → After Q o
    → After R o
After-mono none k h = tt
After-mono (some (a, d)) k h = k a d h

pub After-guards :
    {A : Type 0} (Q : A → Db → Type 0) {r : A × Db} (a b : Bool)
    → Q r.0 r.1
    → After Q (if a then none else if b then none else some r)
After-guards Q true b h = tt
After-guards Q false true h = tt
After-guards Q false false h = h
