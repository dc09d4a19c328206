-- ===== src/Database/Orders.antt =====
-- What is read of the rows of a result: some of them, or, unless the reading is cut short, all of them,
-- in any order.
use mathlib.Core.List.{Perm}
use mathlib.Core.List.Perm
use pbuf_registry.Prelude.{ℕ, zero, suc, Option, none, some, List, [], ◌∷◌, ◌++◌, take, length}
use pbuf_registry.Database.Io.{rows_read, insert_at, arrange}

-- `xs` are elements of `ys`, in any order, each as often as in `ys` or less often.
abbrev pub Part {ℓ} : {A : Type ℓ} → List A → List A → Type ℓ
Part xs ys = (rest : List _) × Perm (xs ++ rest) ys

module _ {ℓ} {A : Type ℓ} where
  insert_at-Perm : (n : ℕ) (x : A) (ys : List A) → Perm (insert_at n x ys) (x ∷ ys)
  insert_at-Perm zero x ys = Perm.refl _
  insert_at-Perm (suc n) x [] = Perm.refl _
  insert_at-Perm (suc n) x (y ∷ ys) =
      Perm.trans (Perm.cons y (insert_at-Perm n x ys)) (Perm.swap x y ys)

  pub arrange-Perm : (order : ℕ → ℕ) (xs : List A) → Perm (arrange order xs) xs
  arrange-Perm order [] = Perm.refl _
  arrange-Perm order (x ∷ xs) =
      Perm.trans (insert_at-Perm (order (length xs)) x (arrange order xs))
        (Perm.cons x (arrange-Perm order xs))

  take-Part : (n : ℕ) (xs : List A) → Part (take n xs) xs
  take-Part zero xs = (xs, Perm.refl _)
  take-Part (suc n) [] = ([], Perm.refl _)
  take-Part (suc n) (x ∷ xs) = let (rest, p) = take-Part n xs in (rest, Perm.cons x p)

  append_nil-Perm : (xs : List A) → Perm (xs ++ []) xs
  append_nil-Perm [] = Perm.refl _
  append_nil-Perm (x ∷ xs) = Perm.cons x (append_nil-Perm xs)

  rows_read-Part : (cut : Option ℕ) (xs : List A) → Part (rows_read cut xs) xs
  rows_read-Part none xs = ([], append_nil-Perm xs)
  rows_read-Part (some n) xs = take-Part n xs

  pub read-Part :
      (cut : Option ℕ) (order : ℕ → ℕ) (xs : List A) → Part (rows_read cut (arrange order xs)) xs
  read-Part cut order xs =
      let (rest, p) = rows_read-Part cut (arrange order xs) in
      (rest, Perm.trans p (arrange-Perm order xs))
