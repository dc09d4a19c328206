-- ===== src/Servers/Accounts.antt =====
-- What the other handlers of the user server leave behind.
use pbuf_registry.Prelude.{
  Option, none, ℕ, zero, suc, ◌≤◌, String, Bool, true, false, not, ◌&&◌, ◌≡◌, refl, sym, ◌∙◌, ap,
  subst, Option, some, List, [], ◌∷◌, map, length, take, any, any-none, first-passes, Bool-cases,
  inl, inr, ◌==◌, ==_iff, string_eq, nat_eq, arith,
}
use pbuf_registry.Database.Tables.{UserRow, AclRow, Db}
use pbuf_registry.Database.Errors.{ok}
use pbuf_registry.Database.Io.{rows_read, After-guards, Answer, World, Io, pure, on_error, ◌>>=◌}
use pbuf_registry.Database.Queries.{without, affected}
use pbuf_registry.Database.Triples.{
  Triple, Triple-bind, Triple-on_error, Triple-execute, Triple-scan, Triple-query_row,
  Triple-return, Triple-raise,
}
use pbuf_registry.Database.Rows.{Triple-ok, Triple-unless}
use pbuf_registry.Drift.Numbers.{ℤ, pos, negsuc}
use pbuf_registry.Access.Acl.{delete_user_permissions}
use pbuf_registry.Access.Users.{get_user, list_users, updated_row, update_user, delete_user}
use pbuf_registry.Servers.Api.{internal_server}
use pbuf_registry.Servers.Users.{
  ListUsersRequest, ListUsersResponse, page_size_of, to_v1_user, serve_list_users, delete_account,
  serve_delete_user, replace_token, serve_regenerate_token,
}
use pbuf_registry.Servers.Tokens.{require-Triple, generate_token-Triple}

any-without : {A : Type 0} (p : A → Bool) (xs : List A) → any p (without p xs) ≡ false
any-without p [] = refl
any-without p (x ∷ xs) = ground (arith, any-without p xs)

any-without_other :
    {A : Type 0} (p q : A → Bool) (xs : List A) → any p xs ≡ false → any p (without q xs) ≡ false
any-without_other p q [] h = refl
any-without_other p q (x ∷ xs) h = ground (arith, any-without_other p q xs)

length-take : {A : Type 0} (n : ℕ) (xs : List A) → length (take n xs) ≤ n
length-take zero xs = omega arith
length-take (suc n) [] = omega arith
length-take (suc n) (x ∷ xs) = omega (arith, length-take n xs)

length-take_le : {A : Type 0} (n : ℕ) (xs : List A) → length (take n xs) ≤ length xs
length-take_le zero xs = omega arith
length-take_le (suc n) [] = omega arith
length-take_le (suc n) (x ∷ xs) = omega (arith, length-take_le n xs)

length-rows_read :
    {A : Type 0} (cut : Option ℕ) (xs : List A) → length (rows_read cut xs) ≤ length xs
length-rows_read none xs = omega arith
length-rows_read (some n) xs = length-take_le n xs

length-map : {A B : Type 0} (f : A → B) (xs : List A) → length (map f xs) ≡ length xs
length-map f [] = refl
length-map f (x ∷ xs) = ap suc (length-map f xs)

any-map_same :
    {A B : Type 0} (p : B → Bool) (q : A → Bool) (f : A → B) (xs : List A)
    → ((x : A) → p (f x) ≡ q x)
    → any p (map f xs) ≡ any q xs
any-map_same p q f [] k = refl
any-map_same p q f (x ∷ xs) k = rw (k x, any-map_same p q f xs k) refl

any-affected :
    {A : Type 0} (p : A → Bool) (xs : List A) → (affected p xs == 0) ≡ false → any p xs ≡ true
any-affected p [] h = absurd (ground arith)
any-affected p (x ∷ xs) h = ground (arith, any-affected p xs)

abbrev pub owns : ℕ → AclRow → Bool
owns i r = r.user_id == i

abbrev pub is_user : ℕ → UserRow → Bool
is_user i u = u.id == i

-- Neither the user nor a permission of it is stored.
abbrev pub Gone : ℕ → Db → Type 0
Gone i d = (any (owns i) d.acl ≡ false) × (any (is_user i) d.users ≡ false)

delete_user_permissions-Triple :
    (i : ℕ) → Triple (λ _. Unit {0}) (delete_user_permissions i) (λ _ d. any (owns i) d.acl ≡ false)
unfolding delete_user_permissions
delete_user_permissions-Triple i =
    Triple-bind _ _
      (Triple-on_error _ _ (
        Triple-execute {Q = λ _ d. any (owns i) d.acl ≡ false} _
          λ n d _. any-without (owns i) d.acl))
      λ _. Triple-return tt (λ d h. h)

delete_user-Triple :
    (i : ℕ) → Triple (λ d. any (owns i) d.acl ≡ false) (delete_user i) (λ _. Gone i)
unfolding delete_user
delete_user-Triple i =
    Triple-bind _ _
      (Triple-on_error _ _ (
        Triple-execute {Q = λ _. Gone i} _
          λ n d h. (any-without_other (owns i) _ d.acl h, any-without (is_user i) d.users)))
      λ count. Triple-unless (count == 0) _

-- The value that a parameter gives is the one that was found.
at_value :
    {A : Type 0} {Q : A → Db → Type 0} (o : Option ℕ) (i : ℕ) (f : ℕ → Io A)
    → o ≡ some i
    → Triple (λ _. Unit {0}) (f i) Q
    → (k : ℕ) → Triple (λ _. Unit {0} × (o ≡ some k)) (f k) Q
at_value {Q = Q} o i f p t k = record {
  at = λ w h.
      let same : some i ≡ some k = sym p ∙ h.1 in
      let e : i ≡ k = ground arith in (subst (λ x. Triple (λ _. Unit {0}) (f x) Q) e t).at w tt;
}

module _ (parse_uuid : String → Option ℕ) (show_uuid : ℕ → String) (random_text : ℕ → Option String)
    (crypt : String → String → String) where
  delete_account-Triple :
      (id : String) (i : ℕ)
      → Triple
          (λ _. Unit {0})
          (delete_account parse_uuid show_uuid random_text crypt id i)
          (λ _. Gone i)
  unfolding delete_account
  delete_account-Triple id i =
      Triple-bind _ _ (Triple-on_error _ _ (delete_user_permissions-Triple i)) λ _.
        Triple-bind _ _ (Triple-on_error _ _ (delete_user-Triple i))
          λ _. Triple-return id (λ d h. h)

  -- After a DeleteUser that succeeded, the user is not stored, and no permission of it is.
  pub serve_delete_user-Gone :
      (id : String) (i : ℕ) (w : World) (r : String)
      → parse_uuid id ≡ some i
      → (serve_delete_user parse_uuid show_uuid random_text crypt (some id) w).0 ≡ ok r
      → Gone i (serve_delete_user parse_uuid show_uuid random_text crypt (some id) w).1.db
  unfolding serve_delete_user
  serve_delete_user-Gone id i w r p e =
      Triple-ok {P = λ _. Unit {0}} _ w r
        (Triple-bind _ _ (require-Triple _ (parse_uuid id))
          (at_value (parse_uuid id) i _ p (delete_account-Triple id i)))
        tt e

  page_size-bound : (n : ℤ) → page_size_of n ≤ 1000
  unfolding page_size_of
  page_size-bound (pos n) = ground arith
  page_size-bound (negsuc n) = omega arith

  -- ListUsers returns at most 1000 users, and as many as its total says.
  pub serve_list_users-total :
      (q : ListUsersRequest) (w : World) (r : ListUsersResponse)
      → (serve_list_users parse_uuid show_uuid random_text crypt (some q) w).0 ≡ ok r
      → (length r.users ≤ 1000) × (r.total ≡ length r.users)
  unfolding serve_list_users list_users
  serve_list_users-total q w r e =
      Triple-ok {P = λ _. Unit {0}}
        {Q = λ x _. (length x.users ≤ 1000) × (x.total ≡ length x.users)} _ w r
        (Triple-bind _ _ (Triple-on_error _ _ (Triple-on_error _ _ (Triple-scan _)))
          λ us. Triple-return _ λ d h. (bounded us _ h.1.0.cut h.1.1, sym (length-map _ us)))
        tt e
    where
      bounded :
          (us vs : List UserRow) (cut : Option ℕ)
          → us ≡ rows_read cut (take (page_size_of q.page_size) vs)
          → length (map (to_v1_user parse_uuid show_uuid random_text crypt) us) ≤ 1000
      bounded us vs cut h =
          rw (length-map (to_v1_user parse_uuid show_uuid random_text crypt) us, h)
            (omega (
              arith,
              length-rows_read cut (take (page_size_of q.page_size) vs),
              length-take (page_size_of q.page_size) vs,
              page_size-bound q.page_size,
            ))

  -- Of the users with the id, at least one and all authenticate with the token while they are active.
  abbrev pub Renewed : ℕ → String → Db → Type 0
  Renewed i token d =
      (any (is_user i) d.users ≡ true)
      × (any (λ u. is_user i u && not (u.token == crypt token u.token)) d.users ≡ false)

  updated_row-id :
      (u : UserRow) (n : Answer) (v : UserRow)
      → is_user u.id (updated_row crypt u n v) ≡ is_user u.id v
  updated_row-id u n v = elim (Bool-cases (v.id == u.id)) [ inl e ↦ rw e e | inr e ↦ rw e e ]

  abbrev stale : ℕ → String → UserRow → Bool
  stale i token u = is_user i u && not (u.token == crypt token u.token)

  updated_row-stale :
      (u : UserRow) (n : Answer) (v : UserRow)
      → ((t s : String) → crypt t (crypt t s) ≡ crypt t s)
      → stale u.id u.token (updated_row crypt u n v) ≡ false
  updated_row-stale u n v law = elim (Bool-cases (v.id == u.id)) [
    | inl e ↦
        let fits : (crypt u.token n.salt == crypt u.token (crypt u.token n.salt)) ≡ true =
          (==_iff {A = String} (crypt u.token n.salt) (crypt u.token (crypt u.token n.salt))).1
            (sym (law u.token n.salt)) in
        rw (e, fits) (rw e refl)
    | inr e ↦ rw e (rw e refl)
  ]

  update_user-Renewed :
      (u : UserRow)
      → ((t s : String) → crypt t (crypt t s) ≡ crypt t s)
      → Triple (λ _. Unit {0}) (update_user crypt u) (λ _. Renewed u.id u.token)
  unfolding update_user
  update_user-Renewed u law =
      Triple-bind _ _
        (Triple-on_error _ _ (
          Triple-execute {Q = Counted} _ λ n d _. After-guards Counted _ _ (
            (λ c.
                any-map_same (is_user u.id) (is_user u.id) (updated_row crypt u n) d.users
                  (updated_row-id u n)
                ∙ any-affected (is_user u.id) d.users c),
            any-map_same (stale u.id u.token) (λ _. false) (updated_row crypt u n) d.users
                  (λ v. updated_row-stale u n v law)
                ∙ any-none (λ _. false) d.users (λ _. refl),
          )))
        λ count. elim (Bool-cases (count == 0)) [
          | inl z ↦ rw z (Triple-raise _)
          | inr z ↦ rw z (Triple-return tt (λ d h. (h.0 refl, h.1)))
        ]
    where
      Counted : ℕ → Db → Type 0
      Counted count d =
          ((count == 0) ≡ false → any (is_user u.id) d.users ≡ true)
          × (any (stale u.id u.token) d.users ≡ false)

  replace_token-Renewed :
      (i : ℕ)
      → ((t s : String) → crypt t (crypt t s) ≡ crypt t s)
      → Triple (λ _. Unit {0}) (replace_token parse_uuid show_uuid random_text crypt i) (Renewed i)
  unfolding replace_token get_user
  replace_token-Renewed i law =
      Triple-bind _ _ (Triple-on_error _ _ (Triple-on_error _ _ (Triple-query_row _))) λ u.
        Triple-bind _ _ (generate_token-Triple parse_uuid show_uuid random_text crypt u.kind)
          λ token. record {
            at = λ w h.
                let same : u.id ≡ i =
                  (==_iff u.id i).0 (first-passes (is_user i) w.db.users u h.1) in
                (subst
                    (λ x.
                      Triple (λ _. Unit {0})
                        (on_error
                            (λ _.
                              internal_server "USER_UPDATE_FAILED" "failed to update user token")
                            (update_user crypt (record u { token = token }))
                          >>= λ _. pure token)
                        (Renewed x))
                    same
                    (Triple-bind _ _
                      (Triple-on_error _ _ (update_user-Renewed (record u { token = token }) law))
                      λ _. Triple-return token (λ d k. k))).at
                  w tt;
          }

  -- If crypt accepts its own hashes as salts, then after a RegenerateToken that succeeded the user
  -- is stored, and the token that it returned is the one of the user.
  pub serve_regenerate_token-Renewed :
      (id : String) (i : ℕ) (w : World) (token : String)
      → ((t s : String) → crypt t (crypt t s) ≡ crypt t s)
      → parse_uuid id ≡ some i
      → (serve_regenerate_token parse_uuid show_uuid random_text crypt (some id) w).0 ≡ ok token
      → Renewed i token
          (serve_regenerate_token parse_uuid show_uuid random_text crypt (some id) w).1.db
  unfolding serve_regenerate_token
  serve_regenerate_token-Renewed id i w token law p e =
      Triple-ok {P = λ _. Unit {0}} _ w token
        (Triple-bind _ _ (require-Triple _ (parse_uuid id))
          (at_value (parse_uuid id) i _ p (replace_token-Renewed i law)))
        tt e
