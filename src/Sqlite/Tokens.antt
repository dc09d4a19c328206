-- ===== src/Sqlite/Tokens.antt =====
-- The tokens of users in the SQLite repository.
use pbuf_registry.Prelude.{
  ℕ, String, true, false, not, ◌||◌, ◌≡◌, refl, ◌∙◌, ap, some, List, [], ◌∷◌, ◌++◌, any, map, first,
  first-append_none, Bool-cases, inl, inr, ◌==◌, ==_iff, ==_refl, string_eq, nat_eq, arith,
}
use pbuf_registry.Database.Tables.{UserRow, Db}
use pbuf_registry.Database.Errors.{ok, user_not_found}
use pbuf_registry.Database.Io.{Answer, After, After-guards, World, answer, query_row, on_error}
use pbuf_registry.Database.Triples.{Triple, Triple-bind, Triple-on_error, Triple-execute}
use pbuf_registry.Database.Rows.{Triple-ok, Triple-unless}
use pbuf_registry.Sqlite.Users.{
  is_kind, authenticates, get_user_by_token, new_user, insert_user, create_user, updated_row,
  update_row, update_user,
}

token_of : (r v : UserRow) (t : String) → r.token ≡ t → some r ≡ some v → v.token ≡ t
token_of r v t same h = ground (arith, same, h)

module _ (sha256hex : String → String) where
  abbrev Created : List UserRow → UserRow → UserRow → Db → Type 0
  Created us u v d =
      (n : Answer) × (d.users ≡ us ++ new_user sha256hex u n ∷ [])
      × (v ≡ record u { id = n.uuid; created_at = n.now; updated_at = n.now })

  insert_user-Created :
      (us : List UserRow) (u : UserRow) (n : Answer) (d : Db)
      → d.users ≡ us
      → After (Created us u) (insert_user sha256hex u n d)
  insert_user-Created us u n d h =
      elim (Bool-cases (
        not (is_kind u.kind)
        || any (λ (v : UserRow). v.id == n.uuid || v.name == u.name) d.users)) [
          | inl b ↦ rw b tt
          | inr b ↦ rw b (n, ap (λ x. x ++ new_user sha256hex u n ∷ []) h, refl)
        ]

  create_user-Created :
      (us : List UserRow) (u : UserRow)
      → Triple (λ d. d.users ≡ us) (create_user sha256hex u) (Created us u)
  unfolding create_user
  create_user-Created us u = Triple-on_error _ _ (Triple-execute _ (insert_user-Created us u))

  first-new_user :
      (us : List UserRow) (u : UserRow) (n : Answer)
      → u.is_active ≡ true
      → any (authenticates sha256hex u.token) us ≡ false
      → first (authenticates sha256hex u.token) (us ++ new_user sha256hex u n ∷ [])
        ≡ some (new_user sha256hex u n)
  first-new_user us u n active unused =
      let passes : (sha256hex u.token == sha256hex u.token) ≡ true =
        ==_refl {A = String} (sha256hex u.token) in
      first-append_none (authenticates sha256hex u.token) us (new_user sha256hex u n ∷ []) unused
      ∙ rw (passes, active) refl

  -- After a CreateUser of an active user that succeeded, if no active user had a token of the same
  -- digest, GetUserByToken finds, as soon as the database answers, the user of the id that was
  -- returned, with the name and the type that were given and the digest in place of the token.
  pub create_user-get_user_by_token :
      (u v : UserRow) (w : World)
      → u.is_active ≡ true
      → any (authenticates sha256hex u.token) w.db.users ≡ false
      → (create_user sha256hex u w).0 ≡ ok v
      → (answer (create_user sha256hex u w).1).fails ≡ false
      → (get_user_by_token sha256hex u.token (create_user sha256hex u w).1).0
        ≡ ok (record v { token = sha256hex u.token })
  unfolding get_user_by_token query_row on_error
  create_user-get_user_by_token u v w active unused e f =
      let (n, added, same) = Triple-ok _ w v (create_user-Created w.db.users u) refl e in
      rw f (rw added (rw (first-new_user w.db.users u n active unused) (rw same refl)))

  updated_token :
      (u v : UserRow) (n : Answer) (xs : List UserRow)
      → first (λ (x : UserRow). x.id == u.id) (map (updated_row sha256hex u n) xs) ≡ some v
      → v.token ≡ sha256hex u.token
  updated_token u v n [] h = absurd (ground arith)
  updated_token u v n (x ∷ xs) h = elim (Bool-cases (x.id == u.id)) [
    | inl e ↦ token_of _ v _ refl (rw (e, e) at h)
    | inr e ↦ updated_token u v n xs (rw (e, e) at h)
  ]

  abbrev Updated : UserRow → Db → Type 0
  Updated u d =
      (v : UserRow)
      → first (λ (x : UserRow). x.id == u.id) d.users ≡ some v
      → v.token ≡ sha256hex u.token

  update_user-Updated :
      (u : UserRow) → Triple (λ d. Unit {0}) (update_user sha256hex u) (λ _. Updated u)
  unfolding update_user
  update_user-Updated u =
      Triple-bind _ _
        (Triple-on_error _ _ (
          Triple-execute {Q = λ _. Updated u} (update_row sha256hex u) (λ n d h.
            After-guards (λ (_ : ℕ). Updated u) _ _ (λ v e. updated_token u v n d.users e))))
        λ count. Triple-unless (count == 0) user_not_found

  -- When the digest of a digest is another one, a user who authenticates with a token no longer does
  -- after UpdateUser has succeeded with the user as it was read: the stored digest is hashed again.
  pub update_user-locks_out :
      (u v : UserRow) (token : String) (w : World)
      → authenticates sha256hex token u ≡ true
      → (sha256hex (sha256hex token) == sha256hex token) ≡ false
      → (update_user sha256hex u w).0 ≡ ok tt
      → first (λ (x : UserRow). x.id == u.id) (update_user sha256hex u w).1.db.users ≡ some v
      → authenticates sha256hex token v ≡ false
  update_user-locks_out u v token w h differs e found =
      let now : v.token ≡ sha256hex u.token =
        Triple-ok _ w tt (update_user-Updated u) tt e v found in
      let was : u.token ≡ sha256hex token = ground (arith, h, ==_iff u.token (sha256hex token)) in
      rw (now, was, differs) refl
