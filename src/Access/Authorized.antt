-- ===== src/Access/Authorized.antt =====
-- What the middlewares let through.
use pbuf_registry.Prelude.{
  ℕ, String, Bool, true, false, none, some, ◌≡◌, ◌⊎◌, inl, inr, refl, sym, ◌∙◌, Bool-cases, ◌==◌,
  ==_iff, string_eq, first,
}
use pbuf_registry.Database.Tables.{Permission, UserRow, Db}
use pbuf_registry.Database.Errors.{Error, Result, ok, err, permission_denied, token_invalid}
use pbuf_registry.Database.Io.{World, Io, raise, attempt, ◌>>=◌}
use pbuf_registry.Access.Acl.{check_permission}
use pbuf_registry.Access.Checks.{allowed, check_permission_lem, check_permission-Keeps}
use pbuf_registry.Access.Requests.{Request, get_required_permission}
use pbuf_registry.Access.Middleware.{
  Context, Transport, Handler, handle, authorize, permission_checked, get_user_from_context,
  is_admin, bearer, user_found, acl_auth,
}
use pbuf_registry.Access.Users.{authenticates, get_user_by_token}
use pbuf_registry.Database.Triples.{Good, Triple, Triple-weaken, Triple-on_error, Triple-query_row}
use pbuf_registry.Database.Keeps.{Keeps, keeps_rules}

-- The request needs no permission, or the user has it in the tables.
abbrev pub Permitted : ℕ → Permission × String → Db → Type 0
Permitted user (required, name) d = (required ≡ "") ⊎ (allowed user name required d ≡ true)

-- An error is the reply, and the tables are as they were.
abbrev pub Refused {ℓ} : {A : Type ℓ} → World → Result A × World → Type ℓ
Refused w r = (e : Error) × (r.0 ≡ err e) × (r.1.db ≡ w.db)

module _ {ℓ} {A : Type ℓ} (handler : Handler A) (ctx : Context) (req : Request) where
  -- The handler answers, on tables that are as they were.
  abbrev pub Reached : World → Result A × World → Type ℓ
  Reached w r = (w' : World) × (w'.db ≡ w.db) × (r ≡ handler ctx req w')

  pub authorize-Permitted :
      (u : UserRow) (need : Permission × String) (w : World)
      → Refused w (authorize handler ctx req u need w)
        ⊎ (Permitted u.id need w.db × Reached w (authorize handler ctx req u need w))
  unfolding authorize ◌>>=◌ attempt permission_checked raise
  authorize-Permitted u (required, name) w = elim (Bool-cases (required == "")) [
    | inl e ↦ rw e (inr (inl ((==_iff required "").0 e), (w, refl, refl)))
    | inr e ↦ rw e (
        checked (check_permission u.id name required w) (check_permission_lem u.id name required w)
          ((check_permission-Keeps {P = λ d. d ≡ w.db} u.id required name).at w refl))
  ]
    where
      checked :
          (r : Result Bool × World)
          → ((b : Bool) → r.0 ≡ ok b → b ≡ allowed u.id name required w.db)
          → r.1.db ≡ w.db
          → Refused w (permission_checked handler ctx req r.0 r.1)
            ⊎ (Permitted u.id (required, name) w.db
                × Reached w (permission_checked handler ctx req r.0 r.1))
      checked (err x, w') k same = inl (permission_denied, refl, same)
      checked (ok false, w') k same = inl (permission_denied, refl, same)
      checked (ok true, w') k same = inr (inr (sym (k true refl)), (w', same, refl))

-- The context of an authenticated user's request
abbrev pub session : Transport → UserRow → Context
session t u = record { transport = some t; user = some u; admin = some false }

module _ {ℓ} {A : Type ℓ} (handler : Handler A) (req : Request) where
  -- A user's request is refused with the tables as they were, or the operation needs no permission
  -- or the stored permissions of the user allow it, and the handler answers on the same tables: the
  -- entry for the module or, when there is none, the entry for "*" is of the level that the
  -- operation requires.
  pub handle-Permitted :
      (t : Transport) (u : UserRow) (w : World)
      → Refused w (handle handler (session t u) req w)
        ⊎ (Permitted u.id (get_required_permission t.operation req) w.db
            × Reached handler (session t u) req w (handle handler (session t u) req w))
  unfolding handle get_user_from_context is_admin
  handle-Permitted t u w =
      authorize-Permitted handler (session t u) req u (get_required_permission t.operation req) w

module _ {ℓ} {A : Type ℓ} (crypt : String → String → String) (admin_token : String)
    (handler : Handler A) (req : Request) (t : Transport) where
  -- A request as it arrives
  abbrev pub arriving : Context
  arriving = record { transport = some t; user = none; admin = none }

  abbrev pub by_admin : Context
  by_admin = record { transport = some t; user = none; admin = some true }

  -- A handler behind both middlewares
  abbrev pub guarded : Io A
  guarded = acl_auth admin_token (get_user_by_token crypt) (handle handler) arriving req

  -- An active user who has the bearer's token, and the permission that the operation requires
  abbrev pub Served : World → Result A × World → Type ℓ
  Served w r =
      (u : UserRow) × (first (authenticates crypt (bearer t.authorization)) w.db.users ≡ some u)
      × Permitted u.id (get_required_permission t.operation req) w.db
      × Reached handler (session t u) req w r

  abbrev pub Outcome : World → Result A × World → Type ℓ
  Outcome w r =
      Refused w r
      ⊎ (((bearer t.authorization ≡ admin_token) × (r ≡ handler by_admin req w)) ⊎ Served w r)

  get_user_by_token-Keeps :
      (d : Db) → Keeps (λ e. e ≡ d) (get_user_by_token crypt (bearer t.authorization))
  unfolding get_user_by_token
  get_user_by_token-Keeps d = search keeps_rules

  get_user_by_token-Triple :
      Triple
        (λ d. Unit {0})
        (get_user_by_token crypt (bearer t.authorization))
        (λ u d. first (authenticates crypt (bearer t.authorization)) d.users ≡ some u)
  unfolding get_user_by_token
  get_user_by_token-Triple =
      Triple-weaken _ (λ d h. h) (λ u d h. h.1) (Triple-on_error _ _ (Triple-query_row _))

  user_found-Outcome :
      (w : World) (r : Result UserRow × World)
      → r.1.db ≡ w.db
      → Good (λ u d. first (authenticates crypt (bearer t.authorization)) d.users ≡ some u) r
      → Outcome w (user_found (handle handler) arriving req r.0 r.1)
  unfolding user_found raise
  user_found-Outcome w (err e, w') same g = inl (token_invalid, refl, same)
  user_found-Outcome w (ok u, w') same g = elim (handle-Permitted handler req t u w') [
    | inl (e, failed, kept) ↦ inl (e, failed, kept ∙ same)
    | inr (may, (w'', kept, same_reply)) ↦
        inr (inr (u, rw same at g, rw same at may, (w'', kept ∙ same, same_reply)))
  ]

  -- Behind both middlewares a request is refused with the tables as they were, or its bearer has
  -- the admin token, or the bearer's token is an active user's and the operation needs no permission
  -- or the stored permissions of the user allow it; in the last two cases the reply is the handler's
  -- on the same tables.
  pub guarded-Outcome : (w : World) → Outcome w (guarded w)
  unfolding acl_auth raise handle is_admin ◌>>=◌ attempt
  guarded-Outcome w = elim (Bool-cases (t.authorization == "")) [
    | inl e ↦ rw e (inl (token_invalid, refl, refl))
    | inr e ↦ rw e (elim (Bool-cases (bearer t.authorization == admin_token)) [
      | inl b ↦ rw b (inr (inl ((==_iff (bearer t.authorization) admin_token).0 b, refl)))
      | inr b ↦ rw b (
          user_found-Outcome w (get_user_by_token crypt (bearer t.authorization) w)
            ((get_user_by_token-Keeps w.db).at w refl) ((get_user_by_token-Triple).at w tt))
    ])
  ]
