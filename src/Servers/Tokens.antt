-- ===== src/Servers/Tokens.antt =====
-- The tokens that the user server hands out authenticate their users.
use pbuf_registry.Prelude.{
  ℕ, String, true, false, not, ◌||◌, ◌≡◌, refl, sym, ◌∙◌, ap, Option, none, some, List, [], ◌∷◌,
  ◌++◌, any, first, first-append_none, Bool-cases, inl, inr, ◌==◌, ==_iff, string_eq, nat_eq,
}
use pbuf_registry.Database.Tables.{UserRow, Db}
use pbuf_registry.Database.Errors.{Error, ok}
use pbuf_registry.Database.Io.{Answer, After, World, answer, query_row, on_error}
use pbuf_registry.Database.Triples.{
  Triple, Good, Triple-bind, Triple-on_error, Triple-execute, Triple-return, Triple-raise,
  Triple-weaken,
}
use pbuf_registry.Database.Rows.{Triple-ok}
use pbuf_registry.Access.Users.{
  is_kind, authenticates, get_user_by_token, new_user, insert_user, create_user,
}
use pbuf_registry.Servers.Api.{require}
use pbuf_registry.Servers.Users.{
  V1User, CreateUserRequest, token_text, generate_token, unsaved_user, create_named,
  serve_create_user,
}

pub require-Triple {ℓ κ} :
    {A : Type ℓ} {P : Db → Type κ} (e : Error) (o : Option A)
    → Triple P (require e o) (λ a d. P d × (o ≡ some a))
unfolding require
require-Triple e none = Triple-raise e
require-Triple e (some a) = Triple-return a (λ d h. (h, refl))

module _ (parse_uuid : String → Option ℕ) (show_uuid : ℕ → String) (random_text : ℕ → Option String)
    (crypt : String → String → String) where
  pub generate_token-Triple {κ} :
      {P : Db → Type κ} (kind : String)
      → Triple P (generate_token parse_uuid show_uuid random_text crypt kind) (λ _. P)
  unfolding generate_token
  generate_token-Triple {P = P} kind = record { at = λ w h. of w h (random_text w.turn) }
    where
      of : (w : World) → P w.db → (o : Option String) → Good (λ _. P) (token_text kind o, w)
      of w h none = tt
      of w h (some s) = h

  -- A user of the name has been added, with the hash of the token.
  record Added (us : List UserRow) (name : String) (r : V1User × String) (d : Db) : Type 0 where
    row : UserRow
    salt : String
    added : d.users ≡ us ++ row ∷ []
    hashed : row.token ≡ crypt r.1 salt
    active : row.is_active ≡ true
    named : row.name ≡ name
    shown : show_uuid row.id ≡ r.0.id

  abbrev Created : List UserRow → UserRow → UserRow → Db → Type 0
  Created us u v d =
      (n : Answer) × (d.users ≡ us ++ new_user crypt u n ∷ [])
      × (v ≡ record u { id = n.uuid; created_at = n.now; updated_at = n.now })

  insert_user-Created :
      (us : List UserRow) (u : UserRow) (n : Answer) (d : Db)
      → d.users ≡ us
      → After (Created us u) (insert_user crypt u n d)
  insert_user-Created us u n d h =
      elim (Bool-cases (
        not (is_kind u.kind)
        || any (λ (v : UserRow). v.id == n.uuid || v.name == u.name) d.users)) [
          | inl b ↦ rw b tt
          | inr b ↦ rw b (n, ap (λ x. x ++ new_user crypt u n ∷ []) h, refl)
        ]

  create_named-Added :
      (us : List UserRow) (name kind : String)
      → Triple
          (λ d. d.users ≡ us)
          (create_named parse_uuid show_uuid random_text crypt name kind)
          (Added us name)
  unfolding create_named create_user
  create_named-Added us name kind = elim (Bool-cases (name == "")) [
    | inl b ↦ rw b (Triple-raise _)
    | inr b ↦ rw b (
        Triple-bind _ _ (generate_token-Triple kind) λ token.
          Triple-bind _ _
            (Triple-on_error _ _ (
              Triple-on_error _ _ (
                Triple-execute _ (
                  insert_user-Created us
                    (unsaved_user parse_uuid show_uuid random_text crypt name token kind)))))
            λ v. Triple-return _ λ d (n, e, same). record {
              row =
                  new_user crypt
                    (unsaved_user parse_uuid show_uuid random_text crypt name token kind) n;
              salt = n.salt;
              added = e;
              hashed = refl;
              active = refl;
              named = refl;
              shown = ap (λ (x : UserRow). show_uuid x.id) (sym same);
            })
  ]

  serve_create_user-Added :
      (us : List UserRow) (q : CreateUserRequest)
      → Triple
          (λ d. d.users ≡ us)
          (serve_create_user parse_uuid show_uuid random_text crypt (some q))
          (Added us q.name)
  unfolding serve_create_user
  serve_create_user-Added us q =
      Triple-bind _ _ (require-Triple _ _)
        λ kind. Triple-weaken _ (λ d h. h.0) (λ _ d h. h) (create_named-Added us q.name kind)

  first-Added :
      (us : List UserRow) (name : String) (r : V1User × String) (d : Db)
      → ((t s : String) → crypt t (crypt t s) ≡ crypt t s)
      → (h : Added us name r d) → any (authenticates crypt r.1) us ≡ false
      → first (authenticates crypt r.1) d.users ≡ some h.row
  first-Added us name r d law h unused =
      let same : h.row.token ≡ crypt r.1 h.row.token =
        h.hashed ∙ sym (ap (crypt r.1) h.hashed ∙ law r.1 h.salt) in
      let passes : (h.row.token == crypt r.1 h.row.token) ≡ true =
        (==_iff h.row.token (crypt r.1 h.row.token)).1 same in
      rw h.added (
        first-append_none (authenticates crypt r.1) us (h.row ∷ []) unused
        ∙ rw (passes, h.active) refl)

  found_by_token :
      (us : List UserRow) (name : String) (r : V1User × String) (w : World)
      → ((t s : String) → crypt t (crypt t s) ≡ crypt t s)
      → Added us name r w.db
      → any (authenticates crypt r.1) us ≡ false
      → (answer w).fails ≡ false
      → (row : UserRow) × ((get_user_by_token crypt r.1 w).0 ≡ ok row)
        × (row.name ≡ name)
        × (show_uuid row.id ≡ r.0.id)
  unfolding get_user_by_token query_row on_error
  found_by_token us name r w law h unused f =
      (h.row, rw f (rw (first-Added us name r w.db law h unused) refl), h.named, h.shown)

  abbrev pub after_create : CreateUserRequest → World → World
  after_create q w = (serve_create_user parse_uuid show_uuid random_text crypt (some q) w).1

  -- If crypt accepts its own hashes as salts, and no stored user authenticates with the token that
  -- CreateUser returns, then afterwards the user who authenticates with the token, as soon as the
  -- database answers, is the one that was created.
  pub create_user-authenticates :
      (q : CreateUserRequest) (w : World) (r : V1User × String)
      → ((t s : String) → crypt t (crypt t s) ≡ crypt t s)
      → any (authenticates crypt r.1) w.db.users ≡ false
      → (serve_create_user parse_uuid show_uuid random_text crypt (some q) w).0 ≡ ok r
      → (answer (after_create q w)).fails ≡ false
      → (row : UserRow) × ((get_user_by_token crypt r.1 (after_create q w)).0 ≡ ok row)
        × (row.name ≡ q.name)
        × (show_uuid row.id ≡ r.0.id)
  create_user-authenticates q w r law unused e f =
      found_by_token w.db.users q.name r _ law
        (Triple-ok _ w r (serve_create_user-Added w.db.users q) refl e) unused f
