-- ===== src/Servers/Pushes.antt =====
-- A push through the registry server, and pulls through it.
use pbuf_registry.Prelude.{
  ℕ, String, false, ◌≡◌, Option, none, some, List, Bool-cases, inl, inr, string_eq, sym, arith,
  refl, subst, ◌==◌,
}
use pbuf_registry.Database.Tables.{ProtoFile, Module, Db}
use pbuf_registry.Database.Errors.{Error, ok, err}
use pbuf_registry.Database.Io.{World, ◌>>=◌, raise, pure}
use pbuf_registry.Database.Keeps.{Keeps, keeps_rules}
use pbuf_registry.Database.Triples.{Triple, Triple-bind, Triple-return, Triple-of-Keeps}
use pbuf_registry.Database.Rows.{Triple-ok, Triple-unless}
use mathlib.Core.List.{Perm}
use pbuf_registry.Database.Quiet.{Quiet, Serves, Serves-pure, Serves-bind, Serves-attempt}
use pbuf_registry.Registry.Pulls.{pull_module-Serves}
use pbuf_registry.Registry.Drafts.{Json}
use pbuf_registry.Registry.WellFormed.{WellFormed}
use pbuf_registry.Registry.Invariant.{
  push_module-WellFormed, add_module_dependencies-WellFormed, push_draft_module-WellFormed,
}
use pbuf_registry.Registry.Frozen.{Stored}
use pbuf_registry.Registry.Frozen.Operations.{add_module_dependencies-Stored}
use pbuf_registry.Registry.Calls.{Call, run, AllSpare}
use pbuf_registry.Registry.Immutable.{run-Stored}
use pbuf_registry.Registry.Pushed.{push_module-Pushed}
use pbuf_registry.Metadata.Parsers.{Parser}
use pbuf_registry.Servers.Registry.{
  PushModuleRequest, no_name, no_tag, refuse_invalid, push_stable, serve_push_module, stable_pulled,
  serve_pull_module,
}

refuse_invalid-Keeps {κ} : {P : Db → Type κ} (o : Option Error) → Keeps P (refuse_invalid o)
refuse_invalid-Keeps none = search keeps_rules
refuse_invalid-Keeps (some e) = search keeps_rules

push_stable-WellFormed : (q : PushModuleRequest) → Keeps WellFormed (push_stable q)
unfolding push_stable
push_stable-WellFormed q =
    search (keeps_rules, push_module-WellFormed, add_module_dependencies-WellFormed)

abbrev Published : String → String → List ProtoFile → Db → Type 0
Published name tag fs d = (m : ℕ) × (t : ℕ) × Stored name tag m t fs d

push_stable-Published :
    (q : PushModuleRequest)
    → Triple WellFormed (push_stable q) (λ _. Published q.module_name q.tag q.protofiles)
unfolding push_stable
push_stable-Published q = Triple-bind _ _ (push_module-Pushed q.module_name q.tag q.protofiles) λ x.
    Triple-bind _ _
      (Triple-of-Keeps _ (record {
        at = λ w (t, h). (
          t,
          (add_module_dependencies-Stored q.module_name q.tag x.id t q.protofiles q.module_name
                q.tag q.dependencies).at
              w h,
        );
      }))
      λ _. Triple-return x (λ d (t, h). (x.id, t, h))

serve_pull_module-Serves :
    (j : Json) (name tag : String) (m t : ℕ) (files : List ProtoFile)
    → (name == "") ≡ false
    → (tag == "") ≡ false
    → Serves (Stored name tag m t files) (serve_pull_module j name tag) (λ r d. Perm r.1 files)
unfolding serve_pull_module stable_pulled pure
serve_pull_module-Serves j name tag m t files n g = rw n (
    rw g (
      Serves-bind {Q = λ _. Stored name tag m t files} _ _ (Serves-pure tt (λ d h. h)) λ _.
        Serves-bind {Q = λ _. Stored name tag m t files} _ _ (Serves-pure tt (λ d h. h)) λ _.
          Serves-bind _ _ (Serves-attempt _ (pull_module-Serves name tag m t files))
            λ r. record { at = λ w quiet (x, e, whole). rw e (x, refl, quiet, whole) }))

module _ {Ast : Type 0} (parser : Parser Ast) (j : Json) where
  serve_push_module-WellFormed :
      (q : PushModuleRequest) → Keeps WellFormed (serve_push_module parser j q)
  unfolding serve_push_module
  serve_push_module-WellFormed q =
      search
        (keeps_rules, refuse_invalid-Keeps, push_stable-WellFormed, push_draft_module-WellFormed)

  serve_push_module-Published :
      (q : PushModuleRequest)
      → q.is_draft ≡ false
      → Triple WellFormed
          (serve_push_module parser j q)
          (λ _. Published q.module_name q.tag q.protofiles)
  unfolding serve_push_module push_stable
  serve_push_module-Published q stable = Triple-bind _ _ (Triple-unless _ no_name) λ _.
      Triple-bind _ _ (Triple-unless _ no_tag) λ _.
        Triple-bind _ _ (Triple-of-Keeps _ (refuse_invalid-Keeps _))
          λ _. rw stable (push_stable-Published q)

  pushed_names :
      (q : PushModuleRequest) (w : World) (x : Module)
      → (serve_push_module parser j q w).0 ≡ ok x
      → ((q.module_name == "") ≡ false) × ((q.tag == "") ≡ false)
  unfolding serve_push_module ◌>>=◌ raise pure
  pushed_names q w x e = elim (Bool-cases (q.module_name == "")) [
    | inl b ↦ let bad : err no_name ≡ ok x = rw b at e in absurd (ground arith)
    | inr b ↦ elim (Bool-cases (q.tag == "")) [
      | inl c ↦ let bad : err no_tag ≡ ok x = rw c at (rw b at e) in absurd (ground arith)
      | inr c ↦ (b, c)
    ]
  ]

  -- From well-formed tables, after a push of a stable tag through the server that succeeds, and any
  -- calls of the repository, failing or not, that delete neither the tag nor its module, a pull
  -- through the server from a database that answers every statement in full succeeds, and returns
  -- exactly the pushed files, in some order.
  pub serve_push-serve_pull :
      (q : PushModuleRequest) (w v : World) (calls : List Call) (x : Module)
      → WellFormed w.db
      → AllSpare q.module_name q.tag calls
      → q.is_draft ≡ false
      → (serve_push_module parser j q w).0 ≡ ok x
      → v.db ≡ (run j (serve_push_module parser j q w).1 calls).db
      → Quiet v
      → (r : Module × List ProtoFile) × ((serve_pull_module j q.module_name q.tag v).0 ≡ ok r)
        × Perm r.1 q.protofiles
  serve_push-serve_pull q w v calls x well s stable e now quiet =
      let w1 = (serve_push_module parser j q w).1 in
      let (m, t, h) = Triple-ok _ w x (serve_push_module-Published q stable) well e in
      let well1 = (serve_push_module-WellFormed q).at w well in
      let kept = run-Stored q.module_name q.tag m t q.protofiles j w1 calls well1 h s in
      let (n, g) = pushed_names q w x e in
      let (r, found, _, whole) =
        (serve_pull_module-Serves j q.module_name q.tag m t q.protofiles n g).at v quiet
          (subst (Stored q.module_name q.tag m t q.protofiles) (sym now) kept) in
      (r, found, whole)
