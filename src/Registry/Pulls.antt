-- ===== src/Registry/Pulls.antt =====
-- A pull of a stored tag from a database that answers in full.
use mathlib.Core.List.{Perm}
use mathlib.Core.Option
use pbuf_registry.Prelude.{ℕ, String, Option, none, some, ◌≡◌, ◌∙◌, refl, ap, subst, List, arith}
use pbuf_registry.Database.Tables.{ProtoFile, Module, ModuleRow, Db}
use pbuf_registry.Database.Errors.{Result, ok, err}
use pbuf_registry.Database.Queries.{module_by_name, tag_id_by_name}
use pbuf_registry.Database.Orders.{arrange-Perm}
use pbuf_registry.Database.Quiet.{
  Serves, Serves-pure, Serves-scan, Serves-scan_unordered, Serves-query_row, Serves-attempt,
  Serves-on_error, Serves-bind, Serves-weaken,
}
use pbuf_registry.Registry.Modules.{get_module, get_found}
use pbuf_registry.Registry.Tags.{
  get_module_tag_id, tag_id_found, require_tag, the_tag_id, pull_module, pull_found, files_of,
}
use pbuf_registry.Registry.Frozen.{Stored}

mapped :
    (o : Option ModuleRow) (m : ℕ)
    → Option.map (λ (x : ModuleRow). x.id) o ≡ some m
    → (x : ModuleRow) × (o ≡ some x)
mapped none m h = absurd (ground arith)
mapped (some x) m h = (x, refl)

module _ (name tag : String) (m t : ℕ) (files : List ProtoFile) where
  abbrev Here : Db → Type 0
  Here = Stored name tag m t files

  abbrev Got : Option Module → Db → Type 0
  Got o d = ((x : Module) × (o ≡ some x)) × Here d

  get_found-Serves :
      (r : Result ModuleRow) → Serves (λ d. (a : ModuleRow) × (r ≡ ok a) × Here d) (get_found r) Got
  unfolding get_found
  get_found-Serves (ok x) =
      Serves-bind _ _ (Serves-on_error _ _ (Serves-scan {Q = λ _. Here} _ (λ d h. h.2))) λ tags.
        Serves-bind _ _ (Serves-on_error _ _ (Serves-scan {Q = λ _. Here} _ (λ d h. h)))
          λ drafts. Serves-pure _ (λ d h. ((_, refl), h))
  get_found-Serves (err e) = record { at = λ w q (a, bad, h). absurd (ground arith) }

  get_module-Serves : Serves Here (get_module name) Got
  unfolding get_module
  get_module-Serves =
      Serves-bind _ _
        (Serves-attempt _ (
          Serves-query_row {Q = λ _. Here} _
            λ d h. let (x, e) = mapped (module_by_name name d) m h.found in (x, e, h)))
        get_found-Serves

  abbrev Tagged : ℕ → Db → Type 0
  Tagged i d = (i ≡ t) × Here d

  tag_id_found-Serves :
      (r : Result ℕ)
      → Serves
          (λ d. (a : ℕ) × (r ≡ ok a) × Tagged a d)
          (tag_id_found r)
          (λ o d. (o ≡ some t) × Here d)
  unfolding tag_id_found
  tag_id_found-Serves (ok i) =
      Serves-pure _ (λ d h. let e = h.1 in let same = h.2.0 in (ground arith, h.2.1))
  tag_id_found-Serves (err e) = record { at = λ w q (a, bad, h). absurd (ground arith) }

  require_tag-Serves : (o : Option ℕ) → Serves (λ d. (o ≡ some t) × Here d) (require_tag o) Tagged
  unfolding require_tag
  require_tag-Serves none = record { at = λ w q (bad, h). absurd (ground arith) }
  require_tag-Serves (some i) = Serves-pure i (λ d (e, h). (ground arith, h))

  the_tag_id-Serves : Serves Here (the_tag_id name tag) Tagged
  unfolding the_tag_id get_module_tag_id
  the_tag_id-Serves =
      Serves-bind _ _
        (Serves-on_error _ _ (
          Serves-bind _ _
            (Serves-attempt _ (Serves-query_row {Q = Tagged} _ λ d h. (t, known d h, (refl, h))))
            tag_id_found-Serves))
        require_tag-Serves
    where
      known : (d : Db) → Here d → tag_id_by_name name tag d ≡ some t
      known d h = rw h.found h.tagged

  abbrev Whole : Module × List ProtoFile → Db → Type 0
  Whole r d = Perm r.1 files

  pull_found-Serves : (o : Option Module) → Serves (Got o) (pull_found o name tag) Whole
  unfolding pull_found
  pull_found-Serves none = record { at = λ w q h. let bad = h.0.1 in absurd (ground arith) }
  pull_found-Serves (some x) =
      Serves-bind _ _ (Serves-weaken _ (λ d h. h.1) (λ i d h. h) the_tag_id-Serves) λ i.
        Serves-bind _ _
          (Serves-on_error _ _ (
            Serves-scan_unordered {Q = λ fs _. Perm fs files} (files_of i) λ d order h.
              subst (Perm _) (ap (λ n. files_of n d) h.0 ∙ h.1.content)
                (arrange-Perm order (files_of i d))))
          λ fs. Serves-pure _ (λ d h. h)

  -- From a database that answers in full, a pull of a stored tag returns its files, in some order.
  pub pull_module-Serves : Serves Here (pull_module name tag) Whole
  unfolding pull_module
  pull_module-Serves = Serves-bind _ _ (Serves-on_error _ _ get_module-Serves) pull_found-Serves
