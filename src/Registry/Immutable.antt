-- ===== src/Registry/Immutable.antt =====
-- Histories keep the tables well formed, and a stable tag never changes under them.
use pbuf_registry.Prelude.{ℕ, String, List, [], ◌∷◌}
use pbuf_registry.Database.Tables.{ProtoFile, Db}
use pbuf_registry.Database.Io.{World}
use pbuf_registry.Registry.Drafts.{Json}
use pbuf_registry.Registry.Reads.{
  get_module-Keeps, pull_module-Keeps, pull_draft_module-Keeps, get_module_dependencies-Keeps,
}
use pbuf_registry.Registry.WellFormed.{WellFormed}
use pbuf_registry.Registry.Invariant.{
  register_module-WellFormed, delete_module-WellFormed, push_module-WellFormed,
  push_draft_module-WellFormed, add_module_dependencies-WellFormed, delete_module_tag-WellFormed,
  delete_obsolete_draft_tags-WellFormed,
}
use pbuf_registry.Registry.Frozen.{Stored}
use pbuf_registry.Registry.Frozen.Operations.{
  register_module-Stored, delete_module-Stored, push_module-Stored, push_draft_module-Stored,
  add_module_dependencies-Stored, delete_module_tag-Stored, delete_obsolete_draft_tags-Stored,
}
use pbuf_registry.Registry.Calls.{
  Call, registers, gets, deletes, pushes, pushes_draft, adds_dependencies, pulls, pulls_draft,
  deletes_tag, gets_dependencies, compacts, perform, run, Spares, AllSpare,
}

perform-WellFormed :
    (j : Json) (w : World) (c : Call) → WellFormed w.db → WellFormed (perform j w c).db
unfolding perform
perform-WellFormed j w (registers name) = (register_module-WellFormed name).at w
perform-WellFormed j w (gets name) = (get_module-Keeps WellFormed name).at w
perform-WellFormed j w (deletes name) = (delete_module-WellFormed name).at w
perform-WellFormed j w (pushes name tag fs) = (push_module-WellFormed name tag fs).at w
perform-WellFormed j w (pushes_draft name tag fs es) =
    (push_draft_module-WellFormed j name tag fs es).at w
perform-WellFormed j w (adds_dependencies name tag es) =
    (add_module_dependencies-WellFormed name tag es).at w
perform-WellFormed j w (pulls name tag) = (pull_module-Keeps WellFormed name tag).at w
perform-WellFormed j w (pulls_draft name tag) = (pull_draft_module-Keeps WellFormed j name tag).at w
perform-WellFormed j w (deletes_tag name tag) = (delete_module_tag-WellFormed name tag).at w
perform-WellFormed j w (gets_dependencies name tag) =
    (get_module_dependencies-Keeps WellFormed name tag).at w
perform-WellFormed j w compacts = delete_obsolete_draft_tags-WellFormed.at w

-- From well-formed tables, any history of calls, whatever fails in it and wherever, leads to
-- well-formed tables: ids, module names, tags of a module, files of a tag, drafts of a module and
-- edges between tags are unique, every tag has its module and every file has its tag.
pub run-WellFormed :
    (j : Json) (w : World) (calls : List Call) → WellFormed w.db → WellFormed (run j w calls).db
unfolding run
run-WellFormed j w [] h = h
run-WellFormed j w (c ∷ cs) h = run-WellFormed j (perform j w c) cs (perform-WellFormed j w c h)

module _ (name tag : String) (m t : ℕ) (files : List ProtoFile) where
  abbrev Here : Db → Type 0
  Here = Stored name tag m t files

  perform-Stored :
      (j : Json) (w : World) (c : Call)
      → WellFormed w.db
      → Here w.db
      → Spares name tag c
      → Here (perform j w c).db
  unfolding perform
  perform-Stored j w (registers o) v h s = (register_module-Stored name tag m t files o).at w h
  perform-Stored j w (gets o) v h s = (get_module-Keeps Here o).at w h
  perform-Stored j w (deletes o) v h s = (delete_module-Stored name tag m t files o s).at w (v, h)
  perform-Stored j w (pushes o u fs) v h s = (push_module-Stored name tag m t files o u fs).at w h
  perform-Stored j w (pushes_draft o u fs es) v h s =
      (push_draft_module-Stored name tag m t files j o u fs es).at w h
  perform-Stored j w (adds_dependencies o u es) v h s =
      (add_module_dependencies-Stored name tag m t files o u es).at w h
  perform-Stored j w (pulls o u) v h s = (pull_module-Keeps Here o u).at w h
  perform-Stored j w (pulls_draft o u) v h s = (pull_draft_module-Keeps Here j o u).at w h
  perform-Stored j w (deletes_tag o u) v h s =
      (delete_module_tag-Stored name tag m t files o u s).at w (v, h)
  perform-Stored j w (gets_dependencies o u) v h s = (get_module_dependencies-Keeps Here o u).at w h
  perform-Stored j w compacts v h s = (delete_obsolete_draft_tags-Stored name tag m t files).at w h

  -- A stored tag stays as it is under any history of calls that deletes neither it nor its module,
  -- whatever fails in it and wherever: it keeps its id, and its files keep their names, contents
  -- and order.
  pub run-Stored :
      (j : Json) (w : World) (calls : List Call)
      → WellFormed w.db
      → Here w.db
      → AllSpare name tag calls
      → Here (run j w calls).db
  unfolding run
  run-Stored j w [] v h s = h
  run-Stored j w (c ∷ cs) v h s =
      run-Stored j (perform j w c) cs (perform-WellFormed j w c v) (perform-Stored j w c v h s.0)
        s.1
