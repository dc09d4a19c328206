-- ===== src/Registry/Calls.antt =====
-- Histories of calls of the registry repository, one after another, each succeeding or failing.
use pbuf_registry.Prelude.{String, ◌≢◌, ◌⊎◌, List, [], ◌∷◌}
use pbuf_registry.Database.Tables.{ProtoFile, Dependency}
use pbuf_registry.Database.Io.{World}
use pbuf_registry.Registry.Modules.{register_module, get_module, delete_module}
use pbuf_registry.Registry.Tags.{push_module, pull_module, delete_module_tag}
use pbuf_registry.Registry.Dependencies.{add_module_dependencies, get_module_dependencies}
use pbuf_registry.Registry.Drafts.{
  Json, push_draft_module, pull_draft_module, delete_obsolete_draft_tags,
}

pub data Call : Type 0 where
  registers gets deletes : String → Call
  pushes : String → String → List ProtoFile → Call
  pushes_draft : String → String → List ProtoFile → List Dependency → Call
  adds_dependencies : String → String → List Dependency → Call
  pulls pulls_draft deletes_tag gets_dependencies : String → String → Call
  compacts : Call

-- The state after a call: what a failed call wrote before it failed stays written.
unfoldable pub perform : Json → World → Call → World
perform j w (registers name) = (register_module name w).1
perform j w (gets name) = (get_module name w).1
perform j w (deletes name) = (delete_module name w).1
perform j w (pushes name tag files) = (push_module name tag files w).1
perform j w (pushes_draft name tag files deps) = (push_draft_module j name tag files deps w).1
perform j w (adds_dependencies name tag deps) = (add_module_dependencies name tag deps w).1
perform j w (pulls name tag) = (pull_module name tag w).1
perform j w (pulls_draft name tag) = (pull_draft_module j name tag w).1
perform j w (deletes_tag name tag) = (delete_module_tag name tag w).1
perform j w (gets_dependencies name tag) = (get_module_dependencies name tag w).1
perform j w compacts = (delete_obsolete_draft_tags w).1

unfoldable pub run : Json → World → List Call → World
run j w [] = w
run j w (c ∷ cs) = run j (perform j w c) cs

-- The call deletes neither the module `name` nor its tag `tag`.
abbrev pub Spares : String → String → Call → Type 0
Spares name tag (deletes other) = name ≢ other
Spares name tag (deletes_tag other other_tag) = (name ≢ other) ⊎ (tag ≢ other_tag)
Spares name tag _ = Unit

abbrev pub AllSpare : String → String → List Call → Type 0
AllSpare name tag [] = Unit
AllSpare name tag (c ∷ cs) = Spares name tag c × AllSpare name tag cs
