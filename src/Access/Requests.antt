-- ===== src/Access/Requests.antt =====
-- What a call needs: getRequiredPermission, extractModuleName and extractModuleID of
-- internal/middleware/authz.go, with strings.Contains and the prefix functions of Go's library.

use Prim.Native.String.{String}
use pbuf_registry.Prelude.{
  Bool, true, false, Option, none, some, ◌||◌, ◌==◌, string_eq, if◌then◌else◌,
}
use pbuf_registry.Database.Tables.{Permission, permission_read, permission_write, permission_admin}

-- What is left of `s` after the prefix `p`, if it has it.
unfoldable pub strip : String → String → Option String
strip s String.[] = some s
strip String.[] (String.◌∷◌ c p) = none
strip (String.◌∷◌ b s) (String.◌∷◌ c p) =
    let rest = strip s p in if String.◌∷◌ b String.[] == String.◌∷◌ c String.[] then rest else none

-- strings.HasPrefix(s, p)
abbrev pub has_prefix : String → String → Bool
has_prefix s p = elim (strip s p) [ some rest ↦ true | none ↦ false ]

-- strings.TrimPrefix(s, p)
abbrev pub trim_prefix : String → String → String
trim_prefix s p = elim (strip s p) [ some rest ↦ rest | none ↦ s ]

-- strings.Contains(s, part)
unfoldable pub contains : String → String → Bool
contains String.[] part = has_prefix String.[] part
contains (String.◌∷◌ c s) part = has_prefix (String.◌∷◌ c s) part || contains s part

-- A request message by its getters: `none` for a getter that its type does not have.
pub record Request : Type 0 where
  pub module_name : Option String
  pub name : Option String
  pub module_id : Option String

-- `if r, ok := req.(getter); ok { if v := r.Get(); v != "" { return v } }`
abbrev pub or_else : Option String → String → String
or_else none default = default
or_else (some v) default = if v == "" then default else v

unfoldable pub extract_module_name : Request → String
extract_module_name req = or_else req.module_name (or_else req.name "*")

unfoldable pub extract_module_id : Request → String
extract_module_id req = or_else req.module_id "*"

-- The cases for `DriftService/`
unfoldable pub drift_permission : String → Request → Permission × String
drift_permission operation req =
    if contains operation "/ListDriftEvents" || contains operation "/GetModuleDriftEvents"
    then (permission_read, extract_module_id req)
    else if contains operation "/GetModuleDependencyDriftStatus"
    then (permission_read, extract_module_name req)
    else if contains operation "/AcknowledgeDriftEvent"
    then (permission_write, "*")
    else (permission_read, "*")

-- The cases for the registry service
unfoldable pub registry_permission : String → Request → Permission × String
registry_permission operation req =
    if contains operation "/ListModules"
      || contains operation "/GetModule"
      || contains operation "/PullModule"
      || contains operation "/GetModuleDependencies"
    then (permission_read, extract_module_name req)
    else if contains operation "/RegisterModule" || contains operation "/PushModule"
    then (permission_write, extract_module_name req)
    else if contains operation "/DeleteModule" || contains operation "/DeleteModuleTag"
    then (permission_admin, extract_module_name req)
    else ("", "")

unfoldable pub get_required_permission : String → Request → Permission × String
get_required_permission operation req =
    if contains operation "UserService/"
    then (permission_admin, "*")
    else if contains operation "MetadataService/"
    then (permission_read, extract_module_name req)
    else if contains operation "DriftService/"
    then drift_permission operation req
    else registry_permission operation req
