-- ===== src/Drift/Severity.antt =====
-- determineSeverityFromParsed of driftdetection.go, and what it calls. A parsed file is nil, `none`,
-- when it is missing from the map of parsed files.
use pbuf_registry.Prelude.{
  Bool, true, false, not, ◌||◌, ◌&&◌, ◌==◌, string_eq, Option, none, some, ltb, if◌then◌else◌,
}
use pbuf_registry.Database.Tables.{DriftSeverity, info, warning, critical}
use pbuf_registry.Drift.Maps.{Map, lookup, range, is_some}
use pbuf_registry.Drift.Protos.{Proto, ProtoBody}
use pbuf_registry.Drift.Extract.{
  extract_messages, extract_services, extract_enums, extract_fields_by_number, extract_rpc_details,
  extract_enum_values_by_number, extract_package, count_required_fields, ParsedField, ParsedRpc,
}

-- for key := range previous { if _, exists := current[key]; !exists { return true } }
abbrev pub some_removed {ℓ} : {V : Type ℓ} → Map V → Map V → Bool
some_removed previous current = range (λ k v. not (is_some (lookup k current))) previous

abbrev pub retyped : ParsedField → Option ParsedField → Bool
retyped f none = true
retyped f (some g) = not (f.type == g.type)

abbrev pub bool_eq : Bool → Bool → Bool
bool_eq true b = b
bool_eq false b = not b

abbrev pub same_rpc : ParsedRpc → ParsedRpc → Bool
same_rpc r s =
    (r.request_type == s.request_type)
    && (r.response_type == s.response_type)
    && bool_eq r.request_stream s.request_stream
    && bool_eq r.response_stream s.response_stream

abbrev pub rpc_changed : ParsedRpc → Option ParsedRpc → Bool
rpc_changed r none = true
rpc_changed r (some s) = not (same_rpc r s)

unfoldable pub body_breaks : ProtoBody → ProtoBody → Bool
body_breaks prev curr =
    not (extract_package prev.packages == extract_package curr.packages)
    || some_removed (extract_messages prev.messages) (extract_messages curr.messages)
    || some_removed (extract_services prev.services) (extract_services curr.services)
    || some_removed (extract_enums prev.enums) (extract_enums curr.enums)
    || range (λ k f. retyped f (lookup k (extract_fields_by_number curr.messages)))
        (extract_fields_by_number prev.messages)
    || range (λ k r. rpc_changed r (lookup k (extract_rpc_details curr.services)))
        (extract_rpc_details prev.services)
    || some_removed (extract_enum_values_by_number prev.enums)
        (extract_enum_values_by_number curr.enums)

-- hasBreakingChangesFromParsed
unfoldable pub has_breaking_changes : Proto → Proto → Bool
has_breaking_changes previous current = elim previous.body [
  | none ↦ false
  | some prev ↦ elim current.body [ none ↦ false | some curr ↦ body_breaks prev curr ]
]

abbrev pub renamed : ParsedField → Option ParsedField → Bool
renamed f none = false
renamed f (some g) = not (f.name == g.name)

unfoldable pub body_may_break : ProtoBody → ProtoBody → Bool
body_may_break prev curr =
    ltb (count_required_fields prev.messages) (count_required_fields curr.messages)
    || range (λ k f. renamed f (lookup k (extract_fields_by_number curr.messages)))
        (extract_fields_by_number prev.messages)

-- hasPotentiallyBreakingChangesFromParsed
unfoldable pub has_potentially_breaking_changes : Proto → Proto → Bool
has_potentially_breaking_changes previous current = elim previous.body [
  | none ↦ false
  | some prev ↦ elim current.body [ none ↦ false | some curr ↦ body_may_break prev curr ]
]

abbrev pub severity_between : Proto → Proto → DriftSeverity
severity_between previous current =
    if has_breaking_changes previous current
    then critical
    else if has_potentially_breaking_changes previous current
    then warning
    else info

-- determineSeverityFromParsed
unfoldable pub determine_severity : Option Proto → Option Proto → DriftSeverity
determine_severity none current = warning
determine_severity (some previous) none = warning
determine_severity (some previous) (some current) = severity_between previous current
