-- ===== src/Drift/Versions.antt =====
-- The severity of a file that has not changed.
use pbuf_registry.Prelude.{
  false, some, ◌≡◌, refl, ==_refl, string_eq, ltb, Option-cases, inl, inr, arith,
}
use pbuf_registry.Database.Tables.{info}
use pbuf_registry.Drift.Maps.{Map, lookup, range}
use pbuf_registry.Drift.Ranges.{range-false}
use pbuf_registry.Drift.Protos.{Proto, ProtoBody}
use pbuf_registry.Drift.Extract.{ParsedField, extract_fields_by_number, count_required_fields}
use pbuf_registry.Drift.Severity.{
  renamed, body_may_break, has_breaking_changes, has_potentially_breaking_changes,
  determine_severity,
}
use pbuf_registry.Drift.Compatible.{Compatible, Kept, body_breaks_iff}

Kept-refl {ℓ} : {V : Type ℓ} (m : Map V) → Kept m m
Kept-refl m k v e = rw e refl

Compatible-refl : (p : ProtoBody) → Compatible p p
Compatible-refl p = record {
  same_package = refl;
  messages = Kept-refl _;
  services = Kept-refl _;
  enums = Kept-refl _;
  fields = λ k f e. (f, e, refl);
  methods = λ k r e. e;
  enum_values = Kept-refl _;
}

renamed-same : (m : Map ParsedField) → range (λ k f. renamed f (lookup k m)) m ≡ false
renamed-same m = range-false _ m λ k f e. rw e (rw (==_refl f.name) refl)

-- A file that parses as before has drift of severity info.
pub determine_severity-same : (p : Proto) → determine_severity (some p) (some p) ≡ info
unfolding determine_severity has_breaking_changes has_potentially_breaking_changes body_may_break
determine_severity-same p = elim (Option-cases p.body) [
  | inl e ↦ rw e refl
  | inr (b, e) ↦
      let safe = (body_breaks_iff b b).1 (Compatible-refl b) in
      let kept = renamed-same (extract_fields_by_number b.messages) in
      let count : ltb (count_required_fields b.messages) (count_required_fields b.messages)
          ≡ false =
        ground arith in
      rw e (rw (safe, count, kept) refl)
]
