-- ===== src/Drift/Compatible.antt =====
-- The rules of compatibility that hasBreakingChangesFromParsed decides.
use pbuf_registry.Prelude.{
  String, Bool, true, false, Option, none, some, ◌≡◌, ◌↔◌, refl, sym, ap, ==_iff, string_eq, arith,
}
use pbuf_registry.Drift.Maps.{Map, lookup, range, is_some}
use pbuf_registry.Drift.Ranges.{range-false, range-lookup}
use pbuf_registry.Drift.Protos.{ProtoBody}
use pbuf_registry.Drift.Extract.{
  extract_messages, extract_services, extract_enums, extract_fields_by_number, extract_rpc_details,
  extract_enum_values_by_number, extract_package, ParsedField, ParsedRpc,
}
use pbuf_registry.Drift.Severity.{
  some_removed, retyped, rpc_changed, same_rpc, body_breaks, bool_eq,
}

-- Every key of the one is a key of the other.
abbrev pub Kept {ℓ} : {V : Type ℓ} → Map V → Map V → Type ℓ
Kept {V = V} previous current =
    (k : String) (v : V) → lookup k previous ≡ some v → is_some (lookup k current) ≡ true

-- A field is still there, with its type.
abbrev pub TypeKept : Map ParsedField → Map ParsedField → Type 0
TypeKept previous current =
    (k : String) (f : ParsedField)
    → lookup k previous ≡ some f
    → (g : ParsedField) × (lookup k current ≡ some g) × (f.type ≡ g.type)

-- A method is still there, with its signature.
abbrev pub SignatureKept : Map ParsedRpc → Map ParsedRpc → Type 0
SignatureKept previous current =
    (k : String) (r : ParsedRpc) → lookup k previous ≡ some r → lookup k current ≡ some r

pub record Compatible (prev curr : ProtoBody) : Type 0 where
  pub same_package : extract_package prev.packages ≡ extract_package curr.packages
  pub messages : Kept (extract_messages prev.messages) (extract_messages curr.messages)
  pub services : Kept (extract_services prev.services) (extract_services curr.services)
  pub enums : Kept (extract_enums prev.enums) (extract_enums curr.enums)
  pub fields :
      TypeKept (extract_fields_by_number prev.messages) (extract_fields_by_number curr.messages)
  pub methods :
      SignatureKept (extract_rpc_details prev.services) (extract_rpc_details curr.services)
  pub enum_values :
      Kept (extract_enum_values_by_number prev.enums) (extract_enum_values_by_number curr.enums)

Kept-iff {ℓ} : {V : Type ℓ} (m n : Map V) → (some_removed m n ≡ false) ↔ Kept m n
Kept-iff m n = (
  λ h k v e. let miss = range-lookup _ m k v h e in ground arith,
  λ h. range-false _ m λ k v e. let there = h k v e in ground arith,
)

retyped_iff :
    (f : ParsedField) (o : Option ParsedField)
    → (retyped f o ≡ false) ↔ ((g : ParsedField) × (o ≡ some g) × (f.type ≡ g.type))
retyped_iff f none = (λ h. absurd (ground arith), λ h. absurd (ground (arith, h.1)))
retyped_iff f (some g) = (
  λ h. (g, refl, ground (arith, ==_iff f.type g.type)),
  λ h.
      let e : g ≡ h.0 = ground (arith, h.1) in
      ground (arith, ==_iff f.type g.type, ap (λ (x : ParsedField). x.type) e, h.2),
)

TypeKept-iff :
    (m n : Map ParsedField) → (range (λ k f. retyped f (lookup k n)) m ≡ false) ↔ TypeKept m n
TypeKept-iff m n = (
  λ h k f e. (retyped_iff f (lookup k n)).0 (range-lookup _ m k f h e),
  λ h. range-false _ m λ k f e. (retyped_iff f (lookup k n)).1 (h k f e),
)

bool_eq_iff : (a b : Bool) → (bool_eq a b ≡ true) ↔ (a ≡ b)
bool_eq_iff true b = (sym, sym)
bool_eq_iff false true = (λ h. absurd (ground arith), λ h. absurd (ground arith))
bool_eq_iff false false = (λ h. refl, λ h. refl)

same_rpc_iff : (r s : ParsedRpc) → (same_rpc r s ≡ true) ↔ (r ≡ s)
same_rpc_iff r s = (
  λ h. ground (
    arith,
    ==_iff r.request_type s.request_type,
    ==_iff r.response_type s.response_type,
    bool_eq_iff r.request_stream s.request_stream,
    bool_eq_iff r.response_stream s.response_stream,
  ),
  λ h. ground (
    arith,
    ==_iff r.request_type s.request_type,
    ==_iff r.response_type s.response_type,
    bool_eq_iff r.request_stream s.request_stream,
    bool_eq_iff r.response_stream s.response_stream,
  ),
)

rpc_changed_iff : (r : ParsedRpc) (o : Option ParsedRpc) → (rpc_changed r o ≡ false) ↔ (o ≡ some r)
rpc_changed_iff r none = (λ h. absurd (ground arith), λ h. absurd (ground arith))
rpc_changed_iff r (some s) = (
  λ h. let e : r ≡ s = (same_rpc_iff r s).0 (ground arith) in ap some (sym e),
  λ h. let e : s ≡ r = ground arith in let k = (same_rpc_iff r s).1 (sym e) in ground arith,
)

SignatureKept-iff :
    (m n : Map ParsedRpc)
    → (range (λ k r. rpc_changed r (lookup k n)) m ≡ false) ↔ SignatureKept m n
SignatureKept-iff m n = (
  λ h k r e. (rpc_changed_iff r (lookup k n)).0 (range-lookup _ m k r h e),
  λ h. range-false _ m λ k r e. (rpc_changed_iff r (lookup k n)).1 (h k r e),
)

-- The checks of hasBreakingChangesFromParsed find nothing exactly if the new file keeps the
-- package, every message, service and enum, every field number with its type, every method with
-- its signature and every enum value number of the old one.
pub body_breaks_iff :
    (prev curr : ProtoBody) → (body_breaks prev curr ≡ false) ↔ Compatible prev curr
unfolding body_breaks
body_breaks_iff prev curr = (
  λ h. record {
    same_package =
        ground (arith, ==_iff (extract_package prev.packages) (extract_package curr.packages));
    messages =
        (Kept-iff (extract_messages prev.messages) (extract_messages curr.messages)).0
          (ground arith);
    services =
        (Kept-iff (extract_services prev.services) (extract_services curr.services)).0
          (ground arith);
    enums = (Kept-iff (extract_enums prev.enums) (extract_enums curr.enums)).0 (ground arith);
    fields =
        (TypeKept-iff (extract_fields_by_number prev.messages)
            (extract_fields_by_number curr.messages)).0
          (ground arith);
    methods =
        (SignatureKept-iff (extract_rpc_details prev.services)
            (extract_rpc_details curr.services)).0
          (ground arith);
    enum_values =
        (Kept-iff (extract_enum_values_by_number prev.enums)
            (extract_enum_values_by_number curr.enums)).0
          (ground arith);
  },
  λ c.
      let a =
        (==_iff (extract_package prev.packages) (extract_package curr.packages)).1 c.same_package in
      let b = (Kept-iff _ _).1 c.messages in
      let d = (Kept-iff _ _).1 c.services in
      let e = (Kept-iff _ _).1 c.enums in
      let f = (TypeKept-iff _ _).1 c.fields in
      let g = (SignatureKept-iff _ _).1 c.methods in
      let i = (Kept-iff _ _).1 c.enum_values in rw (a, b, d, e, f, g, i) refl,
)
