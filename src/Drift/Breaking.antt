-- ===== src/Drift/Breaking.antt =====
-- What hasBreakingChangesFromParsed reports, by what the two files declare.
use pbuf_registry.Prelude.{
  String, Bool, true, ◌||◌, some, ◌≡◌, refl, ◌∙◌, List, [], ◌∷◌, any, any-append, concat, string_eq,
  arith,
}
use pbuf_registry.Drift.Maps.{Map, put}
use pbuf_registry.Drift.Protos.{Message, Messages, bare, message, nil, cons, ProtoBody}
use pbuf_registry.Drift.Extract.{put_nested, put_message, put_messages, ParsedField, ParsedRpc}
use pbuf_registry.Drift.Compatible.{Compatible}
use pbuf_registry.Drift.Puts.{last_of, has_key, any-put}
use pbuf_registry.Drift.Declared.{
  within, names_in, names_of, fields_of, rpcs_of, services_of, enums_of, values_of, package_of,
}

abbrev tested : {V : Type 0} → (String → Bool) → List (String × V) → Bool
tested g ds = any (λ d. g d.0) ds

abbrev nested_key : String → String → String
nested_key prefix k = concat (prefix ∷ "." ∷ k ∷ [])

tested-nested :
    (g : String → Bool) (prefix : String) (ks r : Map Bool)
    → tested g (put_nested prefix ks r) ≡ (tested (λ k. g (nested_key prefix k)) ks || tested g r)
tested-nested g prefix [] r = refl
tested-nested g prefix ((k, v) ∷ ks) r =
    rw
      (
        tested-nested g prefix ks (put (nested_key prefix k) v r),
        any-put g (nested_key prefix k) v r,
      )
      (ground arith)

tested-within :
    (g : String → Bool) (prefix : String) (ks : List (String × Bool))
    → tested g (within prefix ks) ≡ tested (λ k. g (nested_key prefix k)) ks
tested-within g prefix [] = refl
tested-within g prefix ((k, v) ∷ ks) = rw (tested-within g prefix ks) refl

mutual
  unfolding put_message names_in

  tested-message :
      (m : Message) (g : String → Bool) (r : Map Bool)
      → tested g (put_message m r) ≡ (tested g (names_in m) || tested g r)
  tested-message (bare name) g r = any-put g name true r ∙ ground arith
  tested-message (message name parts inner) g r =
      let deep : String → Bool = λ k. g (nested_key name k) in
      rw
        (
          tested-nested g name (put_messages inner []) (put name true r),
          tested-messages inner deep [],
          any-put g name true r,
          tested-within g name (names_of inner),
        )
        (ground arith)

  tested-messages :
      (ms : Messages) (g : String → Bool) (r : Map Bool)
      → tested g (put_messages ms r) ≡ (tested g (names_of ms) || tested g r)
  tested-messages nil g r = refl
  tested-messages (cons m ms) g r =
      rw
        (
          tested-messages ms g (put_message m r),
          tested-message m g r,
          any-append (λ d. g d.0) (names_in m) (names_of ms),
        )
        (ground arith)

module _ {V : Type 0} where
  -- Whatever is declared in the one is declared in the other.
  abbrev pub KeysKept : List (String × V) → List (String × V) → Type 0
  KeysKept ds es = (k : String) → has_key k ds ≡ true → has_key k es ≡ true

-- What the two files declare is compatible.
pub record Safe (prev curr : ProtoBody) : Type 0 where
  pub same_package : package_of prev.packages ≡ package_of curr.packages
  pub messages : KeysKept (names_of prev.messages) (names_of curr.messages)
  pub services : KeysKept (services_of prev.services) (services_of curr.services)
  pub enums : KeysKept (enums_of prev.enums) (enums_of curr.enums)
  pub fields :
      (k : String) (f : ParsedField)
      → last_of k (fields_of "" prev.messages) ≡ some f
      → (g : ParsedField) × (last_of k (fields_of "" curr.messages) ≡ some g) × (f.type ≡ g.type)
  pub methods :
      (k : String) (r : ParsedRpc)
      → last_of k (rpcs_of prev.services) ≡ some r
      → last_of k (rpcs_of curr.services) ≡ some r
  pub enum_values : KeysKept (values_of prev.enums) (values_of curr.enums)
