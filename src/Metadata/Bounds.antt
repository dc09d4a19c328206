-- ===== src/Metadata/Bounds.antt =====
-- The numbers of fields and enum values, as the metadata and drift detection read them.
use Prim.Native.Char.{code}
use Prim.Native.String.{String}
use pbuf_registry.Prelude.{
  ℕ, ◌-◌, ◌%◌, ◌^◌, ◌<◌, true, ◌≡◌, ap, ◌∙◌, ◌==◌, nat_eq, ltb, leb, Option, none, some, Bool-cases,
  inl, inr, arith,
}
use pbuf_registry.Drift.Numbers.{ℤ, pos, negsuc, digits, to_pos, to_neg, parse_proto_number}
use pbuf_registry.Metadata.Packages.{int_of, minus_int_of, atoi, int32, or_minus_one, field_tag}

int32-pos : (n : ℕ) → n < 2147483648 → int32 (pos n) ≡ pos n
unfolding int32
int32-pos n h = let e : n % 2 ^ 32 ≡ n = omega arith in rw e (ground arith)

int32-negsuc : (n : ℕ) → n < 2147483648 → int32 (negsuc n) ≡ negsuc n
unfolding int32
int32-negsuc n h =
    let e : 2 ^ 32 - 1 - n % 2 ^ 32 ≡ 4294967295 - n = omega arith in
    rw e (elim (Bool-cases (ltb (4294967295 - n) 2147483648)) [
      | inl b ↦ absurd (ground arith)
      | inr b ↦ rw b (ap negsuc (omega arith))
    ])

to_pos-int32 : (o : Option ℕ) (n : ℤ) → to_pos o ≡ some n → int32 (or_minus_one (int_of o)) ≡ n
to_pos-int32 none n h = absurd (ground arith)
to_pos-int32 (some m) n h = elim (Bool-cases (ltb m 2147483648)) [
  | inl b ↦
      let e : pos m ≡ n = ground arith in
      let wide : ltb m (2 ^ 63) ≡ true = ground arith in rw wide (int32-pos m (ground arith) ∙ e)
  | inr b ↦ absurd (ground arith)
]

to_neg-int32 :
    (o : Option ℕ) (n : ℤ) → to_neg o ≡ some n → int32 (or_minus_one (minus_int_of o)) ≡ n
to_neg-int32 none n h = absurd (ground arith)
to_neg-int32 (some m) n h = elim (Bool-cases (m == 0)) [
  | inl z ↦ let e : pos 0 ≡ n = ground arith in rw z (int32-pos 0 (omega arith) ∙ e)
  | inr z ↦ elim (Bool-cases (leb m 2147483648)) [
    | inl b ↦
        let e : negsuc (m - 1) ≡ n = ground arith in
        let wide : leb m (2 ^ 63) ≡ true = ground arith in
        rw (z, wide) (int32-negsuc (m - 1) (ground arith) ∙ e)
    | inr b ↦ absurd (ground arith)
  ]
]

-- Where drift detection reads a number from a text, the metadata has the same number.
pub field_tag-parse_proto_number :
    (s : String) (n : ℤ) → parse_proto_number s ≡ some n → field_tag s ≡ n
unfolding field_tag atoi parse_proto_number
field_tag-parse_proto_number String.[] n h = absurd (ground arith)
field_tag-parse_proto_number (String.◌∷◌ c s) n h = elim (Bool-cases (code c == 43)) [
  | inl plus ↦ rw plus (to_pos-int32 (digits s) n (rw plus at h))
  | inr bare ↦ elim (Bool-cases (code c == 45)) [
    | inl minus ↦ rw (bare, minus) (to_neg-int32 (digits s) n (rw minus at (rw bare at h)))
    | inr other ↦
        rw (bare, other) (to_pos-int32 (digits (String.◌∷◌ c s)) n (rw other at (rw bare at h)))
  ]
]
