-- ===== src/Metadata/Texts.antt =====
-- The functions of Go's package `strings` that internal/utils uses, and sets of strings in sorted
-- order: maps.Keys of a map with the keys `xs`, sorted by sort.Strings. The order of native strings
-- is that of their code points, and so that of the bytes of their UTF-8 encoding.
use Prim.Native.Char.{Char, code}
use Prim.Native.Nat.{Ordering}
use Prim.Native.String.{String, compare}
use pbuf_registry.Prelude.{
  ℕ, Bool, true, false, ◌&&◌, ◌||◌, ◌==◌, nat_eq, string_eq, leb, Option, none, some, List, [], ◌∷◌,
  if◌then◌else◌,
}

-- strings.Split(s, c)[0]
unfoldable pub upto : ℕ → String → String
upto c String.[] = String.[]
upto c (String.◌∷◌ b s) =
    let rest = upto c s in if code b == c then String.[] else String.◌∷◌ b rest

-- The elements of strings.Split(s, c) but the last, joined by `c` again; `none` if there is but one.
unfoldable pub before_last : ℕ → String → Option String
before_last c String.[] = none
before_last c (String.◌∷◌ b s) = elim (before_last c s) [
  | some p ↦ some (String.◌∷◌ b p)
  | none ↦ if code b == c then some String.[] else none
]

-- unicode.IsSpace
abbrev pub is_space : Char → Bool
is_space c =
    let n = code c in
    (leb 9 n && leb n 13)
    || n == 32
    || n == 133
    || n == 160
    || n == 5760
    || (leb 8192 n && leb n 8202)
    || n == 8232
    || n == 8233
    || n == 8239
    || n == 8287
    || n == 12288

unfoldable pub trim_left : (Char → Bool) → String → String
trim_left p String.[] = String.[]
trim_left p (String.◌∷◌ b s) = let rest = trim_left p s in if p b then rest else String.◌∷◌ b s

unfoldable pub trim_right : (Char → Bool) → String → String
trim_right p String.[] = String.[]
trim_right p (String.◌∷◌ b s) =
    let rest = trim_right p s in if rest == "" && p b then String.[] else String.◌∷◌ b rest

-- strings.Trim and strings.TrimSpace
abbrev pub trim : (Char → Bool) → String → String
trim p s = trim_right p (trim_left p s)

abbrev pub is_quote : Char → Bool
is_quote c = code c == 34

abbrev pub is_before : String → String → Bool
is_before s t = elim (compare s t) [ Ordering.lt ↦ true | _ ↦ false ]

unfoldable pub insert_key : String → List String → List String
insert_key x [] = x ∷ []
insert_key x (y ∷ ys) =
    let rest = insert_key x ys in
    if x == y then y ∷ ys else if is_before x y then x ∷ y ∷ ys else y ∷ rest

unfoldable pub sorted_keys : List String → List String
unfolding insert_key
sorted_keys [] = []
sorted_keys (x ∷ xs) = insert_key x (sorted_keys xs)
