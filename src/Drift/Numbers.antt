-- ===== src/Drift/Numbers.antt =====
-- The numbers of fields and enum values: strconv.ParseInt(s, 10, 32) and strconv.FormatInt(n, 10).
use Prim.Native.Char.{Char, code}
use Prim.Native.String.{String}
use pbuf_registry.Prelude.{
  ℕ, zero, suc, ◌+◌, ◌-◌, ◌*◌, ◌/◌, ◌%◌, ◌^◌, Bool, Option, none, some, ◌==◌, string_eq, nat_eq,
  ltb, leb, ◌&&◌, if◌then◌else◌, concat, [], ◌∷◌,
}

-- `negsuc n` is -(n + 1).
pub data ℤ : Type 0 where
  pos negsuc : ℕ → ℤ

abbrev is_digit : Char → Bool
is_digit c = leb 48 (code c) && leb (code c) 57

-- The value of a text of digits that follows digits of value `n`; `none` at any other character.
unfoldable pub digits_from : ℕ → String → Option ℕ
digits_from n String.[] = some n
digits_from n (String.◌∷◌ c s) =
    let rest = digits_from (10 * n + (code c - 48)) s in if is_digit c then rest else none

-- The sign stands before the digits; there is at least one digit; 32 bits hold the number.
abbrev pub to_pos : Option ℕ → Option ℤ
to_pos none = none
to_pos (some n) = if ltb n (2 ^ 31) then some (pos n) else none

abbrev pub to_neg : Option ℕ → Option ℤ
to_neg none = none
to_neg (some n) =
    if n == 0 then some (pos 0) else if leb n (2 ^ 31) then some (negsuc (n - 1)) else none

abbrev pub digits : String → Option ℕ
digits s = if s == "" then none else digits_from 0 s

-- parseProtoNumber
unfoldable pub parse_proto_number : String → Option ℤ
unfolding digits_from
parse_proto_number String.[] = none
parse_proto_number (String.◌∷◌ c s) =
    if code c == 43
    then to_pos (digits s)
    else if code c == 45
    then to_neg (digits s)
    else to_pos (digits (String.◌∷◌ c s))

abbrev digit : ℕ → String
digit n =
    if n == 0
    then "0"
    else if n == 1
    then "1"
    else if n == 2
    then "2"
    else if n == 3
    then "3"
    else if n == 4
    then "4"
    else if n == 5
    then "5"
    else if n == 6
    then "6"
    else if n == 7
    then "7"
    else if n == 8
    then "8"
    else "9"

-- The last `k` digits of `n`, or all of them if it has no more. A number of 32 bits has at most 10.
unfoldable pub show_digits : (k : ℕ) → ℕ → String
show_digits zero n = ""
show_digits (suc k) n =
    let rest = show_digits k (n / 10) in
    if ltb n 10 then digit n else concat (rest ∷ digit (n % 10) ∷ [])

unfoldable pub format_int : ℤ → String
unfolding show_digits
format_int (pos n) = show_digits 10 n
format_int (negsuc n) = concat ("-" ∷ show_digits 10 (suc n) ∷ [])

-- fieldKey
unfoldable pub field_key : String → ℤ → String
unfolding format_int
field_key name n = concat (name ∷ "#" ∷ format_int n ∷ [])

-- enumValueKey
unfoldable pub enum_value_key : String → ℤ → String
unfolding format_int
enum_value_key name n = concat (name ∷ "#" ∷ format_int n ∷ [])
