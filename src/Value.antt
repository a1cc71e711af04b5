-- ===== src/Value.antt =====
-- JSON values and the operations on them that the engine uses (`typeof`, `===`, `Number`, property
-- access). An array stands as its own properties, its indices among them. Only own properties are
-- looked up, and numbers are those of Base/Num.antt.
use Prim.Native.String.{◌++◌ as text_append}
use aiagent_portable_authori.Base.{
  ◌%◌, ◌/◌, ◌≡◌, ◌+◌, suc, ◌==◌, zero, refl, ℕ, String, Bool, true, false, not, Option, List, [],
  ◌∷◌, if◌then◌else◌, str_eq, any,
}
use aiagent_portable_authori.Base.Int.{ℤ, pos, eqb_ℤ}
use aiagent_portable_authori.Base.Num.{Num, nan, fin}

mutual
  pub data Value : Type 0 where
    undefined null : Value
    bool : Bool → Value
    num : ℤ → Value
    str : String → Value
    arr obj : Fields → Value

  pub data Fields : Type 0 where
    nil : Fields
    field : String → Value → Fields → Fields

-- `o[key]` for an own property.
unfoldable pub get : String → Fields → Value
get key nil = undefined
get key (field k v fs) = if str_eq k key then v else get key fs

-- `{ ...o, [key]: v }` and `o[key] = v`.
unfoldable pub put : String → Value → Fields → Fields
put key v nil = field key v nil
put key v (field k w fs) = if str_eq k key then field k v fs else field k w (put key v fs)

-- `v === undefined || v === null`.
abbrev pub is_nullish : Value → Bool
is_nullish undefined = true
is_nullish null = true
is_nullish _ = false

abbrev pub is_undefined : Value → Bool
is_undefined undefined = true
is_undefined _ = false

-- `v ?? w`.
abbrev pub or_else : Value → Value → Value
or_else v w = if is_nullish v then w else v

abbrev pub is_number : Value → Bool
is_number (num _) = true
is_number _ = false

abbrev pub is_string : Value → Bool
is_string (str _) = true
is_string _ = false

abbrev pub is_boolean : Value → Bool
is_boolean (bool _) = true
is_boolean _ = false

-- A text given by a field that may be absent: the empty text stands for an absent one.
abbrev pub is_blank : String → Bool
is_blank s = str_eq s ""

abbrev pub or_default : String → String → String
or_default s d = if is_blank s then d else s

unfoldable pub is_truthy : Value → Bool
is_truthy undefined = false
is_truthy null = false
is_truthy (bool b) = b
is_truthy (num n) = not (eqb_ℤ n (pos 0))
is_truthy (str s) = not (is_blank s)
is_truthy (arr _) = true
is_truthy (obj _) = true

-- The own properties of a value; only an object or an array has some.
abbrev pub fields_of : Value → Fields
fields_of (obj fs) = fs
fields_of (arr fs) = fs
fields_of _ = nil

-- `v[key]` and `v?.[key]`.
abbrev pub member : String → Value → Value
member key v = get key (fields_of v)

-- The elements of an array.
abbrev pub elements : Fields → List Value
elements nil = []
elements (field _ v fs) = v ∷ elements fs

abbrev digit : ℕ → String
digit d =
    if d == 0
    then "0"
    else if d == 1
    then "1"
    else if d == 2
    then "2"
    else if d == 3
    then "3"
    else if d == 4
    then "4"
    else if d == 5
    then "5"
    else if d == 6
    then "6"
    else if d == 7
    then "7"
    else if d == 8
    then "8"
    else "9"

-- The digits of a number in front of a text; as much fuel as the number plus one is enough.
unfoldable digits_before : ℕ → ℕ → String → String
digits_before zero n s = s
digits_before (suc f) n s =
    let more = digits_before f (n / 10) (text_append (digit (n % 10)) s) in
    if n / 10 == 0 then text_append (digit n) s else more

-- `String(n)`
unfoldable pub number_text : ℕ → String
unfolding digits_before
number_text n = digits_before (n + 1) n ""

unfoldable array_from : ℕ → List Value → Fields
unfolding number_text
array_from i [] = nil
array_from i (v ∷ vs) = field (number_text i) v (array_from (i + 1) vs)

-- An array of values.
unfoldable pub array : List Value → Fields
unfolding array_from
array vs = array_from 0 vs

array_test : array (null ∷ undefined ∷ []) ≡ field "0" null (field "1" undefined nil)
unfolding array
array_test = refl

-- `{ ...base, ...fs }`.
unfoldable pub spread : Fields → Fields → Fields
unfolding put
spread base nil = base
spread base (field k v fs) = spread (put k v base) fs

-- `{ ...(v ? { [key]: v } : {}), ... }` in front of other properties.
abbrev pub if_truthy : String → Value → Fields → Fields
if_truthy key v fs = if is_truthy v then field key v fs else fs

-- `typeof v === "object"`; null is an object, too.
abbrev pub is_object : Value → Bool
is_object null = true
is_object (obj _) = true
is_object (arr _) = true
is_object _ = false

-- `typeof v === "string" && v.length > 0`.
abbrev pub is_filled : Value → Bool
is_filled (str s) = not (is_blank s)
is_filled _ = false

-- `v === s`.
abbrev pub is_text : String → Value → Bool
is_text t (str s) = str_eq s t
is_text _ _ = false

-- The text of a value that should be one; the empty text stands for anything else.
abbrev pub text_in : Value → String
text_in (str s) = s
text_in _ = ""

-- The elements of a value that should be an array.
abbrev pub items : Value → List Value
items (arr fs) = elements fs
items _ = []

abbrev pub is_array : Value → Bool
is_array (arr _) = true
is_array _ = false

-- `v || w`.
abbrev pub or_value : Value → Value → Value
or_value v w = if is_truthy v then v else w

-- `allowed.includes(v)` on an array of texts: only a text can be an element.
unfoldable pub includes_value : List String → Value → Bool
includes_value xs (str s) = any (λ x. str_eq x s) xs
includes_value _ _ = false

-- What the program takes from the JavaScript runtime and computes outside src/: the conversion of
-- a text and of an array to a number, `parseInt`, `new Date(v)` in milliseconds, and the parts
-- that `Intl.DateTimeFormat` gives in a zone (none: the zone is not known).
pub record LocalParts : Type 0 where
  pub weekday : String
  pub hour : ℕ
  pub minute : ℕ

pub record Runtime : Type 0 where
  pub number_of_text : String → Num
  pub number_of_array : Fields → Num
  pub parse_int : String → Num
  pub date_of : Value → Num
  pub local_parts : String → ℤ → Option LocalParts
  pub now : ℤ

-- `Number(v)`.
unfoldable pub to_number : Runtime → Value → Num
to_number rt undefined = nan
to_number rt null = fin (pos 0)
to_number rt (bool true) = fin (pos 1)
to_number rt (bool false) = fin (pos 0)
to_number rt (num n) = fin n
to_number rt (str s) = rt.number_of_text s
to_number rt (arr fs) = rt.number_of_array fs
to_number rt (obj _) = nan
