-- ===== src/A2a/Header.antt =====
-- Headers: `parseExtensionHeader` and `extensionHeaderIncludes` of extensions/a2a/sdk/src/index.js,
-- `getHeader` of extensions/a2a/receiver-middleware/src/index.js.
use Prim.Native.Char.{code}
use Prim.Native.String.{◌++◌ as text_append}
use aiagent_portable_authori.Base.{
  ℕ, ◌+◌, String, Bool, true, false, not, ◌&&◌, ◌||◌, List, [], ◌∷◌, map, if◌then◌else◌, str_eq,
  any, filter, leb, ◌==◌,
}
use aiagent_portable_authori.Base.Text.{split}
use aiagent_portable_authori.Value.{is_blank, or_default}

-- The white space and the line ends that `trim` removes.
abbrev is_space : ℕ → Bool
is_space c =
    (leb 9 c && leb c 13)
    || (c == 32)
    || (c == 160)
    || (c == 5760)
    || (leb 8192 c && leb c 8202)
    || (c == 8232)
    || (c == 8233)
    || (c == 8239)
    || (c == 8287)
    || (c == 12288)
    || (c == 65279)

unfoldable trim_start : String → String
trim_start String.[] = ""
trim_start (String.◌∷◌ c s) =
    let rest = trim_start s in if is_space (code c) then rest else String.◌∷◌ c s

unfoldable trim_end : String → String
trim_end String.[] = ""
trim_end (String.◌∷◌ c s) =
    let rest = trim_end s in if is_space (code c) && is_blank rest then "" else String.◌∷◌ c rest

-- `s.trim()`
unfoldable pub trim : String → String
unfolding trim_start trim_end
trim s = trim_start (trim_end s)

-- A missing header is the empty text.
unfoldable pub parse_extension_header : String → List String
unfolding split trim
parse_extension_header value =
    if is_blank value
    then []
    else filter (λ item. not (is_blank item)) (map trim (split b',' value))

unfoldable pub extension_header_includes : String → String → Bool
unfolding parse_extension_header
extension_header_includes value uri = any (λ item. str_eq item uri) (parse_extension_header value)

-- A header of a plain object: one text, or several.
pub data HeaderValue : Type 0 where
  one : String → HeaderValue
  many : List String → HeaderValue

-- `headers`: an object of headers, or one with a method `get`, whose result is here the empty text
-- where it has none.
pub data Headers : Type 0 where
  plain : List (String × HeaderValue) → Headers
  api : (String → String) → Headers

-- The names of headers are ASCII, and so is their lower case here.
abbrev lower_code : ℕ → ℕ
lower_code c = if leb 65 c && leb c 90 then c + 32 else c

unfoldable pub same_name : String → String → Bool
same_name String.[] String.[] = true
same_name (String.◌∷◌ c s) (String.◌∷◌ d t) =
    (lower_code (code c) == lower_code (code d)) && same_name s t
same_name _ _ = false

unfoldable join_rest : List String → String
join_rest [] = ""
join_rest (s ∷ ss) = text_append "," (text_append s (join_rest ss))

-- `value.join(",")`
unfoldable join_values : List String → String
unfolding join_rest
join_values [] = ""
join_values (s ∷ ss) = text_append s (join_rest ss)

abbrev header_text : HeaderValue → String
header_text (one s) = s
header_text (many ss) = join_values ss

unfoldable find_header : String → List (String × HeaderValue) → String
unfolding same_name join_values
find_header name [] = ""
find_header name (h ∷ hs) = if same_name h.0 name then header_text h.1 else find_header name hs

-- `getHeader(headers, name)`; `lower` is the name in lower case.
unfoldable pub get_header : Headers → String → String → String
unfolding find_header
get_header (api get) name lower = or_default (get name) (get lower)
get_header (plain hs) name lower = find_header name hs
