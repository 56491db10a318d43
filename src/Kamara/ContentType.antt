-- ===== src/Kamara/ContentType.antt =====
-- The types of file contents (kamara/internal/file/file.go): contentTypeOf, TextEditable, Previewable.
use Prim.Native.Char.{Char, code}
use peristera.Prelude.{
  ℕ, ◌*◌, String, Bool, true, false, not, ◌&&◌, ◌||◌, List, [], ◌∷◌, str_eq, ltb, ◌==◌,
  if◌then◌else◌,
}
use peristera.Kamara.Tables.{FileObject, member}

-- filepath.Ext: the text from the last dot after the last slash.
unfoldable pub extension_from : String → String → String
extension_from found String.[] = found
extension_from found (String.◌∷◌ c s) =
    let dotted = extension_from (String.◌∷◌ c s) s in
    let after_slash = extension_from "" s in
    let rest = extension_from found s in
    if code c == b'.' then dotted else if code c == b'/' then after_slash else rest

unfoldable pub before_semicolon : String → String
before_semicolon String.[] = ""
before_semicolon (String.◌∷◌ c s) =
    let rest = before_semicolon s in if code c == b';' then "" else String.◌∷◌ c rest

-- unicode.IsSpace
abbrev is_space : Char → Bool
is_space c = spaces (code c)
  where
    spaces : ℕ → Bool
    spaces n =
        (ltb 8 n && ltb n 14)
        || (n == 32)
        || (n == 0x85)
        || (n == 0xA0)
        || (n == 0x1680)
        || (ltb 0x1FFF n && ltb n 0x200B)
        || (n == 0x2028)
        || (n == 0x2029)
        || (n == 0x202F)
        || (n == 0x205F)
        || (n == 0x3000)

unfoldable pub trim_right : String → String
trim_right String.[] = ""
trim_right (String.◌∷◌ c s) =
    let rest = trim_right s in if is_space c && str_eq rest "" then "" else String.◌∷◌ c rest

unfoldable pub trim_left : String → String
trim_left String.[] = ""
trim_left (String.◌∷◌ c s) = let rest = trim_left s in if is_space c then rest else String.◌∷◌ c s

-- contentTypeOf, over the system's table of types (mime.TypeByExtension).
unfoldable pub content_type_of : (String → String) → String → String
content_type_of types name =
    trim_left (trim_right (before_semicolon (types (extension_from "" name))))

abbrev pub max_text_edit_bytes : ℕ
max_text_edit_bytes = 1024 * 1024

-- strings.HasPrefix
unfoldable pub has_prefix : String → String → Bool
has_prefix s String.[] = true
has_prefix String.[] (String.◌∷◌ p prefix) = false
has_prefix (String.◌∷◌ c s) (String.◌∷◌ p prefix) =
    let rest = has_prefix s prefix in if code c == code p then rest else false

abbrev text_editable_types : List String
text_editable_types =
    "application/json" ∷ "application/javascript" ∷ "application/xml" ∷ "application/yaml"
    ∷ "application/toml" ∷ "application/x-sh" ∷ "application/sql" ∷ []

-- Object.TextEditable
unfoldable pub text_editable : FileObject → Bool
text_editable o =
    if ltb max_text_edit_bytes o.size
    then false
    else str_eq o.content_type ""
      || has_prefix o.content_type "text/"
      || member o.content_type text_editable_types

-- Object.Previewable
unfoldable pub previewable : FileObject → Bool
previewable o = has_prefix o.content_type "image/" && not (str_eq o.content_type "image/svg+xml")
