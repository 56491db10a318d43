-- ===== src/Kamara/Api/Disposition.antt =====
-- The header Content-Disposition of kamara/internal/api/api.go: the name of a file that a client saves.
use Prim.Native.Char.{char, code, IsScalar}
use Prim.Native.String.{◌++◌ as join}
use peristera.Prelude.{
  ℕ, zero, suc, ◌+◌, ◌-◌, ◌*◌, ◌/◌, ◌%◌, ◌≤◌, ◌<◌, ◌≡◌, ◌≢◌, refl, ap, ap₂, String, Bool, true,
  false, not, ◌&&◌, ◌||◌, List, [], ◌∷◌, ◌++◌, All, All-append, str_eq, ltb, leb, ◌==◌,
  if◌then◌else◌, Bool-cases, inl, inr, arith,
}
use peristera.Kamara.Crypto.{utf8, bytes_of}

-- Whether asciiFilename drops the rune.
unfoldable pub is_dropped : ℕ → Bool
is_dropped r = ltb r 0x20 || (r == 0x7f) || (r == b'"') || (r == b'\\')

-- asciiFilename
unfoldable pub ascii_filename : String → String
unfolding is_dropped
ascii_filename String.[] = ""
ascii_filename (String.◌∷◌ c s) =
    let rest = ascii_filename s in
    if is_dropped (code c)
    then rest
    else if ltb 0x7f (code c)
    then String.◌∷◌ "_" rest
    else String.◌∷◌ c rest

-- strings.IndexByte over "!#$&+-.^_`|~"
unfoldable pub is_attr_mark : ℕ → Bool
is_attr_mark c =
    (c == b'!')
    || (c == b'#')
    || (c == b'$')
    || (c == b'&')
    || (c == b'+')
    || (c == b'-')
    || (c == b'.')
    || (c == b'^')
    || (c == b'_')
    || (c == b'`')
    || (c == b'|')
    || (c == b'~')

unfoldable pub is_attr : ℕ → Bool
unfolding is_attr_mark
is_attr c =
    (leb b'A' c && leb c b'Z')
    || (leb b'a' c && leb c b'z')
    || (leb b'0' c && leb c b'9')
    || is_attr_mark c

-- A digit of "0123456789ABCDEF".
unfoldable pub upper_hex : ℕ → ℕ
upper_hex n = if ltb n 10 then 48 + n else 55 + n

-- rfc5987, on the bytes of the name.
unfoldable pub rfc5987 : List ℕ → List ℕ
unfolding is_attr upper_hex
rfc5987 [] = []
rfc5987 (c ∷ name) =
    let rest = rfc5987 name in
    if is_attr c then c ∷ rest else b'%' ∷ upper_hex (c / 16) ∷ upper_hex (c % 16) ∷ rest

-- ContentDisposition: the header, as bytes.
unfoldable pub content_disposition : String → String → List ℕ
unfolding ascii_filename rfc5987
content_disposition disposition name =
    let ascii = ascii_filename name in
    let plain = bytes_of (join disposition (join "; filename=\"" (join ascii "\""))) in
    if not (str_eq ascii name)
    then plain ++ (bytes_of "; filename*=UTF-8''" ++ rfc5987 (bytes_of name))
    else plain

-- A rune that can stand between the quotes.
abbrev pub IsQuotable : ℕ → Type 0
IsQuotable r = (0x20 ≤ r) × (r < 0x7f) × (r ≢ b'"') × (r ≢ b'\\')

abbrev pub Quotable : String → Type 0
Quotable String.[] = Unit
Quotable (String.◌∷◌ c s) = IsQuotable (code c) × Quotable s

kept-IsQuotable : (r : ℕ) → is_dropped r ≡ false → ltb 0x7f r ≡ false → IsQuotable r
unfolding is_dropped
kept-IsQuotable r d h = (ground arith, ground arith, ground arith, ground arith)

ascii_filename-Quotable : (name : String) → Quotable (ascii_filename name)
unfolding ascii_filename
ascii_filename-Quotable String.[] = tt
ascii_filename-Quotable (String.◌∷◌ c s) = elim (Bool-cases (is_dropped (code c))) [
  | inl dropped ↦ rw dropped (ascii_filename-Quotable s)
  | inr kept ↦ rw kept (elim (Bool-cases (ltb 0x7f (code c))) [
    | inl wide ↦
        rw wide ((omega arith, omega arith, omega arith, omega arith), ascii_filename-Quotable s)
    | inr narrow ↦ rw narrow (kept-IsQuotable (code c) kept narrow, ascii_filename-Quotable s)
  ])
]

-- The value of an upper-case hexadecimal digit, and the bytes that percent-encoding stands for.
pub hex_value : ℕ → ℕ
hex_value d = if ltb d 58 then d - 48 else d - 55

pub data Escape : Type 0 where
  outside : Escape
  opened : Escape
  halfway : ℕ → Escape

pub percent_decode : Escape → List ℕ → List ℕ
percent_decode e [] = []
percent_decode outside (c ∷ s) =
    let escape = percent_decode opened s in
    let literal = percent_decode outside s in if c == b'%' then escape else c ∷ literal
percent_decode opened (c ∷ s) = percent_decode (halfway (hex_value c)) s
percent_decode (halfway h) (c ∷ s) = (h * 16 + hex_value c) ∷ percent_decode outside s

-- What may stand in a header: a printable rune but a quote, a comma or a semicolon.
abbrev pub IsPlain : ℕ → Type 0
IsPlain c = (0x20 < c) × (c < 0x7f) × (c ≢ b'"') × (c ≢ b',') × (c ≢ b';')

is_plain : ℕ → Bool
is_plain c =
    ltb 0x20 c
    && ltb c 0x7f
    && not (c == b'"')
    && not (c == b',')
    && not (c == b';')
    && not (c == b'%')

is_plain-IsPlain : (c : ℕ) → is_plain c ≡ true → IsPlain c × ((c == b'%') ≡ false)
unfolding is_plain
is_plain-IsPlain c e =
    ((ground arith, ground arith, ground arith, ground arith, ground arith), ground arith)

-- Every byte, checked.
bytes_below : ℕ → (ℕ → Bool) → Bool
bytes_below zero p = true
bytes_below (suc n) p = p n && bytes_below n p

bytes_below-all : (n : ℕ) (p : ℕ → Bool) (c : ℕ) → bytes_below n p ≡ true → c < n → p c ≡ true
unfolding bytes_below
bytes_below-all zero p c e h = absurd (omega arith)
bytes_below-all (suc n) p c e h = ground (arith, bytes_below-all n p c)

attr_table : bytes_below 256 (λ c. not (is_attr c) || is_plain c) ≡ true
unfolding bytes_below is_attr is_attr_mark is_plain
attr_table = refl

attr-IsPlain : (c : ℕ) → c < 256 → is_attr c ≡ true → IsPlain c × ((c == b'%') ≡ false)
attr-IsPlain c h e =
    is_plain-IsPlain c
      (ground (arith, bytes_below-all 256 (λ c. not (is_attr c) || is_plain c) c attr_table h))

upper_hex-IsPlain : (n : ℕ) → n < 16 → IsPlain (upper_hex n)
unfolding upper_hex
upper_hex-IsPlain n h = (ground arith, ground arith, ground arith, ground arith, ground arith)

upper_hex-value : (n : ℕ) → n < 16 → hex_value (upper_hex n) ≡ n
unfolding upper_hex hex_value
upper_hex-value n h = ground arith

rfc5987-decoded :
    (name : List ℕ)
    → All (λ c. c < 256) name
    → (percent_decode outside (rfc5987 name) ≡ name) × All IsPlain (rfc5987 name)
unfolding percent_decode rfc5987
rfc5987-decoded [] bytes = (refl, tt)
rfc5987-decoded (c ∷ name) bytes =
    let (decoded, plain) = rfc5987-decoded name bytes.1 in
    elim (Bool-cases (is_attr c)) [
      | inl attr ↦
          let (fine, no_escape) = attr-IsPlain c bytes.0 attr in
          rw (attr, no_escape) (ap (◌∷◌ c) decoded, (fine, plain))
      | inr other ↦
          let high : c / 16 < 16 = omega (arith, bytes.0) in
          let low : c % 16 < 16 = omega arith in
          rw other (
            ap₂ ◌∷◌ (omega (arith, upper_hex-value (c / 16) high, upper_hex-value (c % 16) low))
                decoded,
            (
              (omega arith, omega arith, omega arith, omega arith, omega arith),
              (upper_hex-IsPlain (c / 16) high, (upper_hex-IsPlain (c % 16) low, plain)),
            ),
          )
    ]

scalar-lt : (n : ℕ) → IsScalar n → n < 0x110000
scalar-lt n s = ground arith

utf8-bytes : (n : ℕ) → n < 0x110000 → All (λ b. b < 256) (utf8 n)
unfolding utf8
utf8-bytes n h = elim (Bool-cases (ltb n 0x80)) [
  | inl one ↦ rw one (ground arith, tt)
  | inr more ↦ rw more (elim (Bool-cases (ltb n 0x800)) [
    | inl two ↦ rw two (ground arith, (omega arith, tt))
    | inr more ↦ rw more (elim (Bool-cases (ltb n 0x10000)) [
      | inl three ↦ rw three (ground arith, (omega arith, (omega arith, tt)))
      | inr four ↦ rw four (omega arith, (omega arith, (omega arith, (omega arith, tt))))
    ])
  ])
]

bytes_of-bytes : (s : String) → All (λ b. b < 256) (bytes_of s)
unfolding bytes_of
bytes_of-bytes String.[] = tt
bytes_of-bytes (String.◌∷◌ (char n scalar) s) =
    All-append _ (utf8 n) (bytes_of s) (utf8-bytes n (scalar-lt n scalar)) (bytes_of-bytes s)

-- The names in the header: between the quotes stands nothing that ends them, a control character
-- included; the extended name has no character that ends a parameter, and it decodes to the bytes of the
-- whole name.
pub names-decode :
    (name : String)
    → Quotable (ascii_filename name)
      × All IsPlain (rfc5987 (bytes_of name))
      × (percent_decode outside (rfc5987 (bytes_of name)) ≡ bytes_of name)
names-decode name =
    let (decoded, plain) = rfc5987-decoded (bytes_of name) (bytes_of-bytes name) in
    (ascii_filename-Quotable name, plain, decoded)
