-- ===== src/Jobs/Exports/Hex.antt =====
-- `hex.DecodeString` and `hex.EncodeToString`, of texts and lists of bytes.
use plaiflowapp.Base.{
  ℕ, ◌+◌, ◌-◌, ◌*◌, ◌/◌, ◌%◌, ◌<◌, ◌≡◌, ap, sym, ◌∙◌, ◌&&◌, List, [], ◌∷◌, Option, none, some, Text,
  map, arith, ltb, leb, if◌then◌else◌, Option-cases, inl, inr,
}

-- The value of a hexadecimal digit of either case.
unfoldable pub hex_value : ℕ → Option ℕ
hex_value c =
    if leb b'0' c && leb c b'9'
    then some (c - b'0')
    else if leb b'a' c && leb c b'f'
    then some (c - b'a' + 10)
    else if leb b'A' c && leb c b'F'
    then some (c - b'A' + 10)
    else none

-- `none` is an error: a rune that is no digit, or an odd number of them.
unfoldable pub decode_hex : Text → Option (List ℕ)
decode_hex [] = some []
decode_hex (c ∷ []) = none
decode_hex (c ∷ (d ∷ rest)) = elim (hex_value c) [
  | none ↦ none
  | some high ↦ elim (hex_value d) [
    | none ↦ none
    | some low ↦ elim (decode_hex rest) [
      | none ↦ none
      | some bytes ↦ some ((high * 16 + low) ∷ bytes)
    ]
  ]
]

unfoldable pub hex_digit : ℕ → ℕ
hex_digit n = if ltb n 10 then b'0' + n else b'a' + (n - 10)

unfoldable pub encode_hex : List ℕ → Text
encode_hex [] = []
encode_hex (n ∷ bytes) = hex_digit (n / 16) ∷ hex_digit (n % 16) ∷ encode_hex bytes

-- A letter in lower case.
abbrev pub lower : ℕ → ℕ
lower c = if leb b'A' c && leb c b'Z' then c + 32 else c

hex_digit-hex_value : (c v : ℕ) → hex_value c ≡ some v → (v < 16) × (hex_digit v ≡ lower c)
unfolding hex_value hex_digit
hex_digit-hex_value c v h = ground arith

-- Of a text that decodes, decoding and encoding give the text in lower case.
pub encode_hex-decode_hex :
    (text : Text) (bytes : List ℕ)
    → decode_hex text ≡ some bytes
    → encode_hex bytes ≡ map lower text
unfolding decode_hex encode_hex
encode_hex-decode_hex [] bytes h = let e : [] ≡ bytes = cc in ap encode_hex (sym e)
encode_hex-decode_hex (c ∷ []) bytes h = cc
encode_hex-decode_hex (c ∷ (d ∷ rest)) bytes h = elim (Option-cases (hex_value c)) [
  | inl e ↦ let h' : none ≡ some bytes = rw (e, decode_hex) at h in absurd (cc)
  | inr (high, e) ↦ elim (Option-cases (hex_value d)) [
    | inl f ↦ let h' : none ≡ some bytes = rw (e, f, decode_hex) at h in absurd (cc)
    | inr (low, f) ↦ elim (Option-cases (decode_hex rest)) [
      | inl g ↦ let h' : none ≡ some bytes = rw (e, f, g, decode_hex) at h in absurd (cc)
      | inr (more, g) ↦
          let h' : some ((high * 16 + low) ∷ more) ≡ some bytes = rw (e, f, g, decode_hex) at h in
          let b : (high * 16 + low) ∷ more ≡ bytes = cc in
          let (u, p) = hex_digit-hex_value c high e in
          let (v, q) = hex_digit-hex_value d low f in
          let first : (high * 16 + low) / 16 ≡ high = omega (arith, u, v) in
          let second : (high * 16 + low) % 16 ≡ low = omega (arith, u, v) in
          ap encode_hex (sym b)
          ∙ rw (first, second, p, q)
              (ap (λ t. lower c ∷ lower d ∷ t) (encode_hex-decode_hex rest more g))
    ]
  ]
]
