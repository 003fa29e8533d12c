-- ===== src/Web/Encoded.antt =====
-- The encoded path against its decoding (crates/server/src/web/session.rs).
use Prim.Native.Char.{code}
use servcat.Prelude.{
  ℕ, ◌+◌, ◌-◌, ◌*◌, ◌/◌, ◌%◌, ◌<◌, ◌==◌, ltb, String, ◌≡◌, refl, ap, true, false, ◌||◌, Bool-cases,
  inl, inr, List, [], ◌∷◌, ◌++◌, All, arith, if◌then◌else◌,
}
use servcat.Web.Links.{utf_8, bytes, is_plain, hex, encode_bytes, urlencoding_encode}

-- The number of a hexadecimal digit.
abbrev unhex : ℕ → ℕ
unhex c = if ltb c 65 then c - 48 else c - 55

-- Whether a decoder is in an escape, and the first digit of it.
pub data Place : Type 0 where
  in_text behind_percent : Place
  behind_digit : ℕ → Place

-- Percent-decoding.
abbrev pub decode : Place → List ℕ → List ℕ
decode place [] = []
decode in_text (c ∷ rest) =
    let escaped = decode behind_percent rest in
    let done = decode in_text rest in if c == b'%' then escaped else c ∷ done
decode behind_percent (c ∷ rest) = decode (behind_digit (unhex c)) rest
decode (behind_digit n) (c ∷ rest) = (n * 16 + unhex c) ∷ decode in_text rest

-- What stands in a query as it is, and the sign of an escape.
abbrev pub IsLinkCharacter : ℕ → Type 0
IsLinkCharacter c = (is_plain c || c == b'%') ≡ true

IsByte : ℕ → Type 0
IsByte b = b < 256

unhex-hex : (n : ℕ) → n < 16 → unhex (hex n) ≡ n
unhex-hex n h = ground arith

is_plain-hex : (n : ℕ) → n < 16 → IsLinkCharacter (hex n)
is_plain-hex n h = ground arith

All-append : (P : ℕ → Type 0) (xs ys : List ℕ) → All P xs → All P ys → All P (xs ++ ys)
All-append P [] ys p q = q
All-append P (x ∷ xs) ys p q = (p.0, All-append P xs ys p.1 q)

utf_8-IsByte : (c : ℕ) → All IsByte (utf_8 c)
unfolding IsByte
utf_8-IsByte c = elim (Bool-cases (ltb c 128)) [
  | inl h ↦ rw h (ground arith, tt)
  | inr h ↦ elim (Bool-cases (ltb c 2048)) [
    | inl k ↦ rw (h, k) (omega arith, (omega arith, tt))
    | inr k ↦ elim (Bool-cases (ltb c 65536)) [
      | inl l ↦ rw (h, k, l) (omega arith, (omega arith, (omega arith, tt)))
      | inr l ↦ rw (h, k, l) (omega arith, (omega arith, (omega arith, (omega arith, tt))))
    ]
  ]
]

bytes-IsByte : (s : String) → All IsByte (bytes s)
bytes-IsByte String.[] = tt
bytes-IsByte (String.◌∷◌ c s) =
    All-append IsByte (utf_8 (code c)) (bytes s) (utf_8-IsByte (code c)) (bytes-IsByte s)

decode-encode_bytes : (bs : List ℕ) → All IsByte bs → decode in_text (encode_bytes bs) ≡ bs
unfolding IsByte
decode-encode_bytes [] h = refl
decode-encode_bytes (b ∷ bs) h = elim (Bool-cases (is_plain b)) [
  | inl plain ↦ rw (plain, no_percent b plain) (ap (◌∷◌ b) (decode-encode_bytes bs h.1))
  | inr escaped ↦ rw escaped (
      rw
        (
          unhex-hex (b / 16) (byte_digit b h.0),
          unhex-hex (b % 16) (omega arith),
          decode-encode_bytes bs h.1,
        )
        (ap (λ n. n ∷ bs) (omega arith)))
]
  where
    no_percent : (b : ℕ) → is_plain b ≡ true → (b == b'%') ≡ false
    no_percent b h = ground arith

    byte_digit : (b : ℕ) → b < 256 → b / 16 < 16
    byte_digit b h = omega arith

encode_bytes-IsLinkCharacter : (bs : List ℕ) → All IsByte bs → All IsLinkCharacter (encode_bytes bs)
unfolding IsByte
encode_bytes-IsLinkCharacter [] h = tt
encode_bytes-IsLinkCharacter (b ∷ bs) h = elim (Bool-cases (is_plain b)) [
  | inl plain ↦ rw plain (plain_character b plain, encode_bytes-IsLinkCharacter bs h.1)
  | inr escaped ↦ rw escaped (
    refl,
    (
      is_plain-hex (b / 16) (let k = h.0 in omega arith),
      (is_plain-hex (b % 16) (omega arith), encode_bytes-IsLinkCharacter bs h.1),
    ),
  )
]
  where
    plain_character : (b : ℕ) → is_plain b ≡ true → IsLinkCharacter b
    plain_character b h = ground arith

-- `urlencoding_encode` writes letters, digits and -_.~/?= and percent signs alone, and percent
-- decoding gives the bytes of the path again.
pub urlencoding_encode_lem :
    (s : String)
    → (decode in_text (urlencoding_encode s) ≡ bytes s) × All IsLinkCharacter (urlencoding_encode s)
unfolding urlencoding_encode
urlencoding_encode_lem s = (
  decode-encode_bytes (bytes s) (bytes-IsByte s),
  encode_bytes-IsLinkCharacter (bytes s) (bytes-IsByte s),
)
