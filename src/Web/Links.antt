-- ===== src/Web/Links.antt =====
-- Where a browser is sent: `urlencoding_encode` (crates/server/src/web/session.rs) and `safe_next`
-- (crates/server/src/web/pages/auth.rs). Bytes, and characters of the encoded text, are numbers.
use Prim.Native.Char.{code}
use servcat.Prelude.{
  ℕ, ◌+◌, ◌/◌, ◌%◌, ◌==◌, ltb, leb, String, Bool, false, not, ◌&&◌, ◌||◌, Option, none, some, List,
  [], ◌∷◌, ◌++◌, if◌then◌else◌,
}

-- `char::encode_utf8`
abbrev pub utf_8 : ℕ → List ℕ
utf_8 c =
    if ltb c 128
    then c ∷ []
    else (if ltb c 2048
        then (192 + c / 64 % 32) ∷ (128 + c % 64) ∷ []
        else (if ltb c 65536
            then (224 + c / 4096 % 16) ∷ (128 + c / 64 % 64) ∷ (128 + c % 64) ∷ []
            else (240 + c / 262144 % 8)
              ∷ (128 + c / 4096 % 64)
              ∷ (128 + c / 64 % 64)
              ∷ (128 + c % 64)
              ∷ []))

-- `str::bytes`
abbrev pub bytes : String → List ℕ
bytes String.[] = []
bytes (String.◌∷◌ c s) = utf_8 (code c) ++ bytes s

abbrev pub is_plain : ℕ → Bool
is_plain b =
    leb b'A' b && leb b b'Z'
    || leb b'a' b && leb b b'z'
    || leb b'0' b && leb b b'9'
    || b == b'-'
    || b == b'_'
    || b == b'.'
    || b == b'~'
    || b == b'/'
    || b == b'?'
    || b == b'='

-- A digit of `{:02X}`.
abbrev pub hex : ℕ → ℕ
hex n = if ltb n 10 then 48 + n else 55 + n

-- `for byte in s.bytes()`
abbrev pub encode_bytes : List ℕ → List ℕ
encode_bytes [] = []
encode_bytes (b ∷ rest) =
    let done = encode_bytes rest in
    if is_plain b then b ∷ done else b'%' ∷ hex (b / 16) ∷ hex (b % 16) ∷ done

unfoldable pub urlencoding_encode : String → List ℕ
urlencoding_encode s = encode_bytes (bytes s)

abbrev starts_with_slash : String → Bool
starts_with_slash String.[] = false
starts_with_slash (String.◌∷◌ c s) = code c == b'/'

-- `n.starts_with('/') && !n.starts_with("//")`
abbrev pub is_path : String → Bool
is_path String.[] = false
is_path (String.◌∷◌ c s) = code c == b'/' && not (starts_with_slash s)

unfoldable pub safe_next : Option String → String
safe_next none = "/"
safe_next (some n) = if is_path n then n else "/"
