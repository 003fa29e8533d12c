-- ===== src/Web/Integers.antt =====
-- `str::parse::<i32>` against the integers that texts denote, as the form for a service uses it
-- (crates/server/src/web/pages/admin/catalog.rs).
use Prim.Native.Char.{Char, code}
use servcat.Prelude.{
  ℕ, zero, suc, ◌+◌, ◌-◌, ◌*◌, ◌^◌, ◌<◌, ◌≤◌, ◌==◌, leb, String, ◌≡◌, refl, sym, ap, ◌∙◌, subst,
  Bool, true, false, not, ◌&&◌, Bool-cases, inl, inr, none, some, arith, if◌then◌else◌,
}
use servcat.Prelude.Int.{ℤ, pos, negsuc}
use servcat.Model.TargetTime.{minus}
use servcat.Web.Forms.{is_empty, is_digit, scan, signed, numeral, parse_i32}

abbrev pub is_digits : String → Bool
is_digits String.[] = true
is_digits (String.◌∷◌ c s) = is_digit (code c) && is_digits s

-- The number of some digits behind a number, without a limit.
abbrev pub number_behind : String → ℕ → ℕ
number_behind String.[] n = n
number_behind (String.◌∷◌ c s) n = number_behind s (n * 10 + (code c - b'0'))

abbrev pub number : String → ℕ
number s = number_behind s 0

-- The text is that of an integer.
pub data Denotes : String → ℤ → Type 0 where
  plain : {s : String} → is_empty s ≡ false → is_digits s ≡ true → Denotes s (pos (number s))
  plus :
      {c : Char} {s : String}
      → code c ≡ b'+'
      → is_empty s ≡ false
      → is_digits s ≡ true
      → Denotes (String.◌∷◌ c s) (pos (number s))
  dash :
      {c : Char} {s : String}
      → code c ≡ b'-'
      → is_empty s ≡ false
      → is_digits s ≡ true
      → Denotes (String.◌∷◌ c s) (minus (number s))

-- The integers of 32 bits.
abbrev pub IsI32 : ℤ → Type 0
IsI32 (pos n) = n < 2 ^ 31
IsI32 (negsuc n) = n < 2 ^ 31

number_behind-ge : (s : String) (n : ℕ) → n ≤ number_behind s n
number_behind-ge String.[] n = omega arith
number_behind-ge (String.◌∷◌ c s) n = omega (arith, number_behind-ge s (n * 10 + (code c - b'0')))

scan_lem :
    (limit : ℕ) (s : String) (n : ℕ)
    → n ≤ limit
    → scan limit s n
      ≡ (if is_digits s && leb (number_behind s n) limit then some (number_behind s n) else none)
scan_lem limit String.[] n h = ground arith
scan_lem limit (String.◌∷◌ c s) n h =
    let next = n * 10 + (code c - b'0') in
    ground (arith, scan_lem limit s next, number_behind-ge s next)

signed_if :
    (sign : ℕ → ℤ) (b : Bool) (n : ℕ)
    → signed sign (if b then some n else none) ≡ (if b then some (sign n) else none)
signed_if sign true n = refl
signed_if sign false n = refl

numeral_lem :
    (sign : ℕ → ℤ) (limit : ℕ) (s : String)
    → numeral sign limit s ≡ (
        if not (is_empty s) && is_digits s && leb (number s) limit
        then some (sign (number s))
        else none)
numeral_lem sign limit String.[] = refl
numeral_lem sign limit (String.◌∷◌ c s) =
    ap (signed sign) (scan_lem limit (String.◌∷◌ c s) 0 (omega arith))
    ∙ signed_if sign (is_digits (String.◌∷◌ c s) && leb (number (String.◌∷◌ c s)) limit)
        (number (String.◌∷◌ c s))

-- The digits of a numeral that is read, and the integer that it gives.
record IsRead (sign : ℕ → ℤ) (limit : ℕ) (s : String) (v : ℤ) : Type 0 where
  full : is_empty s ≡ false
  digits : is_digits s ≡ true
  low : number s ≤ limit
  value : sign (number s) ≡ v

numeral-IsRead :
    (sign : ℕ → ℤ) (limit : ℕ) (s : String) (v : ℤ)
    → numeral sign limit s ≡ some v
    → IsRead sign limit s v
numeral-IsRead sign limit s v h =
    read (is_empty s) (is_digits s) refl refl (sym (numeral_lem sign limit s) ∙ h)
  where
    read :
        (empty digits : Bool)
        → is_empty s ≡ empty
        → is_digits s ≡ digits
        → (if not empty && digits && leb (number s) limit then some (sign (number s)) else none)
          ≡ some v
        → IsRead sign limit s v
    read true digits e d k = absurd (cc)
    read false false e d k = absurd (cc)
    read false true e d k = elim (Bool-cases (leb (number s) limit)) [
      | inl low ↦ record { full = e; digits = d; low = ground arith; value = ground arith }
      | inr high ↦ absurd (ground arith)
    ]

numeral-digits :
    (sign : ℕ → ℤ) (limit : ℕ) (s : String)
    → is_empty s ≡ false
    → is_digits s ≡ true
    → number s ≤ limit
    → numeral sign limit s ≡ some (sign (number s))
numeral-digits sign limit s e d low = numeral_lem sign limit s ∙ rw (e, d) (ground arith)

minus-IsI32 : (n : ℕ) → n ≤ 2 ^ 31 → IsI32 (minus n)
minus-IsI32 zero h = omega arith
minus-IsI32 (suc n) h = omega arith

minus_bound : (n : ℕ) → IsI32 (minus n) → n ≤ 2 ^ 31
minus_bound zero h = omega arith
minus_bound (suc n) h = omega arith

-- A text is read as an integer just if it is one's, of 32 bits.
pub parse_i32-Denotes : (s : String) (v : ℤ) → parse_i32 s ≡ some v → Denotes s v × IsI32 v
unfolding parse_i32
parse_i32-Denotes String.[] v h = absurd (cc)
parse_i32-Denotes (String.◌∷◌ c s) v h = elim (Bool-cases (code c == b'-')) [
  | inl e ↦
      let r = numeral-IsRead minus (2 ^ 31) s v (rw e at h) in
      (
        subst (Denotes (String.◌∷◌ c s)) r.value (dash (ground arith) r.full r.digits),
        subst IsI32 r.value (minus-IsI32 (number s) r.low),
      )
  | inr e ↦ elim (Bool-cases (code c == b'+')) [
    | inl k ↦
        let r = numeral-IsRead pos (2 ^ 31 - 1) s v (rw (e, k) at h) in
        (
          subst (Denotes (String.◌∷◌ c s)) r.value (plus (ground arith) r.full r.digits),
          subst IsI32 r.value (let l = r.low in omega arith),
        )
    | inr k ↦
        let r = numeral-IsRead pos (2 ^ 31 - 1) (String.◌∷◌ c s) v (rw (e, k) at h) in
        (
          subst (Denotes (String.◌∷◌ c s)) r.value (plain r.full r.digits),
          subst IsI32 r.value (let l = r.low in omega arith),
        )
  ]
]

-- A digit is not a character below the digits.
no_sign :
    (sign : ℕ) (c : Char) (s : String)
    → is_digits (String.◌∷◌ c s) ≡ true
    → sign < b'0'
    → (code c == sign) ≡ false
no_sign sign c s d low = ground arith

pub Denotes-parse_i32 : (s : String) (v : ℤ) → Denotes s v → IsI32 v → parse_i32 s ≡ some v
unfolding parse_i32
Denotes-parse_i32 String.[] v (plain e d) low = absurd (cc)
Denotes-parse_i32 (String.◌∷◌ c s) v (plain e d) low =
    rw (no_sign b'-' c s d (omega arith), no_sign b'+' c s d (omega arith))
      (numeral-digits pos (2 ^ 31 - 1) (String.◌∷◌ c s) refl d (omega arith))
Denotes-parse_i32 (String.◌∷◌ c s) v (plus k e d) low =
    rw (k) (numeral-digits pos (2 ^ 31 - 1) s e d (omega arith))
Denotes-parse_i32 (String.◌∷◌ c s) v (dash k e d) low =
    rw (k) (numeral-digits minus (2 ^ 31) s e d (minus_bound (number s) low))
