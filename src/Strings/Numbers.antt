-- ===== src/Strings/Numbers.antt =====
-- `strconv.Atoi` and `ParseInt(s, 10, 64)` on a 64-bit `int`, and `Itoa`.
use Prim.Native.Nat.{zero, suc}
use native.Mathlib.Nat.{pow-suc}
use native.Mathlib.Numerals.{add-one}
use mathlib.Core.List.{cons-ne-nil, concat-ne-nil}
use pmux_agent.Base.{
  ℕ, ◌+◌, ◌-◌, ◌*◌, ◌/◌, ◌%◌, ◌^◌, ◌≤◌, ◌<◌, ℤ, pos, negsuc, ◌≡◌, ◌≢◌, refl, sym, ◌∙◌, Bool, true,
  false, not, ◌&&◌, [], ◌∷◌, ◌++◌, append_assoc, append-nil, Bytes, All, ltb, leb, ◌==◌,
  if◌then◌else◌, arith, ap, All-append, Bool-cases, inl, inr,
}

-- A value, or an error. An error of the range still carries the nearest value.
pub data Parsed : Type 0 where
  value : ℤ → Parsed
  bad_syntax : Parsed
  bad_range : ℤ → Parsed

-- What `n, _ := strconv.Atoi(s)` leaves in `n`.
abbrev pub or_nearest : Parsed → ℤ
or_nearest (Parsed.value z) = z
or_nearest Parsed.bad_syntax = pos 0
or_nearest (Parsed.bad_range z) = z

abbrev pub is_digit : ℕ → Bool
is_digit c = leb b'0' c && leb c b'9'

pub data Unsigned : Type 0 where
  fits : ℕ → Unsigned
  no_digit : Unsigned
  overflow : Unsigned

abbrev pub u64 : ℕ
u64 = 2 ^ 64

abbrev pub half64 : ℕ
half64 = 2 ^ 63

-- The loop of `ParseUint`, on the number so far.
unfoldable pub scan : Bytes → ℕ → Unsigned
scan [] n = Unsigned.fits n
scan (c ∷ s) n =
    let n' = n * 10 + (c - b'0') in
    let rest = scan s n' in
    if not (is_digit c) then Unsigned.no_digit else if leb u64 n' then Unsigned.overflow else rest

unfoldable pub parse_uint : Bytes → Unsigned
unfolding scan
parse_uint [] = Unsigned.no_digit
parse_uint (c ∷ s) = scan (c ∷ s) 0

-- -n.
abbrev pub neg : ℕ → ℤ
neg zero = pos 0
neg (suc n) = negsuc n

abbrev pub signed : Bool → Unsigned → Parsed
signed is_neg Unsigned.no_digit = Parsed.bad_syntax
signed true Unsigned.overflow = Parsed.bad_range (neg half64)
signed false Unsigned.overflow = Parsed.bad_range (pos (half64 - 1))
signed true (Unsigned.fits n) =
    if ltb half64 n then Parsed.bad_range (neg half64) else Parsed.value (neg n)
signed false (Unsigned.fits n) =
    if leb half64 n then Parsed.bad_range (pos (half64 - 1)) else Parsed.value (pos n)

unfoldable pub atoi : Bytes → Parsed
unfolding parse_uint
atoi [] = Parsed.bad_syntax
atoi (c ∷ s) =
    if c == b'-'
    then signed true (parse_uint s)
    else if c == b'+'
    then signed false (parse_uint s)
    else signed false (parse_uint (c ∷ s))

-- The decimal digits of a number below 10 ^ k.
unfoldable pub decimal : ℕ → ℕ → Bytes
decimal zero n = []
decimal (suc k) n =
    let front = decimal k (n / 10) in
    if ltb n 10 then (b'0' + n) ∷ [] else front ++ (b'0' + n % 10) ∷ []

-- Twenty digits are enough for 64 bits.
unfoldable pub itoa : ℤ → Bytes
unfolding decimal
itoa (pos n) = decimal 20 n
itoa (negsuc n) = b'-' ∷ decimal 20 (n + 1)

scan_digit :
    (m d : ℕ) (t : Bytes)
    → d < 10
    → m * 10 + d < u64
    → scan ((b'0' + d) ∷ t) m ≡ scan t (m * 10 + d)
unfolding scan
scan_digit m d t h f = ground arith

scan-decimal : (k n : ℕ) (t : Bytes) → n < 10 ^ k → n < u64 → scan (decimal k n ++ t) 0 ≡ scan t n
unfolding decimal
scan-decimal zero n t h f = ap (scan t) (omega arith)
scan-decimal (suc k) n t h f = elim (Bool-cases (ltb n 10)) [
  | inl one ↦ rw one (scan_digit 0 n t (ground arith) (omega arith) ∙ ap (scan t) (omega arith))
  | inr more ↦
      rw (more, append_assoc)
        (scan-decimal k (n / 10) ((b'0' + n % 10) ∷ t) (omega (arith, pow-suc 10 k)) (omega arith)
          ∙ scan_digit (n / 10) (n % 10) t (omega arith) (omega arith)
          ∙ ap (scan t) (omega arith))
]

-- Digits are digits.
pub decimal-All : (k n : ℕ) → n < 10 ^ k → All (λ c. (48 ≤ c) × (c ≤ 57)) (decimal k n)
unfolding decimal
decimal-All zero n h = tt
decimal-All (suc k) n h = elim (Bool-cases (ltb n 10)) [
  | inl one ↦ rw one (ground arith)
  | inr more ↦ rw more (
      All-append _ (decimal k (n / 10)) _ (decimal-All k (n / 10) (omega (arith, pow-suc 10 k)))
        (omega arith))
]

wider : (s : Bytes) → All (λ c. (48 ≤ c) × (c ≤ 57)) s → All (λ c. (45 ≤ c) × (c ≤ 57)) s
wider [] a = tt
wider (c ∷ s) (h, a) = (omega arith, wider s a)

decimal-ne-nil : (k n : ℕ) → decimal (suc k) n ≢ []
unfolding decimal
decimal-ne-nil k n = elim (Bool-cases (ltb n 10)) [
  | inl one ↦ rw one (cons-ne-nil _ _)
  | inr more ↦ rw more (concat-ne-nil _ (decimal k (n / 10)))
]

parse_uint-scan : (s : Bytes) → s ≢ [] → parse_uint s ≡ scan s 0
unfolding parse_uint
parse_uint-scan [] h = absurd (h refl)
parse_uint-scan (c ∷ s) h = refl

parse_uint-decimal : (n : ℕ) → n < u64 → parse_uint (decimal 20 n) ≡ Unsigned.fits n
unfolding scan
parse_uint-decimal n f =
    parse_uint-scan (decimal 20 n) (decimal-ne-nil 19 n)
    ∙ ap (λ s. scan s 0) (sym (append-nil (decimal 20 n)))
    ∙ scan-decimal 20 n [] (omega arith) f

atoi-digits :
    (s : Bytes) → s ≢ [] → All (λ c. (48 ≤ c) × (c ≤ 57)) s → atoi s ≡ signed false (parse_uint s)
unfolding atoi
atoi-digits [] h a = absurd (h refl)
atoi-digits (c ∷ s) h a = ground arith

abbrev pub IsInt64 : ℤ → Type 0
IsInt64 (pos n) = n < half64
IsInt64 (negsuc n) = n < half64

-- A number of 64 bits is read back from its decimal print.
pub atoi-itoa : (z : ℤ) → IsInt64 z → atoi (itoa z) ≡ Parsed.value z
unfolding itoa
atoi-itoa (pos n) h =
    atoi-digits (decimal 20 n) (decimal-ne-nil 19 n) (decimal-All 20 n (omega arith))
    ∙ ap (signed false) (parse_uint-decimal n (omega arith))
    ∙ ground arith
atoi-itoa (negsuc n) h =
    unfold atoi in
    ap (signed true) (parse_uint-decimal (n + 1) (omega arith)) ∙ rw add-one (ground arith)

-- No byte of a print is a byte other than a digit or the sign.
pub itoa-All : (z : ℤ) → IsInt64 z → All (λ c. (45 ≤ c) × (c ≤ 57)) (itoa z)
unfolding itoa
itoa-All (pos n) h = wider (decimal 20 n) (decimal-All 20 n (omega arith))
itoa-All (negsuc n) h =
    (omega arith, wider (decimal 20 (n + 1)) (decimal-All 20 (n + 1) (omega arith)))
