-- ===== src/Update/Version/Print.antt =====
-- internal/update/version.go on a version that was written as three numbers.
use pmux_agent.Base.{
  ℕ, ◌^◌, pos, ◌≡◌, ◌≤◌, ◌<◌, ◌⊎◌, inl, refl, ◌∙◌, ap, Bool, true, false, [], ◌∷◌, ◌++◌, Option,
  none, some, Bytes, All, append-nil, arith,
}
use pmux_agent.Strings.{split_n, trim_v}
use pmux_agent.Strings.Numbers.{itoa, decimal-All, atoi-itoa}
use pmux_agent.Strings.Parts.{Lacks, split_n-cons, split_n-one, cut-none}
use pmux_agent.Update.Version.{part_number, clean, parse_part, parse_parts, parse_version}

-- What stands behind the third number.
unfoldable pub pre_release : Option Bytes → Bytes
pre_release none = []
pre_release (some s) = b'-' ∷ s

unfoldable pub print_version : Bool → ℕ → ℕ → ℕ → Option Bytes → Bytes
unfolding pre_release
print_version true x y z s =
    b'v' ∷ (itoa (pos x) ++ b'.' ∷ (itoa (pos y) ++ b'.' ∷ (itoa (pos z) ++ pre_release s)))
print_version false x y z s =
    itoa (pos x) ++ b'.' ∷ (itoa (pos y) ++ b'.' ∷ (itoa (pos z) ++ pre_release s))

digits-Lacks :
    (sep : ℕ) (s : Bytes) → All (λ c. (48 ≤ c) × (c ≤ 57)) s → (sep < 48) ⊎ (57 < sep) → Lacks sep s
digits-Lacks sep [] h k = tt
digits-Lacks sep (c ∷ s) (h, t) k = (λ e. absurd (ground arith), digits-Lacks sep s t k)

trim_v-digits :
    (s t : Bytes) → All (λ c. (48 ≤ c) × (c ≤ 57)) s → trim_v (s ++ b'.' ∷ t) ≡ s ++ b'.' ∷ t
unfolding trim_v
trim_v-digits [] t h = refl
trim_v-digits (c ∷ s) t h = ground arith

uncut : (a : Bytes) → Lacks b'-' a → split_n b'-' 2 a ≡ a ∷ []
unfolding split_n
uncut a h = rw (cut-none b'-' a h, split_n) refl

module _ (n : ℕ) (fits : n < 2 ^ 63) where
  itoa-digits : All (λ c. (48 ≤ c) × (c ≤ 57)) (itoa (pos n))
  unfolding itoa
  itoa-digits = decimal-All 20 n (omega (arith, fits))

  itoa-Lacks : (sep : ℕ) → (sep < 48) ⊎ (57 < sep) → Lacks sep (itoa (pos n))
  itoa-Lacks sep k = digits-Lacks sep _ itoa-digits k

  parse_part-itoa : parse_part (itoa (pos n)) ≡ n
  unfolding parse_part clean part_number
  parse_part-itoa =
      rw (uncut (itoa (pos n)) (itoa-Lacks b'-' (inl (omega arith))), atoi-itoa (pos n) fits) refl

  parse_part-pre_release : (s : Option Bytes) → parse_part (itoa (pos n) ++ pre_release s) ≡ n
  unfolding pre_release parse_part clean part_number
  parse_part-pre_release none = ap parse_part (append-nil _) ∙ parse_part-itoa
  parse_part-pre_release (some t) =
      rw
        (
          split_n-cons b'-' 0 (itoa (pos n)) t (itoa-Lacks b'-' (inl (omega arith))),
          atoi-itoa (pos n) fits,
        )
        refl

parse_numbers :
    (x y z : ℕ) (s : Option Bytes)
    → x < 2 ^ 63
    → y < 2 ^ 63
    → z < 2 ^ 63
    → parse_parts (
        split_n b'.' 3
          (itoa (pos x) ++ b'.' ∷ (itoa (pos y) ++ b'.' ∷ (itoa (pos z) ++ pre_release s))))
      ≡ (x, y, z)
unfolding parse_parts
parse_numbers x y z s hx hy hz =
    rw
      (
        split_n-cons b'.' 1 (itoa (pos x)) (itoa (pos y) ++ b'.' ∷ (itoa (pos z) ++ pre_release s))
            (itoa-Lacks x hx b'.' (inl (omega arith))),
        split_n-cons b'.' 0 (itoa (pos y)) (itoa (pos z) ++ pre_release s)
            (itoa-Lacks y hy b'.' (inl (omega arith))),
        split_n-one b'.' (itoa (pos z) ++ pre_release s),
        parse_part-itoa x hx,
        parse_part-itoa y hy,
        parse_part-pre_release z hz s,
      )
      refl

-- A version is read as the three numbers that it was written as, with or without the `v` before
-- them and a pre-release text behind them, if each number is below 2 ^ 63.
pub parse_version-print :
    (v : Bool) (x y z : ℕ) (s : Option Bytes)
    → x < 2 ^ 63
    → y < 2 ^ 63
    → z < 2 ^ 63
    → parse_version (print_version v x y z s) ≡ (x, y, z)
unfolding parse_version print_version trim_v
parse_version-print true x y z s hx hy hz = parse_numbers x y z s hx hy hz
parse_version-print false x y z s hx hy hz =
    ap (λ t. parse_parts (split_n b'.' 3 t)) (trim_v-digits _ _ (itoa-digits x hx))
    ∙ parse_numbers x y z s hx hy hz
