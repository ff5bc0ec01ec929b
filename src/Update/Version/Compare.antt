-- ===== src/Update/Version/Compare.antt =====
-- internal/update/version.go: the order of versions that were written as three numbers.
use pmux_agent.Base.{ℕ, ◌^◌, pos, negsuc, ◌≡◌, ◌<◌, ◌⊎◌, ◌↔◌, Bool, Option, Bytes, arith}
use pmux_agent.Update.Version.{compare_part, compare_parsed, compare_versions}
use pmux_agent.Update.Version.Print.{print_version, parse_version-print}

-- The first number in which they differ is less.
unfoldable pub IsOlder : ℕ × ℕ × ℕ → ℕ × ℕ × ℕ → Type 0
IsOlder (a, b, c) (d, e, f) = (a < d) ⊎ ((a ≡ d) × ((b < e) ⊎ ((b ≡ e) × (c < f))))

parsed-IsOlder :
    (a b c d e f : ℕ)
    → (compare_parsed (a, b, c) (d, e, f) ≡ negsuc 0) ↔ IsOlder (a, b, c) (d, e, f)
unfolding compare_parsed compare_part IsOlder
parsed-IsOlder a b c d e f = (λ h. ground (arith, h), λ h. ground (arith, h))

parsed-IsOlder_back :
    (a b c d e f : ℕ) → (compare_parsed (a, b, c) (d, e, f) ≡ pos 1) ↔ IsOlder (d, e, f) (a, b, c)
unfolding compare_parsed compare_part IsOlder
parsed-IsOlder_back a b c d e f = (λ h. ground (arith, h), λ h. ground (arith, h))

parsed-same :
    (a b c d e f : ℕ) → (compare_parsed (a, b, c) (d, e, f) ≡ pos 0) ↔ ((a ≡ d) × (b ≡ e) × (c ≡ f))
unfolding compare_parsed compare_part
parsed-same a b c d e f = (
  λ h. (ground (arith, h), ground (arith, h), ground (arith, h)),
  λ (p, q, r). ground (arith, p, q, r),
)

-- Two versions that were written as three numbers each, below 2 ^ 63, with or without the `v` and a
-- pre-release text: they compare as -1 exactly if the first number in which they differ is less in
-- the first version, as 1 exactly if it is less in the second, and as 0 exactly if the three numbers
-- are the same.
pub compare_versions-IsOlder :
    (v w : Bool) (a b c d e f : ℕ) (s t : Option Bytes)
    → a < 2 ^ 63
    → b < 2 ^ 63
    → c < 2 ^ 63
    → d < 2 ^ 63
    → e < 2 ^ 63
    → f < 2 ^ 63
    → let x = print_version v a b c s in
      let y = print_version w d e f t in
      ((compare_versions x y ≡ negsuc 0) ↔ IsOlder (a, b, c) (d, e, f))
      × ((compare_versions x y ≡ pos 0) ↔ ((a ≡ d) × (b ≡ e) × (c ≡ f)))
      × ((compare_versions x y ≡ pos 1) ↔ IsOlder (d, e, f) (a, b, c))
unfolding compare_versions
compare_versions-IsOlder v w a b c d e f s t ha hb hc hd he hf =
    rw (parse_version-print v a b c s ha hb hc, parse_version-print w d e f t hd he hf)
      (parsed-IsOlder a b c d e f, parsed-same a b c d e f, parsed-IsOlder_back a b c d e f)
