-- ===== src/Update/Version.antt =====
-- internal/update/version.go.
pub mod Order
pub mod Print
pub mod Compare
use pmux_agent.Base.{
  ℕ, ℤ, pos, negsuc, Bool, true, false, List, [], ◌∷◌, Bytes, codes, ltb, if◌then◌else◌,
}
use pmux_agent.Strings.{split_n, trim_v}
use pmux_agent.Strings.Numbers.{Parsed, atoi}

-- The number of a part, and 0 for one that is negative or no number.
unfoldable pub part_number : Parsed → ℕ
part_number (Parsed.value (pos n)) = n
part_number _ = 0

-- `strings.SplitN(part, "-", 2)[0]`.
unfoldable pub clean : List Bytes → Bytes
clean [] = []
clean (p ∷ ps) = p

unfoldable pub parse_part : Bytes → ℕ
unfolding part_number clean
parse_part p = part_number (atoi (clean (split_n b'-' 2 p)))

-- The loop over the parts; a missing part stays 0.
unfoldable pub parse_parts : List Bytes → ℕ × ℕ × ℕ
unfolding parse_part
parse_parts [] = (0, 0, 0)
parse_parts (a ∷ []) = (parse_part a, 0, 0)
parse_parts (a ∷ b ∷ []) = (parse_part a, parse_part b, 0)
parse_parts (a ∷ b ∷ c ∷ _) = (parse_part a, parse_part b, parse_part c)

unfoldable pub parse_version : Bytes → ℕ × ℕ × ℕ
unfolding parse_parts
parse_version v = parse_parts (split_n b'.' 3 (trim_v v))

-- One round of the loop of `CompareVersions`.
unfoldable pub compare_part : ℕ → ℕ → ℤ → ℤ
compare_part a b rest = if ltb a b then negsuc 0 else if ltb b a then pos 1 else rest

unfoldable pub compare_parsed : ℕ × ℕ × ℕ → ℕ × ℕ × ℕ → ℤ
unfolding compare_part
compare_parsed (a, b, c) (d, e, f) = compare_part a d (compare_part b e (compare_part c f (pos 0)))

unfoldable pub compare_versions : Bytes → Bytes → ℤ
unfolding parse_version compare_parsed
compare_versions a b = compare_parsed (parse_version a) (parse_version b)
