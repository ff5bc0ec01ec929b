-- ===== src/Update/Version/Order.antt =====
-- internal/update/version.go: the order of versions.
use pmux_agent.Base.{ℕ, zero, suc, ℤ, pos, negsuc, ◌≡◌, Bytes, arith}
use pmux_agent.Update.Version.{parse_version, compare_part, compare_parsed, compare_versions}

unfoldable pub negate : ℤ → ℤ
negate (pos zero) = pos 0
negate (pos (suc n)) = negsuc n
negate (negsuc n) = pos (suc n)

parsed-swap :
    (a b c d e f : ℕ)
    → compare_parsed (d, e, f) (a, b, c) ≡ negate (compare_parsed (a, b, c) (d, e, f))
unfolding compare_parsed compare_part negate
parsed-swap a b c d e f = ground arith

parsed_trans :
    (a b c d e f g h i : ℕ)
    → compare_parsed (a, b, c) (d, e, f) ≡ negsuc 0
    → compare_parsed (d, e, f) (g, h, i) ≡ negsuc 0
    → compare_parsed (a, b, c) (g, h, i) ≡ negsuc 0
unfolding compare_parsed compare_part
parsed_trans a b c d e f g h i u v = ground arith

-- Comparing two versions the other way round gives the opposite result.
pub compare_versions-swap : (v w : Bytes) → compare_versions w v ≡ negate (compare_versions v w)
unfolding compare_versions
compare_versions-swap v w =
    let (a, b, c) = parse_version v in let (d, e, f) = parse_version w in parsed-swap a b c d e f

-- A version that is older than one which is older than a third is older than the third.
pub compare_versions_trans :
    (u v w : Bytes)
    → compare_versions u v ≡ negsuc 0
    → compare_versions v w ≡ negsuc 0
    → compare_versions u w ≡ negsuc 0
unfolding compare_versions
compare_versions_trans u v w h k =
    let (a, b, c) = parse_version u in
    let (d, e, f) = parse_version v in
    let (g, x, y) = parse_version w in parsed_trans a b c d e f g x y h k
