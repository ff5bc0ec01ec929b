-- ===== src/Strings/Parts.antt =====
-- Cutting a text that was put together from parts.
use pmux_agent.Base.{ℕ, suc, ◌≡◌, ◌≢◌, refl, [], ◌∷◌, ◌++◌, none, some, Bytes, All, arith}
use pmux_agent.Strings.{cut, split_n, split}

abbrev pub Lacks : ℕ → Bytes → Type 0
Lacks sep = All (λ c. c ≢ sep)

-- `cut` at the first separator.
pub cut-append : (sep : ℕ) (a b : Bytes) → Lacks sep a → cut sep (a ++ sep ∷ b) ≡ some (a, b)
unfolding cut
cut-append sep [] b h = ground arith
cut-append sep (c ∷ a) b h = ground (arith, cut-append sep a b h.1)

pub cut-none : (sep : ℕ) (a : Bytes) → Lacks sep a → cut sep a ≡ none
unfolding cut
cut-none sep [] h = refl
cut-none sep (c ∷ a) h = ground (arith, cut-none sep a h.1)

pub split_n-cons :
    (sep n : ℕ) (a b : Bytes)
    → Lacks sep a
    → split_n sep (suc (suc n)) (a ++ sep ∷ b) ≡ a ∷ split_n sep (suc n) b
unfolding split_n
split_n-cons sep n a b h = ground (arith, cut-append sep a b h)

pub split_n-one : (sep : ℕ) (a : Bytes) → split_n sep 1 a ≡ a ∷ []
unfolding split_n
split_n-one sep a = refl

pub split-cons : (sep : ℕ) (a b : Bytes) → Lacks sep a → split sep (a ++ sep ∷ b) ≡ a ∷ split sep b
unfolding split
split-cons sep [] b h = ground arith
split-cons sep (c ∷ a) b h = ground (arith, split-cons sep a b h.1)

pub split-one : (sep : ℕ) (a : Bytes) → Lacks sep a → split sep a ≡ a ∷ []
unfolding split
split-one sep [] h = refl
split-one sep (c ∷ a) h = ground (arith, split-one sep a h.1)
