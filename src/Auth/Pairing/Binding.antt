-- ===== src/Auth/Pairing/Binding.antt =====
-- What the binding of internal/auth/pairing.go ties a key to.
use pmux_agent.Base.{
  ◌≡◌, inl, inr, refl, sym, ◌∙◌, true, [], ◌∷◌, ◌++◌, Bytes, length, ◌==◌, Bool-cases, ok, arith,
}
use pmux_agent.Auth.Session.{is_device_id}
use pmux_agent.Auth.Pairing.{pair_bind}

append-injective :
    (xs ys us vs : Bytes) → length xs ≡ length ys → xs ++ us ≡ ys ++ vs → (xs ≡ ys) × (us ≡ vs)
append-injective [] [] us vs n e = (refl, e)
append-injective [] (y ∷ ys) us vs n e = absurd (omega (arith, n))
append-injective (x ∷ xs) [] us vs n e = absurd (omega (arith, n))
append-injective (x ∷ xs) (y ∷ ys) us vs n e =
    let tails : xs ++ us ≡ ys ++ vs = cc in
    let (p, q) = append-injective xs ys us vs (omega (arith, n)) tails in
    let same : x ≡ y = cc in (cc, q)

device_id-length : (id : Bytes) → is_device_id id ≡ true → length id ≡ 32
unfolding is_device_id
device_id-length id e = ground (arith, e)

-- What a binding that was built is made of.
unfoldable pub IsBinding : Bytes → Bytes → Bytes → Bytes → Bytes → Type 0
IsBinding b host_pub mobile_pub host_id mobile_id =
    (length host_pub ≡ 32)
    × (length mobile_pub ≡ 32)
    × (length host_id ≡ 32)
    × (host_pub ++ (mobile_pub ++ (host_id ++ mobile_id)) ≡ b)

pair_bind-IsBinding : (h m i j b : Bytes) → pair_bind h m i j ≡ ok b → IsBinding b h m i j
unfolding pair_bind IsBinding
pair_bind-IsBinding h m i j b e = elim (Bool-cases (length h == 32)) [
  | inr f ↦ absurd (ground arith)
  | inl f ↦ elim (Bool-cases (length m == 32)) [
    | inr g ↦ absurd (ground arith)
    | inl g ↦ elim (Bool-cases (is_device_id i)) [
      | inr k ↦ absurd (ground arith)
      | inl k ↦ elim (Bool-cases (is_device_id j)) [
        | inr l ↦ absurd (ground arith)
        | inl l ↦ (ground (arith, f), ground (arith, g), device_id-length i k, ground arith)
      ]
    ]
  ]
]

-- If the binding is built for two exchanges and is the same for both, then they agree in both public keys
-- and both device IDs.
pub pair_bind_injective :
    (h m i j h' m' i' j' b : Bytes)
    → pair_bind h m i j ≡ ok b
    → pair_bind h' m' i' j' ≡ ok b
    → (h ≡ h') × (m ≡ m') × (i ≡ i') × (j ≡ j')
unfolding IsBinding
pair_bind_injective h m i j h' m' i' j' b e e' =
    let (nh, nm, ni, p) = pair_bind-IsBinding h m i j b e in
    let (nh', nm', ni', p') = pair_bind-IsBinding h' m' i' j' b e' in
    let (a, r) =
      append-injective h h' (m ++ (i ++ j)) (m' ++ (i' ++ j')) (nh ∙ sym nh') (p ∙ sym p') in
    let (c, t) = append-injective m m' (i ++ j) (i' ++ j') (nm ∙ sym nm') r in
    let (d, f) = append-injective i i' j j' (ni ∙ sym ni') t in (a, c, d, f)
