-- ===== src/Webrtc/Manager/Shrinks.antt =====
-- The steps of internal/webrtc/peer.go's manager that add no peer: what they leave of the table.
use pmux_agent.Base.{
  ℕ, ◌≤◌, ◌≡◌, refl, sym, ap, subst, ◌∙◌, ==_iff, inl, inr, ◌⊎◌, Bool, true, false, List, [], ◌∷◌,
  some, Bytes, length, ◌==◌, str_eq, if_holds, Bool-cases, arith,
}
use pmux_agent.Base.Map.{Map, lookup, delete, lookup-delete}
use pmux_agent.Webrtc.Manager.State.{Link, Memory, Manager, store}

-- The part of the manager that the invariants are about.
pub record Core : Type 0 where
  pub max_peers : ℕ
  pub closed : Bool
  pub peers : Map Link
  pub replaced_attempts : List Bytes
  pub memory : ℕ → Memory
  pub next_id : ℕ

abbrev pub core : {W : Type 0} → Manager W → Core
core m = record {
  max_peers = m.max_peers;
  closed = m.closed;
  peers = m.peers;
  replaced_attempts = m.replaced_attempts;
  memory = m.memory;
  next_id = m.next_id;
}

pub record Shrinks (a b : Core) : Type 0 where
  pub max_same : b.max_peers ≡ a.max_peers
  pub closed : b.closed ≡ true → (a.closed ≡ true) ⊎ (length b.peers ≡ 0)
  pub fewer : length b.peers ≤ length a.peers
  pub sub : (k : Bytes) (p : Link) → lookup k b.peers ≡ some p → lookup k a.peers ≡ some p
  pub replaced_same : b.replaced_attempts ≡ a.replaced_attempts
  pub silenced : (i : ℕ) → (b.memory i).silenced ≡ (a.memory i).silenced
  pub buffered :
      (i : ℕ) → length (a.memory i).ice_candidates ≤ 64 → length (b.memory i).ice_candidates ≤ 64
  pub id_same : b.next_id ≡ a.next_id

pub Shrinks-refl : (a : Core) → Shrinks a a
Shrinks-refl a = record {
  max_same = refl;
  closed = λ h. inl h;
  fewer = omega arith;
  sub = λ k p h. h;
  replaced_same = refl;
  silenced = λ i. refl;
  buffered = λ i h. h;
  id_same = refl;
}

pub Shrinks-trans : (a b c : Core) → Shrinks a b → Shrinks b c → Shrinks a c
Shrinks-trans a b c f g = record {
  max_same = g.max_same ∙ f.max_same;
  closed = λ h. elim (g.closed h) [
    | inr e ↦ inr e
    | inl e ↦ elim (f.closed e) [
      | inl e' ↦ inl e'
      | inr e' ↦ inr (let l = g.fewer in omega (arith, l, e'))
    ]
  ];
  fewer = let l = g.fewer in let l' = f.fewer in omega (arith, l, l');
  sub = λ k p h. f.sub k p (g.sub k p h);
  replaced_same = g.replaced_same ∙ f.replaced_same;
  silenced = λ i. g.silenced i ∙ f.silenced i;
  buffered = λ i h. g.buffered i (f.buffered i h);
  id_same = g.id_same ∙ f.id_same;
}

pub length-delete-le : (k : Bytes) (m : Map Link) → length (delete k m) ≤ length m
unfolding delete
length-delete-le k [] = omega arith
length-delete-le k ((j, p) ∷ m) = let l = length-delete-le k m in ground (arith, l)

pub delete-sub :
    (k j : Bytes) (p : Link) (m : Map Link) → lookup j (delete k m) ≡ some p → lookup j m ≡ some p
delete-sub k j p m h = elim (Bool-cases (str_eq k j)) [
  | inl e ↦ absurd (let l = lookup-delete k j m in ground (arith, l))
  | inr e ↦ let l = lookup-delete k j m in ground (arith, l)
]

-- Peers that leave the table.
pub delete-Shrinks : (k : Bytes) (a : Core) → Shrinks a (record a { peers = delete k a.peers })
delete-Shrinks k a = record {
  max_same = refl;
  closed = λ h. inl h;
  fewer = length-delete-le k a.peers;
  sub = λ j p h. delete-sub k j p a.peers h;
  replaced_same = refl;
  silenced = λ i. refl;
  buffered = λ i h. h;
  id_same = refl;
}

pub clear-Shrinks : (a : Core) → Shrinks a (record a { peers = []; closed = true })
unfolding lookup
clear-Shrinks a = record {
  max_same = refl;
  closed = λ h. inr refl;
  fewer = omega arith;
  sub = λ j p h. absurd cc;
  replaced_same = refl;
  silenced = λ i. refl;
  buffered = λ i h. h;
  id_same = refl;
}

pub reopen-Shrinks : (a : Core) → Shrinks a (record a { closed = false })
reopen-Shrinks a = record {
  max_same = refl;
  closed = λ h. absurd cc;
  fewer = omega arith;
  sub = λ j p h. h;
  replaced_same = refl;
  silenced = λ i. refl;
  buffered = λ i h. h;
  id_same = refl;
}

-- A write to a peer that neither silences it nor fills its buffer.
pub store-Shrinks :
    (i : ℕ) (x : Memory) (a : Core)
    → x.silenced ≡ (a.memory i).silenced
    → (length (a.memory i).ice_candidates ≤ 64 → length x.ice_candidates ≤ 64)
    → Shrinks a (record a { memory = store i x a.memory })
store-Shrinks i x a same small = record {
  max_same = refl;
  closed = λ h. inl h;
  fewer = omega arith;
  sub = λ j p h. h;
  replaced_same = refl;
  silenced = λ j.
      if_holds (λ y. y.silenced ≡ (a.memory j).silenced) (i == j) x (a.memory j)
        (λ e. same ∙ ap (λ k. (a.memory k).silenced) ((==_iff i j).0 e)) (λ e. refl);
  buffered = λ j h.
      if_holds (λ y. length y.ice_candidates ≤ 64) (i == j) x (a.memory j)
        (λ e.
          small (subst (λ k. length (a.memory k).ice_candidates ≤ 64) (sym ((==_iff i j).0 e)) h))
        (λ e. h);
  id_same = refl;
}
