-- ===== src/Webrtc/Manager/Table.antt =====
-- The table of internal/webrtc/peer.go's manager, and the peers that it tracks, in every order of events.
use pmux_agent.Base.{
  ℕ, ◌+◌, ◌-◌, ◌≤◌, ◌<◌, ◌≡◌, ◌≢◌, refl, sym, ap, subst, ◌∙◌, inl, inr, ◌⊎◌, true, false, List, [],
  ◌∷◌, ◌++◌, some, Bytes, length, length-append, drop, ltb, ◌==◌, str_eq, str_eq→eq, if◌then◌else◌,
  if_holds, Bool-cases, arith,
}
use pmux_agent.Base.Map.{Map, lookup, insert, lookup-insert}
use pmux_agent.Webrtc.Manager.State.{Link}
use pmux_agent.Webrtc.Manager.Cleanup.{replaced_with}
use pmux_agent.Webrtc.Manager.Shrinks.{Core, Shrinks}

-- What holds of the table: its size, the numbers and the voices of its peers, and the bounds of the
-- two lists that remote parties can make grow.
pub record IsTidy (a : Core) : Type 0 where
  pub room : length a.peers ≤ a.max_peers
  pub closed : a.closed ≡ true → length a.peers ≡ 0
  pub replaced : length a.replaced_attempts ≤ 8
  pub buffered : (i : ℕ) → length (a.memory i).ice_candidates ≤ 64
  pub keyed : (k : Bytes) (p : Link) → lookup k a.peers ≡ some p → p.device_id ≡ k
  pub known : (k : Bytes) (p : Link) → lookup k a.peers ≡ some p → p.id < a.next_id
  pub heard : (k : Bytes) (p : Link) → lookup k a.peers ≡ some p → (a.memory p.id).silenced ≡ false
  pub apart :
      (j k : Bytes) (p q : Link)
      → lookup j a.peers ≡ some p
      → lookup k a.peers ≡ some q
      → p.id ≡ q.id
      → j ≡ k
  pub secret :
      (k : Bytes) (p : Link) → lookup k a.peers ≡ some p → (length p.shared_secret == 0) ≡ false
  pub fresh : (i : ℕ) → a.next_id ≤ i → (a.memory i).silenced ≡ false

pub Shrinks-IsTidy : (a b : Core) → Shrinks a b → IsTidy a → IsTidy b
Shrinks-IsTidy a b s t = record {
  room = let l = s.fewer in let l' = t.room in let e = s.max_same in omega (arith, l, l', e);
  closed = λ h. elim (s.closed h) [
    | inl e ↦ let l = s.fewer in let l' = t.closed e in omega (arith, l, l')
    | inr e ↦ e
  ];
  replaced = rw s.replaced_same t.replaced;
  buffered = λ i. s.buffered i (t.buffered i);
  keyed = λ k p h. t.keyed k p (s.sub k p h);
  known = λ k p h. rw s.id_same (t.known k p (s.sub k p h));
  heard = λ k p h. s.silenced p.id ∙ t.heard k p (s.sub k p h);
  apart = λ j k p q hp hq e. t.apart j k p q (s.sub j p hp) (s.sub k q hq) e;
  secret = λ k p h. t.secret k p (s.sub k p h);
  fresh = λ i h. s.silenced i ∙ t.fresh i (subst (λ n. n ≤ i) s.id_same h);
}

-- A peer that has its number and is not yet in the table.
pub record IsNew (a : Core) (p : Link) : Type 0 where
  pub known : p.id < a.next_id
  pub secret : (length p.shared_secret == 0) ≡ false
  pub silent : (a.memory p.id).silenced ≡ false
  pub outside : (k : Bytes) (q : Link) → lookup k a.peers ≡ some q → q.id ≢ p.id

pub Shrinks-IsNew : (a b : Core) (p : Link) → Shrinks a b → IsNew a p → IsNew b p
Shrinks-IsNew a b p s n = record {
  known = rw s.id_same n.known;
  secret = n.secret;
  silent = s.silenced p.id ∙ n.silent;
  outside = λ k q h. n.outside k q (s.sub k q h);
}

length-drop_one : {A : Type 0} (xs : List A) → length (drop 1 xs) ≡ length xs - 1
length-drop_one [] = refl
length-drop_one (x ∷ xs) = omega arith

pub replaced_with-le : (s : Bytes) (l : List Bytes) → length l ≤ 8 → length (replaced_with s l) ≤ 8
unfolding replaced_with
replaced_with-le s l h =
    if_holds (λ x. length x ≤ 8) (length s == 0) l
      (if ltb 8 (length (l ++ s ∷ [])) then drop 1 (l ++ s ∷ []) else l ++ s ∷ []) (λ e. h)
      (λ e.
        if_holds (λ x. length x ≤ 8) (ltb 8 (length (l ++ s ∷ []))) (drop 1 (l ++ s ∷ []))
          (l ++ s ∷ [])
          (λ f.
            let d = length-drop_one (l ++ s ∷ []) in
            let g = length-append l (s ∷ []) in omega (arith, d, g))
          (λ f. ground (arith, f)))

pub length-insert : (k : Bytes) (p : Link) (m : Map Link) → length (insert k p m) ≤ length m + 1
unfolding insert
length-insert k p [] = omega arith
length-insert k p ((j, q) ∷ m) = let l = length-insert k p m in ground (arith, l)

pub length-insert_present :
    (k : Bytes) (p q : Link) (m : Map Link) → lookup k m ≡ some q → length (insert k p m) ≡ length m
unfolding insert lookup
length-insert_present k p q [] h = absurd cc
length-insert_present k p q ((j, r) ∷ m) h = ground (arith, length-insert_present k p q m)

lookup-insert_cases :
    (k j : Bytes) (p q : Link) (m : Map Link)
    → lookup j (insert k p m) ≡ some q
    → ((k ≡ j) × (p ≡ q)) ⊎ (lookup j m ≡ some q)
lookup-insert_cases k j p q m h = elim (Bool-cases (str_eq k j)) [
  | inl e ↦ let l = lookup-insert k j p m in inl (str_eq→eq k j e, ground (arith, l))
  | inr e ↦ let l = lookup-insert k j p m in inr (ground (arith, l))
]

-- The new peer comes into the table.
pub insert-IsTidy :
    (a : Core) (p : Link)
    → IsTidy a
    → IsNew a p
    → a.closed ≡ false
    → length (insert p.device_id p a.peers) ≤ a.max_peers
    → IsTidy (record a { peers = insert p.device_id p a.peers })
insert-IsTidy a p t n opened room = record {
  room = room;
  closed = λ h. absurd (ground arith);
  replaced = t.replaced;
  buffered = t.buffered;
  keyed = λ k q h. elim (lookup-insert_cases p.device_id k p q a.peers h) [
    | inl (e, e') ↦ rw (← e') e
    | inr h' ↦ t.keyed k q h'
  ];
  known = λ k q h. elim (lookup-insert_cases p.device_id k p q a.peers h) [
    | inl (e, e') ↦ rw (← e') n.known
    | inr h' ↦ t.known k q h'
  ];
  heard = λ k q h. elim (lookup-insert_cases p.device_id k p q a.peers h) [
    | inl (e, e') ↦ rw (← e') n.silent
    | inr h' ↦ t.heard k q h'
  ];
  secret = λ k q h. elim (lookup-insert_cases p.device_id k p q a.peers h) [
    | inl (e, e') ↦ rw (← e') n.secret
    | inr h' ↦ t.secret k q h'
  ];
  apart = λ j k q r hq hr e. elim (lookup-insert_cases p.device_id j p q a.peers hq) [
    | inl (e1, e2) ↦ elim (lookup-insert_cases p.device_id k p r a.peers hr) [
      | inl (e3, e4) ↦ sym e1 ∙ e3
      | inr h ↦ absurd (n.outside k r h (sym (ap (λ x. x.id) e2 ∙ e)))
    ]
    | inr h ↦ elim (lookup-insert_cases p.device_id k p r a.peers hr) [
      | inl (e3, e4) ↦ absurd (n.outside j q h (e ∙ sym (ap (λ x. x.id) e4)))
      | inr h' ↦ t.apart j k q r h h' e
    ]
  ];
  fresh = t.fresh;
}
