-- ===== src/Webrtc/Manager/Reachable/Connect.antt =====
-- What the parts of a connect request of internal/webrtc/peer.go leave of the table.
use pmux_agent.Base.{
  ◌+◌, ◌≤◌, ◌≡◌, refl, sym, subst, inl, inr, Bool, true, false, not, List, Option, none, some,
  Bytes, length, ◌==◌, ==_iff, str_eq, str_eq_iff, if_holds, Bool-cases, Option-cases, arith,
}
use pmux_agent.Base.Map.{Map, lookup, delete, insert, lookup-delete}
use pmux_agent.Webrtc.Manager.State.{Network, IceServer, Link, Memory, Manager, store}
use pmux_agent.Webrtc.Manager.Cleanup.{silence, stop_timers, remove_peer, replaced_with}
use pmux_agent.Webrtc.Manager.Connect.{
  Turn, is_full, replace, ice_servers, with_connection, with_servers, insert_peer, advance,
}
use pmux_agent.Webrtc.Manager.Shrinks.{Core, core, Shrinks, delete-sub, length-delete-le}
use pmux_agent.Webrtc.Manager.Quiet.{IsQuiet, tear_down-IsQuiet}
use pmux_agent.Webrtc.Manager.Quiet.Connect.{IsEarly, ice_servers-IsQuiet, offer-IsQuiet}
use pmux_agent.Webrtc.Manager.Table.{
  IsTidy, Shrinks-IsTidy, IsNew, Shrinks-IsNew, insert-IsTidy, length-insert, length-insert_present,
  replaced_with-le,
}

pub delete_apart :
    (k j : Bytes) (p : Link) (m : Map Link) → lookup j (delete k m) ≡ some p → str_eq k j ≡ false
delete_apart k j p m h = elim (Bool-cases (str_eq k j)) [
  | inl e ↦ absurd (let l = lookup-delete k j m in ground (arith, l))
  | inr e ↦ e
]

-- The old peer falls silent and leaves the table.
pub silenced-IsTidy :
    (a : Core) (device : Bytes) (old : Link) (x : Memory)
    → lookup device a.peers ≡ some old
    → x.ice_candidates ≡ (a.memory old.id).ice_candidates
    → IsTidy a
    → IsTidy (record a {
      peers = delete device a.peers;
      replaced_attempts = replaced_with old.attempt_id a.replaced_attempts;
      memory = store old.id x a.memory;
    })
silenced-IsTidy a device old x at same t = record {
  room = let l = length-delete-le device a.peers in let l' = t.room in omega (arith, l, l');
  closed =
      λ h. let l = length-delete-le device a.peers in let l' = t.closed h in omega (arith, l, l');
  replaced = replaced_with-le old.attempt_id a.replaced_attempts t.replaced;
  buffered = λ i.
      if_holds (λ y. length y.ice_candidates ≤ 64) (old.id == i) x (a.memory i)
        (λ e. subst (λ c. length c ≤ 64) (sym same) (t.buffered old.id)) (λ e. t.buffered i);
  keyed = λ k p h. t.keyed k p (delete-sub device k p a.peers h);
  known = λ k p h. t.known k p (delete-sub device k p a.peers h);
  heard = λ k p h.
      let h' = delete-sub device k p a.peers h in
      if_holds (λ y. y.silenced ≡ false) (old.id == p.id) x (a.memory p.id)
        (λ e. absurd (
          let e' = t.apart device k old p at h' ((==_iff old.id p.id).0 e) in
          let f = delete_apart device k p a.peers h in
          let g = (str_eq_iff device k).1 e' in ground (arith, f, g)))
        (λ e. t.heard k p h');
  secret = λ k p h. t.secret k p (delete-sub device k p a.peers h);
  apart = λ j k p q hp hq e.
      t.apart j k p q (delete-sub device j p a.peers hp) (delete-sub device k q a.peers hq) e;
  fresh = λ i h.
      if_holds (λ y. y.silenced ≡ false) (old.id == i) x (a.memory i)
        (λ e. absurd (
          let l = t.known device old at in
          let e' = (==_iff old.id i).0 e in omega (arith, l, e', h)))
        (λ e. t.fresh i h);
}

-- A peer gets its number.
pub numbered-IsTidy : (a : Core) → IsTidy a → IsTidy (record a { next_id = a.next_id + 1 })
numbered-IsTidy a t = record {
  room = t.room;
  closed = t.closed;
  replaced = t.replaced;
  buffered = t.buffered;
  keyed = t.keyed;
  known = λ k p h. let l = t.known k p h in omega (arith, l);
  heard = t.heard;
  secret = t.secret;
  apart = t.apart;
  fresh = λ i h. t.fresh i (omega arith);
}

pub numbered-IsNew :
    (a : Core) (p : Link)
    → IsTidy a
    → p.id ≡ a.next_id
    → (length p.shared_secret == 0) ≡ false
    → IsNew (record a { next_id = a.next_id + 1 }) p
numbered-IsNew a p t e full = record {
  secret = full;
  known = omega arith;
  silent = t.fresh p.id (omega arith);
  outside = λ k q h same. absurd (let l = t.known k q h in omega (arith, l, same, e));
}

abbrev pub IsTidyTurn : Core → Turn → Type 0
IsTidyTurn a Turn.idle = Unit
IsTidyTurn a (Turn.replacing d s k) = (length k == 0) ≡ false
IsTidyTurn a (Turn.tearing p t) = IsEarly t
IsTidyTurn a (Turn.fetching d s k) = (length k == 0) ≡ false
IsTidyTurn a (Turn.inserting p) = IsNew a p
IsTidyTurn a (Turn.offering p) = Unit

pub early : (a : Core) (t : Turn) → IsEarly t → IsTidyTurn a t
early a Turn.idle h = tt
early a (Turn.replacing d s k) h = h
early a (Turn.tearing p t) h = absurd h
early a (Turn.fetching d s k) h = h
early a (Turn.inserting p) h = absurd h
early a (Turn.offering p) h = tt

pub Shrinks-IsTidyTurn : (a b : Core) (t : Turn) → Shrinks a b → IsTidyTurn a t → IsTidyTurn b t
Shrinks-IsTidyTurn a b Turn.idle s h = tt
Shrinks-IsTidyTurn a b (Turn.replacing d s k) r h = h
Shrinks-IsTidyTurn a b (Turn.tearing p t) s h = h
Shrinks-IsTidyTurn a b (Turn.fetching d s k) r h = h
Shrinks-IsTidyTurn a b (Turn.inserting p) s h = Shrinks-IsNew a b p s h
Shrinks-IsTidyTurn a b (Turn.offering p) s h = tt

module _ (network : Network) where
  open network use {World}

  abbrev pub IsTidyRun : Turn × Manager World → Type 0
  IsTidyRun (t, m) = IsTidy (core m) × IsTidyTurn (core m) t

  pub quiet-IsTidyRun :
      (t : Turn) (m n : Manager World) → IsQuiet m n → IsTidyRun (t, m) → IsTidyRun (t, n)
  quiet-IsTidyRun t m n q (h, k) = (
    Shrinks-IsTidy (core m) (core n) q.shrinks h,
    Shrinks-IsTidyTurn (core m) (core n) t q.shrinks k,
  )

  -- A quiet step after which the loop holds no new peer.
  pub early-IsTidyRun :
      (t : Turn) (m n : Manager World)
      → IsEarly t
      → IsQuiet m n
      → IsTidy (core m)
      → IsTidyRun (t, n)
  early-IsTidyRun t m n e q h = (Shrinks-IsTidy (core m) (core n) q.shrinks h, early (core n) t e)

  pub replace-IsTidyRun :
      (device attempt secret : Bytes) (m : Manager World)
      → (length secret == 0) ≡ false
      → IsTidy (core m)
      → IsTidyRun (replace network device attempt secret m)
  unfolding replace remove_peer silence stop_timers
  replace-IsTidyRun device attempt secret m full h = elim (Option-cases (lookup device m.peers)) [
    | inl e ↦ rw (e, replace) (h, full)
    | inr (old, e) ↦ rw (e, replace) (silenced-IsTidy (core m) device old _ e refl h, full)
  ]

  pub with_connection-IsTidyRun :
      (p : Link) (r : Bool × World) (m : Manager World)
      → p.id ≡ m.next_id
      → (length p.shared_secret == 0) ≡ false
      → IsTidy (core m)
      → IsTidyRun (with_connection network p r m)
  unfolding with_connection
  with_connection-IsTidyRun p (true, w) m e full h =
      (numbered-IsTidy (core m) h, numbered-IsNew (core m) p h e full)
  with_connection-IsTidyRun p (false, w) m e full h = (h, tt)

  pub with_servers-IsTidyRun :
      (device attempt secret : Bytes) (r : Option (List IceServer) × Manager World)
      → (length secret == 0) ≡ false
      → IsTidy (core r.1)
      → IsTidyRun (with_servers network device attempt secret r)
  unfolding with_servers
  with_servers-IsTidyRun device attempt secret (none, m) full h = (h, tt)
  with_servers-IsTidyRun device attempt secret (some servers, m) full h =
      with_connection-IsTidyRun _ _ m refl full h

  pub insert-room :
      (p : Link) (m : Manager World)
      → is_full p.device_id m ≡ false
      → length m.peers ≤ m.max_peers
      → length (insert p.device_id p m.peers) ≤ m.max_peers
  unfolding is_full
  insert-room p m h room = elim (Option-cases (lookup p.device_id m.peers)) [
    | inl e ↦ let l = length-insert p.device_id p m.peers in ground (arith, l)
    | inr (q, e) ↦ let l = length-insert_present p.device_id p q m.peers e in ground (arith, l)
  ]

  pub insert_peer-IsTidyRun :
      (p : Link) (m : Manager World)
      → IsTidy (core m)
      → IsNew (core m) p
      → IsTidyRun (insert_peer network p m)
  unfolding insert_peer
  insert_peer-IsTidyRun p m h n =
      if_holds IsTidyRun m.closed _ _ (λ e. (h, tt))
        (λ opened.
          if_holds IsTidyRun (not (str_eq m.allowed_device_id p.device_id)) _ _ (λ e. (h, tt))
            (λ e.
              if_holds IsTidyRun (is_full p.device_id m) _ _ (λ f. (h, tt))
                (λ f. (insert-IsTidy (core m) p h n opened (insert-room p m f h.room), tt))))

  pub advance-IsTidyRun :
      (t : Turn) (m : Manager World) → IsTidyRun (t, m) → IsTidyRun (advance network (t, m))
  unfolding advance
  advance-IsTidyRun Turn.idle m s = s
  advance-IsTidyRun (Turn.replacing d a k) m (h, full) = replace-IsTidyRun d a k m full h
  advance-IsTidyRun (Turn.tearing p t) m (h, e) =
      early-IsTidyRun t m _ e (tear_down-IsQuiet network p m) h
  advance-IsTidyRun (Turn.fetching d a k) m (h, full) =
      with_servers-IsTidyRun d a k (ice_servers network m) full
        (Shrinks-IsTidy (core m) _ (ice_servers-IsQuiet network m).shrinks h)
  advance-IsTidyRun (Turn.inserting p) m (h, n) = insert_peer-IsTidyRun p m h n
  advance-IsTidyRun (Turn.offering p) m (h, _) =
      early-IsTidyRun Turn.idle m _ tt (offer-IsQuiet network p m) h
