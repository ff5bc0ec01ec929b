-- ===== src/Webrtc/Manager/Quiet/Signals.antt =====
-- Answers, candidates and notices in internal/webrtc/peer.go add no peer to the table.
use pmux_agent.Base.{
  refl, inl, inr, Bool, true, false, not, ◌&&◌, [], ◌∷◌, Option, Bytes, length, length-append, leb,
  ◌==◌, str_eq, if_holds, Option-cases, arith, ℤ, ltb,
}
use pmux_agent.Base.Map.{lookup}
use pmux_agent.Webrtc.Manager.State.{Network, Ice, Link, Manager, is_current}
use pmux_agent.Webrtc.Manager.Signals.{
  contains, is_live, is_other_attempt, close_half_built, handle_peer_unavailable, answer_applied,
  clean_up_if_current, after_remote, apply_answer, handle_sdp_answer, buffer_candidate,
  take_candidate, handle_ice_candidate,
}
use pmux_agent.Webrtc.Manager.Shrinks.{core, store-Shrinks}
use pmux_agent.Webrtc.Manager.Quiet.{
  IsQuiet, quiet, IsQuiet-Shrinks, IsQuiet-trans, if_IsQuiet, schedule_cleanup-IsQuiet,
}

module _ (network : Network) where
  open network use {World, connection_state, channel_open, is_stable}

  close_half_built-IsQuiet :
      (attempt : Bytes) (p : Link) (m : Manager World)
      → IsQuiet m (close_half_built network attempt p m)
  unfolding close_half_built
  close_half_built-IsQuiet attempt p m =
      if_IsQuiet m (not (str_eq attempt p.attempt_id) && contains attempt m.replaced_attempts)
        (quiet m m refl)
        (if_IsQuiet m (is_live (channel_open p.id m.world) (connection_state p.id m.world))
          (quiet m m refl) (quiet m _ refl))

  pub handle_peer_unavailable-IsQuiet :
      (device attempt : Bytes) (m : Manager World)
      → IsQuiet m (handle_peer_unavailable network device attempt m)
  unfolding handle_peer_unavailable
  handle_peer_unavailable-IsQuiet device attempt m = elim (Option-cases (lookup device m.peers)) [
    | inl e ↦ rw (e, handle_peer_unavailable) (quiet m m refl)
    | inr (p, e) ↦ rw (e, handle_peer_unavailable) (close_half_built-IsQuiet attempt p m)
  ]

  after_remote-IsQuiet :
      (p : Link) (r : Bool × World) (m : Manager World) → IsQuiet m (after_remote network p r m)
  unfolding after_remote answer_applied clean_up_if_current
  after_remote-IsQuiet p (true, w) m =
      IsQuiet-Shrinks m _ (store-Shrinks p.id _ (core m) refl (λ h. omega arith))
  after_remote-IsQuiet p (false, w) m =
      if_IsQuiet m (is_current p (record m { world = w }))
        (IsQuiet-trans (quiet m (record m { world = w }) refl) (schedule_cleanup-IsQuiet p _))
        (quiet m _ refl)

  apply_answer-IsQuiet :
      (attempt sdp : Bytes) (p : Link) (m : Manager World)
      → IsQuiet m (apply_answer network attempt sdp p m)
  unfolding apply_answer
  apply_answer-IsQuiet attempt sdp p m =
      if_IsQuiet m (is_other_attempt p attempt) (quiet m m refl)
        (if_IsQuiet m (is_stable p.id m.world) (quiet m m refl) (after_remote-IsQuiet p _ m))

  pub handle_sdp_answer-IsQuiet :
      (device attempt sdp : Bytes) (m : Manager World)
      → IsQuiet m (handle_sdp_answer network device attempt sdp m)
  unfolding handle_sdp_answer
  handle_sdp_answer-IsQuiet device attempt sdp m = if_IsQuiet m (length sdp == 0) (quiet m m refl) (
      if_IsQuiet m (ltb (65536) (length sdp)) (quiet m m refl)
        (elim (Option-cases (lookup device m.peers)) [
          | inl e ↦ rw e (quiet m m refl)
          | inr (p, e) ↦ rw e (apply_answer-IsQuiet attempt sdp p m)
        ]))

  buffer_candidate-IsQuiet :
      (p : Link) (c : Ice) (m : Manager World) → IsQuiet m (buffer_candidate network p c m)
  unfolding buffer_candidate
  buffer_candidate-IsQuiet p c m =
      if_holds (IsQuiet m) (leb 64 (length (m.memory p.id).ice_candidates)) _ _
        (λ e. quiet m m refl)
        (λ e. IsQuiet-Shrinks m _ (
          store-Shrinks p.id _ (core m) refl (λ h.
            let l = length-append (m.memory p.id).ice_candidates (c ∷ []) in ground (arith, l, e))))

  take_candidate-IsQuiet :
      (attempt : Bytes) (c : Ice) (p : Link) (m : Manager World)
      → IsQuiet m (take_candidate network attempt c p m)
  unfolding take_candidate
  take_candidate-IsQuiet attempt c p m =
      if_IsQuiet m (is_other_attempt p attempt) (quiet m m refl) (
        if_IsQuiet m (not (m.memory p.id).remote_desc_set) (buffer_candidate-IsQuiet p c m)
          (quiet m _ refl))

  pub handle_ice_candidate-IsQuiet :
      (device attempt candidate mid : Bytes) (index : Option ℤ) (m : Manager World)
      → IsQuiet m (handle_ice_candidate network device attempt candidate mid index m)
  unfolding handle_ice_candidate
  handle_ice_candidate-IsQuiet device attempt candidate mid index m =
      elim (Option-cases (lookup device m.peers)) [
        | inl e ↦ rw (e, handle_ice_candidate) (quiet m m refl)
        | inr (p, e) ↦ rw (e, handle_ice_candidate) (take_candidate-IsQuiet attempt _ p m)
      ]
