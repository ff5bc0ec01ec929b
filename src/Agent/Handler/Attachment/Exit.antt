-- ===== src/Agent/Handler/Attachment/Exit.antt =====
-- `detachPeerWait` of internal/agent/handler.go: the channels, contexts and marks of the streams.
use pmux_agent.Base.{
  ℕ, ◌≡◌, refl, sym, true, false, ◌&&◌, List, [], ◌∷◌, Option, none, some, Bytes, arith, ==_refl,
  subst, if_holds, if◌then◌else◌,
}
use pmux_agent.Base.Map.{lookup, lookup-delete_self}
use pmux_agent.Agent.Handler.State.{Backend, Bridge, State, elem, remove}
use pmux_agent.Agent.Handler.Detach.{
  mark_superseded, forget_attachment, cancel_context, is_shut, is_stream_of, end_stream,
  exit_stream, await_stream, close_if_any, release_pane, forget_if_any, detach_peer_wait,
  detach_peer,
}

-- The streams that are known to the handler.
pub record Ledger : Type 0 where
  pub closed : List ℕ
  pub superseded : List ℕ
  pub canceled : List ℕ
  pub shut : List ℕ
  pub blocked : List ℕ
  pub done : Option ℕ

unfoldable pub ledger : {W : Type 0} → Bytes → State W → Ledger
ledger p s = record {
  closed = s.closed;
  superseded = s.superseded;
  canceled = s.canceled;
  shut = s.shut;
  blocked = s.blocked;
  done = lookup p s.stream_done;
}

elem-remove : (d : ℕ) (xs : List ℕ) → elem d (remove d xs) ≡ false
unfolding elem remove
elem-remove d [] = refl
elem-remove d (x ∷ xs) = ground (arith, elem-remove d xs)

elem-first : (d : ℕ) (xs : List ℕ) → elem d (d ∷ xs) ≡ true
unfolding elem
elem-first d xs = rw ==_refl refl

-- What is left of a stream that has ended: its context is canceled and its bridge closed, nothing waits
-- for it nor is blocked in vain, its channel is closed, and its mark is gone.
pub record HasEnded (b : Bridge) (d : ℕ) (blocked : List ℕ) (l : Ledger) : Type 0 where
  pub canceled : elem d l.canceled ≡ true
  pub shut : elem b.id l.shut ≡ true
  pub done : l.done ≡ none
  pub closed : elem d l.closed ≡ true
  pub unmarked : elem d l.superseded ≡ false
  pub unblocked : l.blocked ≡ blocked

module _ (backend : Backend) (p : Bytes) where
  open backend use {World}

  release_pane-ledger :
      (pane : Bytes) (s : State World) → ledger p (release_pane backend pane s) ≡ ledger p s
  unfolding release_pane ledger
  release_pane-ledger [] s = refl
  release_pane-ledger (c ∷ pane) s = refl

  exit_stream-HasEnded :
      (b : Bridge) (d : ℕ) (s : State World)
      → lookup p s.stream_done ≡ some d
      → elem d s.canceled ≡ true
      → elem b.id s.shut ≡ true
      → HasEnded b d s.blocked (ledger p (exit_stream backend p d s))
  unfolding exit_stream end_stream ledger
  exit_stream-HasEnded b d s h canceled shut = record {
    canceled = canceled;
    shut = shut;
    done = rw (h, is_stream_of, ==_refl) (lookup-delete_self p s.stream_done);
    closed = elem-first d s.closed;
    unmarked = elem-remove d s.superseded;
    unblocked = refl;
  }

  await_stream-HasEnded :
      (b : Bridge) (d : ℕ) (s : State World)
      → lookup p s.stream_done ≡ some d
      → elem d s.closed ≡ false
      → elem d s.canceled ≡ true
      → elem b.id s.shut ≡ true
      → HasEnded b d s.blocked (ledger p (await_stream backend p true (some b) (some d) s))
  unfolding await_stream is_shut
  await_stream-HasEnded b d s h running canceled shut =
      let P = λ (u : State World). HasEnded b d s.blocked (ledger p u) in
      let over = elem d s.canceled && elem b.id s.shut in
      let vain = record s { blocked = d ∷ s.blocked } in
      if_holds P (elem d s.closed) s (if over then exit_stream backend p d s else vain)
        (λ e. absurd (ground (arith, e, running)))
        (λ e.
          if_holds P over (exit_stream backend p d s) vain
            (λ f. exit_stream-HasEnded b d s h canceled shut)
            (λ f. absurd (ground (arith, f, canceled, shut))))

  -- The peer's stream before it is waited for.
  unfoldable let_go : Option Bridge → Option ℕ → Option ℕ → State World → State World
  unfolding close_if_any cancel_context forget_if_any mark_superseded
  let_go bridge cancel done s =
      close_if_any backend bridge
        (cancel_context cancel (forget_if_any backend p bridge (mark_superseded true done s)))

  waited-HasEnded :
      (b : Bridge) (d : ℕ) (s : State World)
      → lookup p s.stream_done ≡ some d
      → elem d s.closed ≡ false
      → HasEnded b d s.blocked (
          ledger p
            (await_stream backend p true (some b) (some d) (let_go (some b) (some d) (some d) s)))
  unfolding let_go forget_attachment
  waited-HasEnded b d s h running =
      await_stream-HasEnded b d (let_go (some b) (some d) (some d) s) h running
        (elem-first d s.canceled) (elem-first b.id s.shut)

  -- A detach of a peer that is attached, with a bridge and a cancel function of the stream that the
  -- handler holds for it, ends that stream if its channel is not closed yet: the context is canceled, the
  -- bridge closed, the wait for the stream's channel ends, no done channel is held for the peer, the
  -- stream's channel is closed, and its mark as superseded is gone, so that it cannot suppress the
  -- message of a later stream.
  pub detach_peer-HasEnded :
      (b : Bridge) (d : ℕ) (s : State World)
      → lookup p s.bridges ≡ some b
      → lookup p s.cancels ≡ some d
      → lookup p s.stream_done ≡ some d
      → elem d s.closed ≡ false
      → HasEnded b d s.blocked (ledger p (detach_peer backend p s))
  unfolding detach_peer detach_peer_wait let_go
  detach_peer-HasEnded b d s bridged cancels streams running =
      let waited = λ (bo : Option Bridge) (co do_ : Option ℕ).
        HasEnded b d s.blocked
          (ledger p (await_stream backend p true bo do_ (let_go bo co do_ s))) in
      subst (HasEnded b d s.blocked) (sym (release_pane-ledger _ _)) (
        subst (λ bo. waited bo (lookup p s.cancels) (lookup p s.stream_done)) (sym bridged)
          (subst (λ co. waited (some b) co (lookup p s.stream_done)) (sym cancels)
            (subst (λ o. waited (some b) (some d) o) (sym streams)
              (waited-HasEnded b d s streams running))))
