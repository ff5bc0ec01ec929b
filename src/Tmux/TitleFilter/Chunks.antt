-- ===== src/Tmux/TitleFilter/Chunks.antt =====
-- A stream of chunks through the filter, as the output loop of internal/agent/handler.go sends it.
use mathlib.Core.List.{flatten}
use pmux_agent.Base.{
  ◌≡◌, refl, sym, ap, ◌∙◌, List, [], ◌∷◌, ◌++◌, append-nil, Option, none, some, Bytes, inl, inr,
  Option-cases,
}
use pmux_agent.Tmux.TitleFilter.{TitleFilter, TitleState, filter}
use pmux_agent.Tmux.TitleFilter.Bytewise.{run, run-nil, run-append, run-behind, behind, filter-run}

-- The outputs of the chunks one behind the other, and the filter at the end.
unfoldable pub feed : List Bytes → TitleFilter → Option (Bytes × TitleFilter)
feed [] f = some ([], f)
feed (c ∷ cs) f = elim (filter c f) [
  | none ↦ none
  | some (o, g) ↦ elim (feed cs g) [ none ↦ none | some (os, h) ↦ some (o ++ os, h) ]
]

-- The output and what later calls depend on.
abbrev pub observe : Option (Bytes × TitleFilter) → Option (Bytes × TitleState × Bytes)
observe none = none
observe (some (o, g)) = some (o, g.state, g.title_buf)

abbrev pub cleared : TitleFilter → TitleFilter
cleared f = record f { out = [] }

abbrev pub seen : TitleFilter → Option (Bytes × TitleState × Bytes)
seen g = some (g.out, g.state, g.title_buf)

abbrev pub behind_seen :
    Bytes → Option (Bytes × TitleState × Bytes) → Option (Bytes × TitleState × Bytes)
behind_seen o none = none
behind_seen o (some (x, t, b)) = some (o ++ x, t, b)

out_behind : (g : TitleFilter) → g ≡ behind g.out (cleared g)
out_behind g = λ i. record g { out = sym (append-nil g.out) i }

pub seen-append :
    (c s : Bytes) (f : TitleFilter)
    → seen (run (c ++ s) (cleared f))
      ≡ behind_seen (run c (cleared f)).out (seen (run s (cleared (run c (cleared f)))))
seen-append c s f =
    let g = run c (cleared f) in
    ap seen
      (run-append c s (cleared f) ∙ ap (run s) (out_behind g) ∙ run-behind s g.out (cleared g))

feed-some :
    (c : Bytes) (cs : List Bytes) (f g : TitleFilter) (o : Bytes)
    → filter c f ≡ some (o, g)
    → observe (feed (c ∷ cs) f) ≡ behind_seen o (observe (feed cs g))
unfolding feed
feed-some c cs f g o e = elim (Option-cases (feed cs g)) [
  | inl e' ↦ rw (e, feed) (rw e')
  | inr (r, e') ↦ rw (e, feed) (rw e')
]

behind_nothing : (r : Option (Bytes × TitleState × Bytes)) → behind_seen [] r ≡ r
behind_nothing none = refl
behind_nothing (some r) = refl

pub feed-seen :
    (cs : List Bytes) (f : TitleFilter) → observe (feed cs f) ≡ seen (run (flatten cs) (cleared f))
unfolding feed flatten
feed-seen [] f = rw (run-nil (cleared f))
feed-seen ([] ∷ cs) f =
    feed-some [] cs f f [] (unfold filter in refl)
    ∙ behind_nothing (observe (feed cs f))
    ∙ feed-seen cs f
feed-seen ((b ∷ s) ∷ cs) f =
    let c = b ∷ s in
    let g = run c (cleared f) in
    feed-some c cs f g g.out (filter-run c f (λ e. cc))
    ∙ ap (behind_seen g.out) (feed-seen cs g)
    ∙ sym (seen-append c (flatten cs) f)

pub filter-seen : (s : Bytes) (f : TitleFilter) → observe (filter s f) ≡ seen (run s (cleared f))
filter-seen [] f = rw (run-nil (cleared f)) (unfold filter in refl)
filter-seen (b ∷ s) f = rw (filter-run (b ∷ s) f (λ e. cc))

-- However a stream is cut into chunks, the filter ends on each, the outputs put together are the
-- output for the whole stream at once, and so is what later calls depend on.
pub feed-flatten :
    (cs : List Bytes) (f : TitleFilter) → observe (feed cs f) ≡ observe (filter (flatten cs) f)
feed-flatten cs f = feed-seen cs f ∙ sym (filter-seen (flatten cs) f)

-- Every stream of chunks gets through.
pub feed_total :
    (cs : List Bytes) (f : TitleFilter) → (r : Bytes × TitleFilter) × (feed cs f ≡ some r)
feed_total cs f = elim (Option-cases (feed cs f)) [
  | inl e ↦ absurd (cc (ap observe (sym e) ∙ feed-seen cs f))
  | inr found ↦ found
]
