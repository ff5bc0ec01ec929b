-- ===== src/Tmux/TitleFilter/Strips/Kept.antt =====
-- internal/tmux/titlefilter.go: its output against its input, titles and what it still holds.
use mathlib.Core.List.{flatten}
use mathlib.Core.Option.{some-injective}
use pmux_agent.Tmux.TitleFilter.Chunks.{feed, feed_total, feed-seen, observe}
use pmux_agent.Base.{
  some, ℕ, ◌≤◌, ◌≡◌, ◌≢◌, refl, sym, subst, ap, ◌∙◌, false, List, [], ◌∷◌, ◌++◌, append-nil,
  append_assoc, Bytes, length, length-append, ◌==◌, ==_iff, arith, ltb, Bool-cases, inl, inr,
}
use pmux_agent.Tmux.TitleFilter.{
  TitleFilter, TitleState, esc, backslash, after_esc, title_byte, after_esc_in_title, append_title,
  new_title_filter,
}
use pmux_agent.Tmux.TitleFilter.Bytewise.{run, step, step_in, pass_byte}
use pmux_agent.Tmux.TitleFilter.Strips.{
  Strips, plain, lone, long, title, Ready, ReadyEsc, Settled, Settled-Strips, joined, LacksSt,
  LacksSt-other, LacksSt-any, EndsNotEsc, EndsNotEsc-snoc, Pending, Inv,
}

esc_ne_k : esc ≢ b'k'
esc_ne_k = omega arith

==_ne : (a b : ℕ) → (a == b) ≡ false → a ≢ b
==_ne a b h = ground arith

-- What is output when the title buffer runs over.
overflown :
    (s out buf body : Bytes)
    → ReadyEsc s out
    → buf ≡ esc ∷ b'k' ∷ body
    → LacksSt body
    → length body ≡ 511
    → Ready (s ++ buf) (out ++ buf)
overflown s out buf body h e l n =
    subst (λ u. Ready (s ++ u) (out ++ u)) (sym e)
      λ s' t' r.
        joined s out (esc ∷ b'k' ∷ body) s' t'
          (h (esc ∷ b'k' ∷ (body ++ s')) (esc ∷ b'k' ∷ (body ++ t')) esc_ne_k (long body l n r))

append-Inv :
    (s body : Bytes) (b : ℕ) (f : TitleFilter)
    → ReadyEsc s f.out
    → length f.title_buf ≤ 512
    → f.title_buf ++ b ∷ [] ≡ esc ∷ b'k' ∷ body
    → LacksSt body
    → Settled f.state s f.out
    → (length (f.title_buf ++ b ∷ []) ≤ 512
        → Pending f.state (f.title_buf ++ b ∷ []) (f.title_buf ++ b ∷ []))
    → Inv (s ++ (f.title_buf ++ b ∷ [])) (append_title b f)
unfolding append_title
append-Inv s body b f h m e l q next =
    elim (Bool-cases (ltb 512 (length (f.title_buf ++ b ∷ [])))) [
      | inl over ↦
          let size = ap length e in
          let grew = length-append f.title_buf (b ∷ []) in
          let n : length body ≡ 511 = ground (arith, over, size, grew, m) in
          rw over (
            s ++ (f.title_buf ++ b ∷ []),
            [],
            sym (append-nil _),
            overflown s f.out (f.title_buf ++ b ∷ []) body h e l n,
            refl,
          )
      | inr fits ↦ rw fits (s, f.title_buf ++ b ∷ [], refl, q, next (ground arith))
    ]

pass_byte-Inv :
    (s : Bytes) (b : ℕ) (f : TitleFilter)
    → Ready s f.out
    → f.state ≡ TitleState.passthrough
    → Inv (s ++ b ∷ []) (pass_byte b f)
unfolding pass_byte
pass_byte-Inv s b f h e = elim (Bool-cases (b == esc)) [
  | inl hit ↦
      rw hit
        (s, esc ∷ [], ap (λ x. s ++ x ∷ []) ((==_iff b esc).0 hit), λ s' t' k r. h s' t' r, refl)
  | inr miss ↦
      rw (miss, e)
        (
          s ++ b ∷ [],
          [],
          sym (append-nil _),
          λ s' t' r.
              joined s f.out (b ∷ []) s' t' (h (b ∷ s') (b ∷ t') (plain b (==_ne b esc miss) r)),
          refl,
        )
]

after_esc-Inv :
    (s : Bytes) (b : ℕ) (f : TitleFilter)
    → ReadyEsc s f.out
    → f.state ≡ TitleState.saw_esc
    → Inv (s ++ esc ∷ b ∷ []) (after_esc b f)
unfolding after_esc
after_esc-Inv s b f h e = elim (Bool-cases (b == b'k')) [
  | inl k ↦ rw k (
    s,
    esc ∷ b ∷ [],
    refl,
    h,
    (ap (λ x. esc ∷ x ∷ []) ((==_iff b b'k').0 k), omega arith, ([], refl, tt, tt)),
  )
  | inr other ↦ elim (Bool-cases (b == esc)) [
    | inl again ↦
        rw (other, again, e)
          (
            s ++ esc ∷ [],
            esc ∷ [],
            ap (λ x. s ++ esc ∷ x ∷ []) ((==_iff b esc).0 again)
                ∙ sym (append_assoc s (esc ∷ []) (esc ∷ [])),
            λ s' t' k r.
                joined s f.out (esc ∷ []) s' t' (h (esc ∷ s') (esc ∷ t') esc_ne_k (lone k r)),
            refl,
          )
    | inr copy ↦
        rw (other, copy)
          (
            s ++ esc ∷ b ∷ [],
            [],
            sym (append-nil _),
            λ s' t' r. joined s f.out (esc ∷ b ∷ []) s' t' (
                h (esc ∷ b ∷ s') (esc ∷ b ∷ t') esc_ne_k
                  (lone (==_ne b b'k' other) (plain b (==_ne b esc copy) r))),
            refl,
          )
  ]
]

grown :
    (buf body : Bytes) (b x : ℕ)
    → buf ≡ esc ∷ b'k' ∷ body
    → b ≡ x
    → buf ++ b ∷ [] ≡ esc ∷ b'k' ∷ (body ++ x ∷ [])
grown buf body b x e h = ap (λ t. t ++ b ∷ []) e ∙ ap (λ y. esc ∷ b'k' ∷ (body ++ y ∷ [])) h

title_byte-Inv :
    (s body : Bytes) (b : ℕ) (f : TitleFilter)
    → ReadyEsc s f.out
    → length f.title_buf ≤ 512
    → f.title_buf ≡ esc ∷ b'k' ∷ body
    → LacksSt body
    → EndsNotEsc body
    → f.state ≡ TitleState.in_title
    → Inv (s ++ (f.title_buf ++ b ∷ [])) (title_byte b f)
unfolding title_byte
title_byte-Inv s body b f h m e l n st =
    let longer = grown f.title_buf body b b e refl in
    let lacks = LacksSt-any body b l n in
    elim (Bool-cases (b == esc)) [
      | inl hit ↦
          rw (hit, append_title)
            (append-Inv s (body ++ b ∷ []) b (record f { state = TitleState.saw_esc_in_title }) h m
              longer lacks h
              λ fits. (
                refl,
                fits,
                (
                  body,
                  grown f.title_buf body b esc e ((==_iff b esc).0 hit),
                  LacksSt-any body esc l n,
                ),
              ))
      | inr miss ↦
          rw (miss, append_title)
            (append-Inv s (body ++ b ∷ []) b f h m longer lacks
              (subst (λ t. Settled t s f.out) (sym st) h)
              λ fits.
                subst (λ t. Pending t (f.title_buf ++ b ∷ []) (f.title_buf ++ b ∷ [])) (sym st)
                  (
                    refl,
                    fits,
                    (body ++ b ∷ [], longer, lacks, EndsNotEsc-snoc body b (==_ne b esc miss)),
                  ))
    ]

ended :
    (s out buf body : Bytes) (b : ℕ)
    → ReadyEsc s out
    → buf ≡ esc ∷ b'k' ∷ (body ++ esc ∷ [])
    → LacksSt (body ++ esc ∷ [])
    → length buf ≤ 512
    → b ≡ backslash
    → Ready (s ++ (buf ++ b ∷ [])) out
ended s out buf body b h e l n eb =
    let whole =
      grown buf (body ++ esc ∷ []) b backslash e eb
      ∙ ap (λ x. esc ∷ b'k' ∷ x) (append_assoc body (esc ∷ []) (backslash ∷ [])) in
    let size = ap length e in
    let short : length body ≤ 509 = omega (arith, size, length-append body (esc ∷ [])) in
    let u = esc ∷ b'k' ∷ (body ++ esc ∷ backslash ∷ []) in
    subst (λ v. Ready (s ++ v) out) (sym whole)
      λ s' t' r.
        subst (λ v. Strips v (out ++ t')) (sym (append_assoc s u s'))
          (subst (λ v. Strips (s ++ (esc ∷ b'k' ∷ v)) (out ++ t'))
            (sym (append_assoc body (esc ∷ backslash ∷ []) s'))
            (h (esc ∷ b'k' ∷ (body ++ esc ∷ backslash ∷ s')) t' esc_ne_k (title body l short r)))

after_esc_in_title-Inv :
    (s body : Bytes) (b : ℕ) (f : TitleFilter)
    → ReadyEsc s f.out
    → f.title_buf ≡ esc ∷ b'k' ∷ (body ++ esc ∷ [])
    → LacksSt (body ++ esc ∷ [])
    → length f.title_buf ≤ 512
    → f.state ≡ TitleState.saw_esc_in_title
    → Inv (s ++ (f.title_buf ++ b ∷ [])) (after_esc_in_title b f)
unfolding after_esc_in_title
after_esc_in_title-Inv s body b f h e l n st = elim (Bool-cases (b == backslash)) [
  | inl over ↦
      rw (over, append_title)
        (
          s ++ (f.title_buf ++ b ∷ []),
          [],
          sym (append-nil _),
          ended s f.out f.title_buf body b h e l n ((==_iff b backslash).0 over),
          refl,
        )
  | inr more ↦
      let longer = grown f.title_buf (body ++ esc ∷ []) b b e refl in
      let lacks = LacksSt-other (body ++ esc ∷ []) b l (==_ne b backslash more) in
      elim (Bool-cases (b == esc)) [
        | inl again ↦
            rw (more, again, append_title)
              (append-Inv s ((body ++ esc ∷ []) ++ b ∷ []) b f h n longer lacks
                (subst (λ t. Settled t s f.out) (sym st) h)
                λ fits.
                  subst (λ t. Pending t (f.title_buf ++ b ∷ []) (f.title_buf ++ b ∷ [])) (sym st)
                    (
                      refl,
                      fits,
                      (
                        body ++ esc ∷ [],
                        grown f.title_buf (body ++ esc ∷ []) b esc e ((==_iff b esc).0 again),
                        LacksSt-other (body ++ esc ∷ []) esc l (omega arith),
                      ),
                    ))
        | inr other ↦
            rw (more, other, append_title)
              (append-Inv s ((body ++ esc ∷ []) ++ b ∷ []) b
                (record f { state = TitleState.in_title }) h n longer lacks h
                λ fits. (
                  refl,
                  fits,
                  (
                    (body ++ esc ∷ []) ++ b ∷ [],
                    longer,
                    lacks,
                    EndsNotEsc-snoc (body ++ esc ∷ []) b (==_ne b esc other),
                  ),
                ))
      ]
]

Inv-eq : {c c' : Bytes} (f : TitleFilter) → c ≡ c' → Inv c f → Inv c' f
Inv-eq f e i = subst (λ x. Inv x f) e i

step_in-Inv :
    (t : TitleState) (c : Bytes) (b : ℕ) (f : TitleFilter)
    → f.state ≡ t
    → (s : Bytes) (p : Bytes) → c ≡ s ++ p
    → Settled t s f.out
    → Pending t f.title_buf p
    → Inv (c ++ b ∷ []) (step_in t b f)
unfolding step_in
step_in-Inv t c b f e s p ec h q =
    Inv-eq _ (sym (ap (λ x. x ++ b ∷ []) ec ∙ append_assoc s p (b ∷ []))) (at_state t e h q)
  where
    at_state :
        (t : TitleState)
        → f.state ≡ t
        → Settled t s f.out
        → Pending t f.title_buf p
        → Inv (s ++ (p ++ b ∷ [])) (step_in t b f)
    at_state TitleState.passthrough e h q = rw q (pass_byte-Inv s b f h e)
    at_state TitleState.saw_esc e h q = rw q (after_esc-Inv s b f h e)
    at_state TitleState.in_title e h (q, n, (body, eb, l, k)) =
        rw q (title_byte-Inv s body b f h n eb l k e)
    at_state TitleState.saw_esc_in_title e h (q, n, (body, eb, l)) =
        rw q (after_esc_in_title-Inv s body b f h eb l n e)

run-Inv : (d c : Bytes) (f : TitleFilter) → Inv c f → Inv (c ++ d) (run d f)
unfolding run step
run-Inv [] c f i = Inv-eq f (sym (append-nil c)) i
run-Inv (b ∷ d) c f (s, p, e, h, q) =
    Inv-eq _ (append_assoc c (b ∷ []) d)
      (run-Inv d (c ++ b ∷ []) (step_in f.state b f) (step_in-Inv f.state c b f refl s p e h q))

Pending-le : (t : TitleState) (buf p : Bytes) → Pending t buf p → length p ≤ 512
Pending-le TitleState.passthrough buf p e = omega (arith, ap length e)
Pending-le TitleState.saw_esc buf p e = omega (arith, ap length e)
Pending-le TitleState.in_title buf p (e, n, _) = omega (arith, ap length e)
Pending-le TitleState.saw_esc_in_title buf p (e, n, _) = omega (arith, ap length e)

same_view :
    (s p : Bytes) (x y : Bytes × TitleState × Bytes)
    → some x ≡ some y
    → Strips s y.0
    → Pending y.1 y.2 p
    → Strips s x.0 × Pending x.1 x.2 p
same_view s p x y e h k =
    subst (λ z. Strips s z.0 × Pending z.1 z.2 p) (sym (some-injective x y e)) (h, k)

-- From a new filter every stream of chunks is some text `s` and a last part `p` that the filter still
-- holds: nothing, an escape byte, or the start of a title, and at most 512 bytes. What is output is `s`
-- less its titles: exactly the titles of at most 509 bytes are left out that begin where, read from the
-- left, no title and no overlong start of a title (`ESC k` and 511 bytes without an end) is under way.
pub feed-Strips :
    (cs : List Bytes)
    → (o : Bytes) × (g : TitleFilter) × (s : Bytes) × (p : Bytes) × (feed cs new_title_filter
        ≡ some (o, g))
      × (flatten cs ≡ s ++ p)
      × Strips s o
      × Pending g.state g.title_buf p
      × (length p ≤ 512)
unfolding new_title_filter
feed-Strips cs =
    let ((o, g), e) = feed_total cs new_title_filter in
    let (s, p, whole, kept, held) =
      run-Inv (flatten cs) [] new_title_filter ([], [], refl, λ s' t' r. r, refl) in
    let same = ap observe (sym e) ∙ feed-seen cs new_title_filter in
    let (kept', held') =
      same_view s p (o, g.state, g.title_buf) _ same (Settled-Strips _ s _ kept) held in
    (o, g, s, p, e, whole, kept', held', Pending-le g.state g.title_buf p held')
