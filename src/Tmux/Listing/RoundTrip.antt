-- ===== src/Tmux/Listing/RoundTrip.antt =====
-- The lines that tmux prints for a format string, against the parsers of internal/tmux/tmux.go.
use pmux_agent.Base.{
  ℕ, ◌≤◌, ◌<◌, ℤ, ◌≡◌, ◌≢◌, refl, ap, ◌∙◌, Bool, true, false, List, [], ◌∷◌, ◌++◌, map, Option,
  some, Bytes, codes, All, All-append, str_eq, arith,
}
use pmux_agent.Strings.{split, split_n, join}
use pmux_agent.Strings.Parts.{Lacks, split_n-cons, split_n-one, split-cons, split-one}
use pmux_agent.Strings.Numbers.{itoa, atoi-itoa, itoa-All, IsInt64}
use pmux_agent.Tmux.Listing.{Pane, pane_of, parse_lines, parse_output, parse_panes}

-- One line for each entry, the lines apart by newlines.
abbrev pub print_all : {A : Type 0} → (A → Bytes) → List A → Bytes
print_all print xs = join (map print xs) (10 ∷ [])

join_full :
    (p : Bytes) (ps : List Bytes) (sep : Bytes) → p ≢ [] → str_eq (join (p ∷ ps) sep) [] ≡ false
unfolding join
join_full [] ps sep h = absurd (h refl)
join_full (c ∷ p) [] sep h = refl
join_full (c ∷ p) (q ∷ ps) sep h = refl

-- Lines that print what is read as the view of it.
module _ {A B : Type 0} (read : List Bytes → Option B) (n : ℕ) (print : A → Bytes)
    (view : A → B) where
  abbrev pub Readable : A → Type 0
  Readable a =
      (print a ≢ []) × Lacks 10 (print a) × (read (split_n b'|' n (print a)) ≡ some (view a))

  parse_lines-split :
      (a : A) (xs : List A)
      → All Readable (a ∷ xs)
      → parse_lines read n (split 10 (print_all print (a ∷ xs))) ≡ map view (a ∷ xs)
  unfolding parse_lines join
  parse_lines-split a [] ((full, flat, back), _) =
      rw (split-one 10 (print a) flat) (rw (back, parse_lines))
  parse_lines-split a (b ∷ xs) ((full, flat, back), h) =
      rw (split-cons 10 (print a) (print_all print (b ∷ xs)) flat)
        (rw (back, parse_lines) (ap (λ r. view a ∷ r) (parse_lines-split b xs h)))

  pub parse_output-print :
      (xs : List A) → All Readable xs → parse_output read n (print_all print xs) ≡ map view xs
  unfolding parse_output
  parse_output-print [] h = unfold join in refl
  parse_output-print (a ∷ xs) h =
      rw (join_full (print a) (map print xs) (10 ∷ []) h.0.0) (parse_lines-split a xs h)

-- A text that can stand in the middle of a line.
abbrev pub IsField : Bytes → Type 0
IsField s = Lacks b'|' s × Lacks 10 s

Lacks-outside : (c : ℕ) (s : Bytes) → 57 < c → All (λ b. (45 ≤ b) × (b ≤ 57)) s → Lacks c s
Lacks-outside c [] h a = tt
Lacks-outside c (b ∷ s) h (hb, a) = (λ e. absurd (omega arith), Lacks-outside c s h a)

Lacks-below : (c : ℕ) (s : Bytes) → c < 45 → All (λ b. (45 ≤ b) × (b ≤ 57)) s → Lacks c s
Lacks-below c [] h a = tt
Lacks-below c (b ∷ s) h (hb, a) = (λ e. absurd (omega arith), Lacks-below c s h a)

pub itoa-IsField : (z : ℤ) → IsInt64 z → IsField (itoa z)
itoa-IsField z h = (
  Lacks-outside b'|' (itoa z) (omega arith) (itoa-All z h),
  Lacks-below 10 (itoa z) (omega arith) (itoa-All z h),
)

-- `a|rest`.
infixr 67 ◌bar◌
abbrev pub ◌bar◌ : Bytes → Bytes → Bytes
a bar rest = a ++ b'|' ∷ rest

pub bar-Lacks : (a rest : Bytes) → Lacks 10 a → Lacks 10 rest → Lacks 10 (a bar rest)
bar-Lacks a rest ha hr = All-append _ a (b'|' ∷ rest) ha (λ e. absurd (omega arith), hr)

pub bar-ne-nil : (a rest : Bytes) → a bar rest ≢ []
bar-ne-nil [] rest e = cc
bar-ne-nil (c ∷ a) rest e = cc

abbrev pub flag : Bool → Bytes
flag true = codes "1"
flag false = codes "0"

pub flag-IsField : (b : Bool) → IsField (flag b)
flag-IsField true = (omega arith, omega arith)
flag-IsField false = (omega arith, omega arith)

pub flag-read : (b : Bool) → str_eq (flag b) (codes "1") ≡ b
flag-read true = refl
flag-read false = refl

-- What tmux prints for a pane.
abbrev pub print_pane : Pane → Bytes
print_pane p =
    p.id
    bar itoa p.index
    bar flag p.active
    bar itoa p.size.cols
    bar itoa p.size.rows
    bar p.title
    bar p.current_command

pub record IsPlainPane (p : Pane) : Type 0 where
  pub plain_id : IsField p.id
  pub index_fits : IsInt64 p.index
  pub cols_fit : IsInt64 p.size.cols
  pub rows_fit : IsInt64 p.size.rows
  pub plain_title : IsField p.title
  pub one_line : Lacks 10 p.current_command

pane_back : (p : Pane) → IsPlainPane p → pane_of (split_n b'|' 7 (print_pane p)) ≡ some p
unfolding pane_of
pane_back p h = simp (
  split_n-cons b'|' 5 p.id _ h.plain_id.0,
  split_n-cons b'|' 4 (itoa p.index) _ (itoa-IsField p.index h.index_fits).0,
  split_n-cons b'|' 3 (flag p.active) _ (flag-IsField p.active).0,
  split_n-cons b'|' 2 (itoa p.size.cols) _ (itoa-IsField p.size.cols h.cols_fit).0,
  split_n-cons b'|' 1 (itoa p.size.rows) _ (itoa-IsField p.size.rows h.rows_fit).0,
  split_n-cons b'|' 0 p.title _ h.plain_title.0,
  split_n-one,
  atoi-itoa p.index h.index_fits,
  atoi-itoa p.size.cols h.cols_fit,
  atoi-itoa p.size.rows h.rows_fit,
  flag-read p.active,
)

pane_line : (p : Pane) → IsPlainPane p → Readable pane_of 7 print_pane (λ x. x) p
pane_line p h = (
  bar-ne-nil p.id _,
  bar-Lacks p.id _ h.plain_id.1 (
      bar-Lacks (itoa p.index) _ (itoa-IsField p.index h.index_fits).1 (
        bar-Lacks (flag p.active) _ (flag-IsField p.active).1 (
          bar-Lacks (itoa p.size.cols) _ (itoa-IsField p.size.cols h.cols_fit).1 (
            bar-Lacks (itoa p.size.rows) _ (itoa-IsField p.size.rows h.rows_fit).1
              (bar-Lacks p.title p.current_command h.plain_title.1 h.one_line))))),
  pane_back p h,
)

pub All-map :
    {A : Type 0} {P Q : A → Type 0} (f : (a : A) → P a → Q a) (xs : List A) → All P xs → All Q xs
All-map f [] h = tt
All-map f (x ∷ xs) h = (f x h.0, All-map f xs h.1)

pub map_id : {A : Type 0} (xs : List A) → map (λ x. x) xs ≡ xs
map_id [] = refl
map_id (x ∷ xs) = ap (λ r. x ∷ r) (map_id xs)

-- A list of panes that tmux prints is read back: ids and titles without `|` and newline, commands
-- without newline, and numbers of 64 bits.
pub parse_panes-print :
    (ps : List Pane) → All IsPlainPane ps → parse_panes (print_all print_pane ps) ≡ ps
unfolding parse_panes
parse_panes-print ps h =
    parse_output-print pane_of 7 print_pane (λ x. x) ps (All-map pane_line ps h) ∙ map_id ps
