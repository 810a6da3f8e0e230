-- ===== src/Text/Trim.antt =====
-- What the trimming of texts leaves.
use ether_recorder_suite.Prelude.{
  ℕ, ◌≡◌, refl, sym, ap, ◌∙◌, Bool, true, false, not, ◌&&◌, List, [], ◌∷◌, ◌++◌, arith, Bool-cases,
  inl, inr, append-nil,
}
use ether_recorder_suite.Text.{is_space, is_nil, skip_spaces, trim_end, trim_whitespace}

unfoldable pub all_space : List ℕ → Bool
all_space [] = true
all_space (c ∷ cs) = is_space c && all_space cs

pub all_space-nil : all_space [] ≡ true
unfolding all_space
all_space-nil = refl

-- No space at either end.
unfoldable pub starts_bare : List ℕ → Bool
starts_bare [] = true
starts_bare (c ∷ cs) = not (is_space c)

unfoldable pub ends_bare : List ℕ → Bool
ends_bare [] = true
ends_bare (c ∷ []) = not (is_space c)
ends_bare (c ∷ d ∷ cs) = ends_bare (d ∷ cs)

skip_spaces_lem :
    (s : List ℕ)
    → (l : List ℕ) × (s ≡ l ++ skip_spaces s)
      × (all_space l ≡ true)
      × (starts_bare (skip_spaces s) ≡ true)
unfolding skip_spaces all_space starts_bare
skip_spaces_lem [] = ([], refl, refl, refl)
skip_spaces_lem (c ∷ cs) = elim (Bool-cases (is_space c)) [
  | inl e ↦
      let (l, p, q, b) = skip_spaces_lem cs in
      (c ∷ l, ground (arith, p), ground arith, ground arith)
  | inr e ↦ ([], ground arith, refl, ground arith)
]

ends_bare-cons :
    (c : ℕ) (cs : List ℕ) → is_nil cs ≡ false → ends_bare cs ≡ true → ends_bare (c ∷ cs) ≡ true
unfolding ends_bare
ends_bare-cons c [] h e = absurd (ground arith)
ends_bare-cons c (d ∷ cs) h e = e

trim_end_lem :
    (s : List ℕ)
    → (r : List ℕ) × (s ≡ trim_end s ++ r) × (all_space r ≡ true) × (ends_bare (trim_end s) ≡ true)
unfolding trim_end all_space ends_bare
trim_end_lem [] = ([], refl, refl, refl)
trim_end_lem (c ∷ cs) =
    let (r, p, q, b) = trim_end_lem cs in
    elim (Bool-cases (is_nil (trim_end cs))) [
      | inl e ↦
          let none_left : trim_end cs ≡ [] = is_nil_sound (trim_end cs) e in
          elim (Bool-cases (is_space c)) [
            | inl sp ↦ (c ∷ r, ground (arith, none_left), ground arith, ground (arith))
            | inr sp ↦ (r, ground arith, q, ground (arith, none_left))
          ]
      | inr e ↦ (r, ground (arith), q, ground (arith, ends_bare-cons c (trim_end cs) e b))
    ]
  where
    is_nil_sound : (xs : List ℕ) → is_nil xs ≡ true → xs ≡ []
    is_nil_sound [] h = refl
    is_nil_sound (x ∷ xs) h = absurd (ground arith)

starts_bare-trim_end : (s : List ℕ) → starts_bare s ≡ true → starts_bare (trim_end s) ≡ true
unfolding trim_end starts_bare
starts_bare-trim_end [] h = refl
starts_bare-trim_end (c ∷ cs) h = ground arith

-- Trimming a text removes spaces at its two ends and nothing else, and all that there are.
pub trim_whitespace_lem :
    (s : List ℕ)
    → (l r : List ℕ) × (s ≡ l ++ (trim_whitespace s ++ r))
      × (all_space l ≡ true)
      × (all_space r ≡ true)
      × (starts_bare (trim_whitespace s) ≡ true)
      × (ends_bare (trim_whitespace s) ≡ true)
unfolding trim_whitespace
trim_whitespace_lem s =
    let (l, p, q, b) = skip_spaces_lem s in
    let (r, p', q', b') = trim_end_lem (skip_spaces s) in
    (l, r, p ∙ ap (λ t. l ++ t) p', q, q', starts_bare-trim_end (skip_spaces s) b, b')

-- What trimming does to a trimmed text between spaces.
skip_spaces-all_space :
    (l s : List ℕ) → all_space l ≡ true → starts_bare s ≡ true → skip_spaces (l ++ s) ≡ s
unfolding skip_spaces all_space starts_bare
skip_spaces-all_space [] [] h b = refl
skip_spaces-all_space [] (c ∷ s) h b = ground arith
skip_spaces-all_space (c ∷ l) s h b = ground (arith, skip_spaces-all_space l s (ground arith) b)

trim_end-all_space : (r : List ℕ) → all_space r ≡ true → trim_end r ≡ []
unfolding trim_end all_space
trim_end-all_space [] h = refl
trim_end-all_space (c ∷ r) h = ground (arith, trim_end-all_space r (ground arith))

trim_end-append : (s r : List ℕ) → ends_bare s ≡ true → all_space r ≡ true → trim_end (s ++ r) ≡ s
unfolding trim_end ends_bare
trim_end-append [] r b h = trim_end-all_space r h
trim_end-append (c ∷ []) r b h = ground (arith, trim_end-all_space r h)
trim_end-append (c ∷ d ∷ s) r b h = ground (arith, trim_end-append (d ∷ s) r b h)

all_space-append :
    (l r : List ℕ) → all_space l ≡ true → all_space r ≡ true → all_space (l ++ r) ≡ true
unfolding all_space
all_space-append [] r h h' = h'
all_space-append (c ∷ l) r h h' = ground (arith, all_space-append l r (ground arith) h')

pub trim_whitespace-between :
    (l s r : List ℕ)
    → all_space l ≡ true
    → all_space r ≡ true
    → starts_bare s ≡ true
    → ends_bare s ≡ true
    → trim_whitespace (l ++ (s ++ r)) ≡ s
unfolding trim_whitespace starts_bare trim_end
trim_whitespace-between l [] r hl hr b b' = ap trim_end (
    ap skip_spaces (sym (append-nil (l ++ r)))
    ∙ skip_spaces-all_space (l ++ r) [] (all_space-append l r hl hr) refl)
trim_whitespace-between l (c ∷ s) r hl hr b b' =
    ap trim_end (skip_spaces-all_space l ((c ∷ s) ++ r) hl b) ∙ trim_end-append (c ∷ s) r b' hr

pub starts_bare-append :
    (s t : List ℕ) → is_nil s ≡ false → starts_bare s ≡ true → starts_bare (s ++ t) ≡ true
unfolding starts_bare
starts_bare-append [] t h b = absurd (ground arith)
starts_bare-append (c ∷ s) t h b = b

pub is_nil-append : (s t : List ℕ) → is_nil t ≡ false → is_nil (s ++ t) ≡ false
is_nil-append [] t h = h
is_nil-append (c ∷ s) t h = refl

pub ends_bare-append :
    (s t : List ℕ) → is_nil t ≡ false → ends_bare t ≡ true → ends_bare (s ++ t) ≡ true
ends_bare-append [] t h b = b
ends_bare-append (c ∷ s) t h b =
    ends_bare-cons c (s ++ t) (is_nil-append s t h) (ends_bare-append s t h b)
