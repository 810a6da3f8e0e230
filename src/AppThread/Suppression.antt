-- ===== src/AppThread/Suppression.antt =====
-- Which threads a list of labels suppresses.
use ether_recorder_suite.Prelude.{
  ℕ, ◌≡◌, refl, sym, ap, ◌∙◌, Bool, true, false, not, ◌&&◌, ◌||◌, none, some, List, [], ◌∷◌, ◌++◌,
  if◌then◌else◌, arith, append-nil, append_assoc, ◌==◌, Bool-cases, inl, inr, bytes_eq,
}
use ether_recorder_suite.Text.{same_nocase, trim_whitespace, is_nil, split_at}
use ether_recorder_suite.Text.Trim.{
  all_space-nil, all_space, starts_bare, ends_bare, trim_whitespace-between,
}
use ether_recorder_suite.Text.Cut.{split_at_cons}
use ether_recorder_suite.AppThread.{fields, any_token, is_thread_suppressed}

-- A list of labels as it is written, with a comma and a space between two.
unfoldable pub joined : List (List ℕ) → List ℕ
joined [] = []
joined (x ∷ []) = x
joined (x ∷ y ∷ ys) = x ++ (44 ∷ 32 ∷ joined (y ∷ ys))

unfoldable pub any_label : List ℕ → List (List ℕ) → Bool
any_label label [] = false
any_label label (x ∷ xs) = same_nocase x label || any_label label xs

-- Labels without commas and without spaces at their ends.
pub data AllLabels : List (List ℕ) → Type 0 where
  none_left : AllLabels []
  one_more :
      (x : List ℕ) {xs : List (List ℕ)}
      → split_at 44 x ≡ none
      → starts_bare x ≡ true
      → ends_bare x ≡ true
      → AllLabels xs
      → AllLabels (x ∷ xs)

fields-last : (x : List ℕ) → split_at 44 x ≡ none → fields x ≡ x ∷ []
unfolding fields
fields-last [] h = refl
fields-last (c ∷ x) h = let (ne, h') = split_at_cons 44 c x h in ground (arith, fields-last x h')

-- `fields` always has a first one.
fields_filled : (s : List ℕ) → (f : List ℕ) × (fs : List (List ℕ)) × (fields s ≡ f ∷ fs)
unfolding fields
fields_filled [] = ([], [], refl)
fields_filled (c ∷ s) =
    let (f, fs, e) = fields_filled s in
    (if c == 44 then [] else c ∷ f, if c == 44 then f ∷ fs else fs, ground (arith, e))

fields-next : (x s : List ℕ) → split_at 44 x ≡ none → fields (x ++ (44 ∷ s)) ≡ x ∷ fields s
unfolding fields
fields-next [] s h = let (f, fs, e) = fields_filled s in ground (arith, e)
fields-next (c ∷ x) s h =
    let (ne, h') = split_at_cons 44 c x h in ground (arith, fields-next x s h')

padded_label :
    (pad : List ℕ) (x : List ℕ)
    → all_space pad ≡ true
    → split_at 44 x ≡ none
    → split_at 44 (pad ++ x) ≡ none
unfolding all_space split_at
padded_label [] x h n = n
padded_label (c ∷ pad) x h n = ground (arith, padded_label pad x (ground arith) n)

right_nil : (pad x : List ℕ) → is_nil (pad ++ x) ≡ true → is_nil x ≡ true
right_nil [] x e = e
right_nil (c ∷ pad) x e = absurd (ground arith)

same_nocase_nil :
    (x label : List ℕ) → is_nil x ≡ true → is_nil label ≡ false → same_nocase x label ≡ false
unfolding same_nocase bytes_eq
same_nocase_nil [] [] h n = absurd (ground arith)
same_nocase_nil [] (c ∷ label) h n = refl
same_nocase_nil (c ∷ x) label h n = absurd (ground arith)

split_at-nil : split_at 44 [] ≡ none
unfolding split_at
split_at-nil = refl

bare_nil : (starts_bare [] ≡ true) × (ends_bare [] ≡ true)
unfolding starts_bare ends_bare
bare_nil = (refl, refl)

blank : all_space (32 ∷ []) ≡ true
unfolding all_space
blank = refl

token-padded :
    (label pad x : List ℕ)
    → is_nil label ≡ false
    → all_space pad ≡ true
    → starts_bare x ≡ true
    → ends_bare x ≡ true
    → (not (is_nil (pad ++ x)) && same_nocase (trim_whitespace (pad ++ x)) label)
      ≡ same_nocase x label
token-padded label pad x filled h b b' = elim (Bool-cases (is_nil (pad ++ x))) [
  | inl e ↦ ground (arith, e, same_nocase_nil x label (right_nil pad x e) filled)
  | inr e ↦ ground (arith, e, trimmed)
]
  where
    trimmed : trim_whitespace (pad ++ x) ≡ x
    trimmed =
        ap (λ t. trim_whitespace (pad ++ t)) (sym (append-nil x))
        ∙ trim_whitespace-between pad x [] h all_space-nil b b'

any_token-joined :
    (label pad : List ℕ) (xs : List (List ℕ))
    → is_nil label ≡ false
    → all_space pad ≡ true
    → AllLabels xs
    → any_token label (fields (pad ++ joined xs)) ≡ any_label label xs
unfolding joined any_label any_token
any_token-joined label pad [] filled h a = ground (
  arith,
  fields-last (pad ++ []) (padded_label pad [] h split_at-nil),
  token-padded label pad [] filled h bare_nil.0 bare_nil.1,
  same_nocase_nil [] label refl filled,
)
any_token-joined label pad (x ∷ []) filled h (one_more _ n b b' a) =
    ground (
      arith,
      fields-last (pad ++ x) (padded_label pad x h n),
      token-padded label pad x filled h b b',
    )
any_token-joined label pad (x ∷ y ∷ ys) filled h (one_more _ n b b' a) =
    ap (λ s. any_token label (fields s)) (sym (append_assoc pad x (44 ∷ 32 ∷ joined (y ∷ ys))))
    ∙ ap (any_token label) (fields-next (pad ++ x) (32 ∷ joined (y ∷ ys)) (padded_label pad x h n))
    ∙ ground (
      arith,
      token-padded label pad x filled h b b',
      any_token-joined label (32 ∷ []) (y ∷ ys) filled blank a,
    )

-- Where the list of suppressed threads is written with a comma and a space between the labels,
-- which have no comma and no space at their ends, a thread with a label that is not empty is
-- suppressed if and only if its label is among them, letters compared without their case.
pub is_thread_suppressed-joined :
    (label : List ℕ) (xs : List (List ℕ))
    → is_nil label ≡ false
    → AllLabels xs
    → is_thread_suppressed (some (joined xs)) (some label) ≡ any_label label xs
unfolding is_thread_suppressed
is_thread_suppressed-joined label xs filled a =
    ground (arith, any_token-joined label [] xs filled all_space-nil a)
