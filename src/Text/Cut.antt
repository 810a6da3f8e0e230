-- ===== src/Text/Cut.antt =====
-- Comments, separators and bounded buffers.
use ether_recorder_suite.Prelude.{
  ℕ, ◌-◌, ◌<◌, ◌≡◌, refl, ap, Bool, true, false, not, ◌&&◌, List, [], ◌∷◌, ◌++◌, length, arith,
  Bool-cases, inl, inr, none, some, ◌==◌, length-take, ltb, take, bytes_eq_refl, ◌≢◌, Option-cases,
}
use ether_recorder_suite.Text.{
  is_quote, is_comment, cut_comment, split_at, platform_strcat, same_nocase,
}
use ether_recorder_suite.Text.Trim.{all_space}

-- No quote, comment or equals sign.
unfoldable pub plain : List ℕ → Bool
plain [] = true
plain (c ∷ cs) = not (is_quote c) && not (is_comment c) && not (c == 61) && plain cs

plain-append : (a b : List ℕ) → plain a ≡ true → plain b ≡ true → plain (a ++ b) ≡ true
unfolding plain
plain-append [] b h h' = h'
plain-append (c ∷ a) b h h' = ground (arith, plain-append a b (ground arith) h')

plain-all_space : (s : List ℕ) → all_space s ≡ true → plain s ≡ true
unfolding plain all_space
plain-all_space [] h = refl
plain-all_space (c ∷ s) h = ground (arith, plain-all_space s (ground arith))

pub plain-padded : (a b : List ℕ) → plain a ≡ true → all_space b ≡ true → plain (a ++ b) ≡ true
plain-padded a b h h' = plain-append a b h (plain-all_space b h')

pub cut_comment-plain :
    (a b : List ℕ) → plain a ≡ true → cut_comment false (a ++ b) ≡ a ++ cut_comment false b
unfolding cut_comment plain
cut_comment-plain [] b h = refl
cut_comment-plain (c ∷ a) b h = ground (arith, cut_comment-plain a b (ground arith))

pub cut_comment-all_space :
    (a b : List ℕ) → all_space a ≡ true → cut_comment false (a ++ b) ≡ a ++ cut_comment false b
cut_comment-all_space a b h = cut_comment-plain a b (plain-all_space a h)

pub split_at-plain : (a b : List ℕ) → plain a ≡ true → split_at 61 (a ++ (61 ∷ b)) ≡ some (a, b)
unfolding split_at plain
split_at-plain [] b h = refl
split_at-plain (c ∷ a) b h = ground (arith, split_at-plain a b (ground arith))

-- The bounded copy into an empty buffer.
pub length-platform_strcat : (s : List ℕ) (n : ℕ) → 0 < n → length (platform_strcat [] s n) < n
unfolding platform_strcat
length-platform_strcat s n h = elim (Bool-cases (ltb (length s) n)) [
  | inl e ↦ ground (arith, length-take (length s) s (omega arith))
  | inr e ↦ ground (arith, length-take (n - 1) s (ground arith))
]

take-length : (s : List ℕ) → take (length s) s ≡ s
take-length [] = refl
take-length (c ∷ s) = ap (λ t. c ∷ t) (take-length s)

pub platform_strcat-short : (s : List ℕ) (n : ℕ) → length s < n → platform_strcat [] s n ≡ s
unfolding platform_strcat
platform_strcat-short s n h = ground (arith, take-length s)

pub same_nocase_refl : (s : List ℕ) → same_nocase s s ≡ true
unfolding same_nocase
same_nocase_refl s = bytes_eq_refl _

-- A byte that does not occur.
pub split_at_cons :
    (d c : ℕ) (a : List ℕ) → split_at d (c ∷ a) ≡ none → (c ≢ d) × (split_at d a ≡ none)
unfolding split_at
split_at_cons d c a h = elim (Option-cases (split_at d a)) [
  | inl e ↦ (ground arith, e)
  | inr ((x, y), e) ↦ absurd (ground (arith, e))
]

pub split_at_first :
    (d : ℕ) (a b : List ℕ) → split_at d a ≡ none → split_at d (a ++ (d ∷ b)) ≡ some (a, b)
unfolding split_at
split_at_first d [] b h = ground arith
split_at_first d (c ∷ a) b h =
    let (ne, rest) = split_at_cons d c a h in ground (arith, split_at_first d a b rest)
