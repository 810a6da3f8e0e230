-- ===== src/Logger/Parents.antt =====
-- The search for the log file of a thread among the labels above its own.
use ether_recorder_suite.Prelude.{
  ℕ, zero, suc, ◌≤◌, ◌<◌, ◌≡◌, refl, ap, ◌∙◌, inl, inr, Option, none, some, List, [], ◌∷◌, ◌++◌,
  map, ◌==◌, if◌then◌else◌, length, take, ◌-◌, arith, Bool-cases, Option-cases,
}
use ether_recorder_suite.Config.{ConfigEntry}
use ether_recorder_suite.Logger.{
  before_last_dot, parent_loop, log_file_setting, find_parent_log_file, config_log_file,
}

-- The texts before the dots of a label, the longest first.
unfoldable pub ancestors : List ℕ → List (List ℕ)
ancestors [] = []
ancestors (c ∷ cs) = map (λ p. c ∷ p) (ancestors cs) ++ (if c == 46 then [] ∷ [] else [])

-- The first setting among those of some labels.
unfoldable pub first_setting : (List ℕ → Option (List ℕ)) → List (List ℕ) → Option (List ℕ)
first_setting setting [] = none
first_setting setting (l ∷ ls) = elim (setting l) [
  | some file ↦ some file
  | none ↦ first_setting setting ls
]

abbrev closest : Option (List ℕ) → List (List ℕ)
closest none = []
closest (some p) = p ∷ ancestors p

ancestors-before_last_dot : (l : List ℕ) → ancestors l ≡ closest (before_last_dot l)
unfolding ancestors before_last_dot
ancestors-before_last_dot [] = refl
ancestors-before_last_dot (c ∷ cs) = elim (Option-cases (before_last_dot cs)) [
  | inr (p, e) ↦ ground (arith, e, ancestors-before_last_dot cs)
  | inl e ↦ elim (Bool-cases (c == 46)) [
    | inl dot ↦ ground (arith, e, dot, ancestors-before_last_dot cs)
    | inr other ↦ ground (arith, e, other, ancestors-before_last_dot cs)
  ]
]

before_last_dot_lt : (l p : List ℕ) → before_last_dot l ≡ some p → length p < length l
unfolding before_last_dot
before_last_dot_lt [] p h = absurd (ground arith)
before_last_dot_lt (c ∷ cs) p h = elim (Option-cases (before_last_dot cs)) [
  | inr (q, e) ↦ ground (arith, e, h, before_last_dot_lt cs q e)
  | inl e ↦ ground (arith, e, h)
]

parent_loop_lem :
    (setting : List ℕ → Option (List ℕ)) (n : ℕ) (l : List ℕ)
    → length l ≤ n
    → parent_loop setting n l ≡ first_setting setting (ancestors l)
unfolding parent_loop first_setting ancestors
parent_loop_lem setting zero [] h = refl
parent_loop_lem setting zero (c ∷ cs) h = absurd (omega arith)
parent_loop_lem setting (suc n) l h = elim (Option-cases (before_last_dot l)) [
  | inl e ↦ ground (arith, e, ap (first_setting setting) (ancestors-before_last_dot l))
  | inr (p, e) ↦ ground (
    arith,
    e,
    ap (first_setting setting) (ancestors-before_last_dot l),
    parent_loop_lem setting n p (omega (arith, before_last_dot_lt l p e, h)),
  )
]

take_short : (n : ℕ) (l : List ℕ) → length l ≤ n → take n l ≡ l
take_short zero [] h = refl
take_short zero (c ∷ cs) h = absurd (omega arith)
take_short (suc n) [] h = refl
take_short (suc n) (c ∷ cs) h = ap (λ l. c ∷ l) (take_short n cs (omega arith))

find_parent_log_file_lem :
    (entries : List ConfigEntry) (max_path_len : ℕ) (label : List ℕ)
    → length label < max_path_len
    → find_parent_log_file entries max_path_len label
      ≡ first_setting (log_file_setting entries max_path_len) (ancestors label)
unfolding find_parent_log_file
find_parent_log_file_lem entries max_path_len label h =
    ap (λ l. parent_loop (log_file_setting entries max_path_len) (length l) l)
      (take_short (max_path_len - 1) label (omega (arith, h)))
    ∙ parent_loop_lem (log_file_setting entries max_path_len) (length label) label (omega arith)

-- The log file of a thread whose label fits the buffer is the setting of its own label if there is
-- one, and else of the longest text before a dot of the label that has one: the search of the code
-- is the search through these labels in a row.
pub config_log_file_lem :
    (entries : List ConfigEntry) (max_path_len : ℕ) (label : List ℕ)
    → length label < max_path_len
    → config_log_file entries max_path_len label
      ≡ first_setting (log_file_setting entries max_path_len) (label ∷ ancestors label)
unfolding config_log_file first_setting ancestors
config_log_file_lem entries max_path_len label h =
    elim (Option-cases (log_file_setting entries max_path_len label)) [
      | inr (file, own) ↦ ground (arith, own)
      | inl no_own ↦ elim (Option-cases (before_last_dot label)) [
        | inr (p, e) ↦
            ground (arith, no_own, e, find_parent_log_file_lem entries max_path_len label h)
        | inl e ↦ ground (
          arith,
          no_own,
          e,
          ap (first_setting (log_file_setting entries max_path_len))
              (ancestors-before_last_dot label),
        )
      ]
    ]
