-- ===== src/Text.antt =====
-- Texts: PlatformLayer/posix/src/posix_string.c, the trimming of EtherRecorder/src/app_config.c,
-- and what they use of C's library, for one-byte characters. A text is the list of its bytes.
pub mod Trim
pub mod Cut
use ether_recorder_suite.Prelude.{
  ℕ, zero, suc, ◌+◌, ◌-◌, Bool, true, false, not, ◌&&◌, ◌||◌, Option, none, some, List, [], ◌∷◌,
  ◌++◌, map, ltb, leb, ◌==◌, if◌then◌else◌, length, take, bytes_eq,
}

-- `isspace` and `tolower` of C.
abbrev pub is_space : ℕ → Bool
is_space c = (leb 9 c && leb c 13) || (c == 32)

abbrev pub tolower : ℕ → ℕ
tolower c = if leb 65 c && leb c 90 then c + 32 else c

abbrev pub is_nil : List ℕ → Bool
is_nil [] = true
is_nil (c ∷ cs) = false

-- `strcmp_nocase(a, b) == 0` for texts that are not null.
unfoldable pub same_nocase : List ℕ → List ℕ → Bool
same_nocase a b = bytes_eq (map tolower a) (map tolower b)

-- The destination after `platform_strcat` into a buffer of so many bytes.
unfoldable pub platform_strcat : List ℕ → List ℕ → ℕ → List ℕ
platform_strcat dest src size =
    if size == 0 || leb size (length dest)
    then dest
    else let remaining = size - length dest in
      dest ++ take (if ltb (length src) remaining then length src else remaining - 1) src

-- The two loops of `trim_whitespace`.
unfoldable pub skip_spaces : List ℕ → List ℕ
skip_spaces [] = []
skip_spaces (c ∷ cs) = let rest = skip_spaces cs in if is_space c then rest else c ∷ cs

unfoldable pub trim_end : List ℕ → List ℕ
trim_end [] = []
trim_end (c ∷ cs) = let rest = trim_end cs in if is_space c && is_nil rest then [] else c ∷ rest

unfoldable pub trim_whitespace : List ℕ → List ℕ
trim_whitespace s = trim_end (skip_spaces s)

abbrev pub is_quote : ℕ → Bool
is_quote c = (c == 34) || (c == 39)

abbrev pub is_comment : ℕ → Bool
is_comment c = (c == 59) || (c == 35)

-- The loop of `trim_comments`, inside quotes or not.
unfoldable pub cut_comment : Bool → List ℕ → List ℕ
cut_comment in_quotes [] = []
cut_comment in_quotes (c ∷ cs) =
    let inside = if is_quote c then not in_quotes else in_quotes in
    let rest = cut_comment inside cs in
    if not (is_quote c) && not in_quotes && is_comment c then [] else c ∷ rest

unfoldable pub trim_comments : List ℕ → List ℕ
trim_comments s = trim_whitespace (cut_comment false s)

-- `strchr`: the text before and behind the first such byte.
unfoldable pub split_at : ℕ → List ℕ → Option (List ℕ × List ℕ)
split_at d [] = none
split_at d (c ∷ cs) =
    let rest = split_at d cs in
    if c == d then some ([], cs) else elim rest [ none ↦ none | some (a, b) ↦ some (c ∷ a, b) ]
