-- ===== src/Config/File.antt =====
-- A file that is written as headings and settings, one to a line, and what it means.
use ether_recorder_suite.Prelude.{
  ℕ, zero, suc, ◌≤◌, ◌<◌, ◌≡◌, refl, sym, ap, ◌∙◌, true, List, [], ◌∷◌, ◌++◌, length, arith,
  append-nil, append_assoc, none, some, length-append, map,
}
use ether_recorder_suite.Text.{trim_whitespace, trim_comments, split_at, cut_comment}
use ether_recorder_suite.Text.Trim.{
  all_space, starts_bare, ends_bare, ends_bare-append, trim_whitespace-between,
}
use ether_recorder_suite.Text.Cut.{
  plain, cut_comment-plain, split_at_first, split_at_cons, platform_strcat-short,
}
use ether_recorder_suite.Config.{ConfigEntry, load_line, load_lines, fgets, file_lines, load_config}
use ether_recorder_suite.Config.Load.{IsKey, IsValue, setting, load_line-setting}

pub data Item : Type 0 where
  heading : List ℕ → Item
  assign : List ℕ → List ℕ → Item

-- The line of an item, without its end.
unfoldable pub item_text : Item → List ℕ
item_text (heading name) = 91 ∷ name ++ (93 ∷ [])
item_text (assign key value) = setting key (32 ∷ []) (32 ∷ []) value

unfoldable pub item_line : Item → List ℕ
item_line i = item_text i ++ (10 ∷ [])

unfoldable pub render : List Item → List ℕ
render [] = []
render (i ∷ is) = item_line i ++ render is

-- What the items mean, after those that have been read.
unfoldable pub meaning : List ℕ × List ConfigEntry → List Item → List ℕ × List ConfigEntry
meaning state [] = state
meaning (current, entries) (heading name ∷ is) = meaning (name, entries) is
meaning (current, entries) (assign key value ∷ is) =
    meaning (current, record { section = current; key = key; value = value } ∷ entries) is

-- A heading without brackets, quotes, comments and equals signs that fits its buffer, or a key and
-- a value.
unfoldable pub IsItem : Item → Type 0
IsItem (heading name) = (plain name ≡ true) × (split_at 93 name ≡ none) × (length name < 50)
IsItem (assign key value) = IsKey key × IsValue value

-- The items of a file, whose lines fit the buffer of `fgets`.
pub data AllItems : List Item → Type 0 where
  none_left : AllItems []
  one_more :
      (i : Item) {is : List Item}
      → IsItem i
      → split_at 10 (item_text i) ≡ none
      → length (item_text i) < 255
      → AllItems is
      → AllItems (i ∷ is)

heading-trimmed :
    (name : List ℕ)
    → plain name ≡ true
    → trim_comments (trim_whitespace ((91 ∷ name ++ (93 ∷ [])) ++ (10 ∷ [])))
      ≡ 91 ∷ name ++ (93 ∷ [])
unfolding trim_comments cut_comment plain all_space starts_bare ends_bare
heading-trimmed name p =
    ap trim_comments (bare (10 ∷ []) refl)
    ∙ ap trim_whitespace
        (cut_comment-plain (91 ∷ name) (93 ∷ []) p ∙ sym (append-nil (91 ∷ name ++ (93 ∷ []))))
    ∙ bare [] refl
  where
    bare :
        (r : List ℕ)
        → all_space r ≡ true
        → trim_whitespace ((91 ∷ name ++ (93 ∷ [])) ++ r) ≡ 91 ∷ name ++ (93 ∷ [])
    bare r h =
        trim_whitespace-between [] (91 ∷ name ++ (93 ∷ [])) r refl h refl
          (ends_bare-append (91 ∷ name) (93 ∷ []) refl refl)

heading-split :
    (name : List ℕ)
    → split_at 93 name ≡ none
    → split_at 93 (91 ∷ name ++ (93 ∷ [])) ≡ some (91 ∷ name, [])
unfolding split_at
heading-split name h = ground (arith, split_at_first 93 name [] h)

load_line_heading :
    (name current : List ℕ) (entries : List ConfigEntry)
    → IsItem (heading name)
    → load_line (current, entries) (item_line (heading name)) ≡ (name, entries)
unfolding load_line item_line item_text IsItem
load_line_heading name current entries (p, s, short) =
    ground
      (arith, heading-trimmed name p, heading-split name s, platform_strcat-short name 50 short)

fgets_line :
    (n : ℕ) (t rest : List ℕ)
    → split_at 10 t ≡ none
    → length t < n
    → fgets n (t ++ (10 ∷ rest)) ≡ (t ++ (10 ∷ []), rest)
unfolding fgets
fgets_line zero t rest h l = absurd (omega arith)
fgets_line (suc n) [] rest h l = ground arith
fgets_line (suc n) (c ∷ t) rest h l =
    let (ne, h') = split_at_cons 10 c t h in ground (arith, fgets_line n t rest h' (omega arith))

length-render : (is : List Item) → length is ≤ length (render is)
unfolding render item_line
length-render [] = omega arith
length-render (i ∷ is) = omega (
  arith,
  length-render is,
  length-append (item_text i ++ (10 ∷ [])) (render is),
  length-append (item_text i) (10 ∷ []),
)

file_lines-line :
    (fuel : ℕ) (t rest : List ℕ)
    → split_at 10 t ≡ none
    → length t < 255
    → file_lines (suc fuel) (t ++ (10 ∷ rest)) ≡ (t ++ (10 ∷ [])) ∷ file_lines fuel rest
unfolding file_lines
file_lines-line fuel [] rest h l = ap (λ r. r.0 ∷ file_lines fuel r.1) (fgets_line 255 [] rest h l)
file_lines-line fuel (c ∷ t) rest h l =
    ap (λ r. r.0 ∷ file_lines fuel r.1) (fgets_line 255 (c ∷ t) rest h l)

file_lines-render :
    (fuel : ℕ) (is : List Item)
    → AllItems is
    → length is ≤ fuel
    → file_lines fuel (render is) ≡ map item_line is
unfolding file_lines render item_line
file_lines-render zero [] a h = refl
file_lines-render (suc fuel) [] a h = refl
file_lines-render zero (i ∷ is) a h = absurd (omega arith)
file_lines-render (suc fuel) (i ∷ is) (one_more _ ok one_line short a) h =
    ap (file_lines (suc fuel)) (append_assoc (item_text i) (10 ∷ []) (render is))
    ∙ file_lines-line fuel (item_text i) (render is) one_line short
    ∙ ap (λ r. item_line i ∷ r) (file_lines-render fuel is a (omega arith))

load_lines-meaning :
    (state : List ℕ × List ConfigEntry) (is : List Item)
    → AllItems is
    → length state.0 < 50
    → load_lines state (map item_line is) ≡ meaning state is
unfolding load_lines meaning IsItem item_line item_text all_space
load_lines-meaning state [] a h = refl
load_lines-meaning (current, entries) (heading name ∷ is) (one_more _ ok o s a) h =
    ap (λ st. load_lines st (map item_line is)) (load_line_heading name current entries ok)
    ∙ load_lines-meaning (name, entries) is a ok.2
load_lines-meaning (current, entries) (assign key value ∷ is) (one_more _ (k, v) o s a) h =
    ap (λ st. load_lines st (map item_line is))
      (load_line-setting key (32 ∷ []) (32 ∷ []) value k v refl refl [] (10 ∷ []) current entries
        refl refl h)
    ∙ load_lines-meaning (current, record { section = current; key = key; value = value } ∷ entries)
        is a h

-- A file of headings and settings, each on a line, loads as what they mean: every setting in the
-- section of the last heading before it, the newest first, in front of the entries that were there.
-- Each line has fewer than 255 bytes and no line feed. A heading has fewer than 50 bytes and no
-- quote, sign of a comment, equals sign or closing bracket. A key is not empty, does not start with
-- an opening bracket, has fewer than 50 bytes, no space at its ends and no quote, sign of a comment
-- or equals sign. A value is not empty, has fewer than 200 bytes, no space at its ends and no
-- comment outside quotes.
pub load_config-render :
    (is : List Item) (entries : List ConfigEntry)
    → AllItems is
    → load_config (some (render is)) entries ≡ (true, (meaning ([], entries) is).1)
unfolding load_config
load_config-render is entries a =
    ap (λ lines. (true, (load_lines ([], entries) lines).1))
      (file_lines-render (length (render is)) is a (length-render is))
    ∙ ap (λ st. (true, st.1)) (load_lines-meaning ([], entries) is a (omega arith))
