-- ===== src/Config/Load.antt =====
-- What a file of settings loads as.
use ether_recorder_suite.Prelude.{
  ℕ, ◌<◌, ◌≡◌, ◌≢◌, refl, sym, ap, ◌∙◌, true, false, List, [], ◌∷◌, ◌++◌, length, arith, append-nil,
  append_assoc, some, get_or,
}
use ether_recorder_suite.Text.{
  trim_whitespace, trim_comments, cut_comment, split_at, platform_strcat, is_nil,
}
use ether_recorder_suite.Text.Trim.{
  all_space-nil, is_nil-append, all_space, starts_bare, ends_bare, trim_whitespace-between,
  starts_bare-append, ends_bare-append,
}
use ether_recorder_suite.Text.Cut.{
  plain, plain-padded, cut_comment-plain, cut_comment-all_space, split_at-plain,
  platform_strcat-short,
}
use ether_recorder_suite.Config.{ConfigEntry, load_line}

-- A name of a setting: no space at its ends, not empty, and not the start of a section.
pub record IsKey (key : List ℕ) : Type 0 where
  pub filled : is_nil key ≡ false
  pub starts : starts_bare key ≡ true
  pub ends : ends_bare key ≡ true
  pub no_signs : plain key ≡ true
  pub no_section : get_or key 0 0 ≢ 91
  pub short : length key < 50

-- Its value: no space at its ends, and no comment outside quotes.
pub record IsValue (value : List ℕ) : Type 0 where
  pub filled : is_nil value ≡ false
  pub starts : starts_bare value ≡ true
  pub ends : ends_bare value ≡ true
  pub no_comment : cut_comment false value ≡ value
  pub short : length value < 200

load_setting :
    (state : List ℕ × List ConfigEntry) (line key value : List ℕ) (c : ℕ) (cs : List ℕ)
    → trim_comments (trim_whitespace line) ≡ c ∷ cs
    → c ≢ 91
    → split_at 61 (c ∷ cs) ≡ some (key, value)
    → load_line state line ≡ (
      state.0,
      record {
        section = platform_strcat [] state.0 50;
        key = platform_strcat [] (trim_whitespace key) 50;
        value = platform_strcat [] (trim_whitespace value) 200;
      }
          ∷ state.1,
    )
unfolding load_line
load_setting (current, entries) line key value c cs e ne s = ground (arith, e, ne, s)

key_head : (key : List ℕ) → IsKey key → (c : ℕ) × (cs : List ℕ) × (key ≡ c ∷ cs) × (c ≢ 91)
key_head [] k = absurd (ground (arith, k.filled))
key_head (c ∷ cs) k = (c, cs, refl, k.no_section)

-- The text of a setting, with spaces about the sign.
abbrev pub setting : List ℕ → List ℕ → List ℕ → List ℕ → List ℕ
setting key m n value = key ++ (m ++ (61 ∷ n ++ value))

-- A text that is not empty and has no space at its ends.
pub record IsWord (word : List ℕ) : Type 0 where
  pub filled : is_nil word ≡ false
  pub starts : starts_bare word ≡ true
  pub ends : ends_bare word ≡ true

pub setting-trimmed :
    (key m n value : List ℕ)
    → IsWord key
    → IsWord value
    → (l r : List ℕ) → all_space l ≡ true
    → all_space r ≡ true
    → trim_whitespace (l ++ (setting key m n value ++ r)) ≡ setting key m n value
setting-trimmed key m n value k v l r hl hr =
    trim_whitespace-between l (setting key m n value) r hl hr
      (starts_bare-append key _ k.filled k.starts)
      (ends_bare-append key _ (is_nil-append m _ refl)
        (ends_bare-append m _ refl (ends_bare-append (61 ∷ n) value v.filled v.ends)))

pub setting-split :
    (key m n value : List ℕ)
    → plain key ≡ true
    → all_space m ≡ true
    → split_at 61 (setting key m n value) ≡ some (key ++ m, n ++ value)
setting-split key m n value no_signs hm =
    ap (split_at 61) (sym (append_assoc key m (61 ∷ n ++ value)))
    ∙ split_at-plain (key ++ m) (n ++ value) (plain-padded key m no_signs hm)

module _ (key m n value : List ℕ) (k : IsKey key) (v : IsValue value) (hm : all_space m ≡ true)
    (hn : all_space n ≡ true) where
  body-trimmed :
      (l r : List ℕ)
      → all_space l ≡ true
      → all_space r ≡ true
      → trim_whitespace (l ++ (setting key m n value ++ r)) ≡ setting key m n value
  body-trimmed =
      setting-trimmed key m n value (record { filled = k.filled; starts = k.starts; ends = k.ends })
        (record { filled = v.filled; starts = v.starts; ends = v.ends })

  body-uncut : trim_comments (setting key m n value) ≡ setting key m n value
  unfolding trim_comments cut_comment
  body-uncut =
      ap trim_whitespace uncut
      ∙ ap trim_whitespace (sym (append-nil (setting key m n value)))
      ∙ body-trimmed [] [] all_space-nil all_space-nil
    where
      uncut : cut_comment false (setting key m n value) ≡ setting key m n value
      uncut =
          cut_comment-plain key _ k.no_signs
          ∙ ap (λ t. key ++ t)
              (cut_comment-all_space m _ hm
                ∙ ap (λ t. m ++ (61 ∷ t))
                    (cut_comment-all_space n value hn ∙ ap (λ t. n ++ t) v.no_comment))

  -- A line of the form "key = value", with any spaces at its ends and about the sign, adds the
  -- setting of the current section in front of all others, if the key has no quote, comment, equals
  -- sign or first bracket, the value no comment outside quotes, both are filled, have no space at
  -- their ends and fit the entry, and so does the name of the section.
  pub load_line-setting :
      (l r : List ℕ) (current : List ℕ) (entries : List ConfigEntry)
      → all_space l ≡ true
      → all_space r ≡ true
      → length current < 50
      → load_line (current, entries) (l ++ (setting key m n value ++ r))
        ≡ (current, record { section = current; key = key; value = value } ∷ entries)
  load_line-setting l r current entries hl hr hc =
      let (c, cs, e, ne) = key_head key k in
      let key_kept : trim_whitespace (key ++ m) ≡ key =
        trim_whitespace-between [] key m all_space-nil hm k.starts k.ends in
      let value_kept : trim_whitespace (n ++ value) ≡ value =
        ap trim_whitespace (ap (λ t. n ++ t) (sym (append-nil value)))
        ∙ trim_whitespace-between n value [] hn all_space-nil v.starts v.ends in
      load_setting (current, entries) (l ++ (setting key m n value ++ r)) (key ++ m) (n ++ value) c
        (cs ++ (m ++ (61 ∷ n ++ value)))
        (ap trim_comments (body-trimmed l r hl hr)
          ∙ body-uncut
          ∙ ap (λ t. t ++ (m ++ (61 ∷ n ++ value))) e)
        ne
        (ap (λ t. split_at 61 (t ++ (m ++ (61 ∷ n ++ value)))) (sym e)
          ∙ setting-split key m n value k.no_signs hm)
      ∙ ground (
        arith,
        key_kept,
        value_kept,
        platform_strcat-short current 50 hc,
        platform_strcat-short key 50 k.short,
        platform_strcat-short value 200 v.short,
      )
