-- ===== src/RingArray.antt =====
-- Arrays that are used as rings: the slots from an index on, going round at the capacity. The queue
-- of messages and the queue of log entries stand on it.
use ether_recorder_suite.Prelude.{
  ℕ, zero, suc, ◌+◌, ◌-◌, ◌%◌, ◌≤◌, ◌<◌, ◌≡◌, ◌≢◌, refl, sym, ap, ap₂, ◌∙◌, List, [], ◌∷◌, ◌++◌,
  arith, length, get_or, set, get_or-set_self, get_or-set_ne, if◌then◌else◌, ltb, length-append,
}
use native.Mathlib.Nat.{mod-add-mod, mod-eq_of_lt, mod-eq-sub-mod}
use native.Mathlib.Decide.{dec_lt}

-- An index that has gone round at most once.
pub mod_once : (cap a : ℕ) → a < cap + cap → a % cap ≡ (if ltb a cap then a else a - cap)
mod_once cap a h = elim (dec_lt a cap) [
  | yes p ↦ ground (arith, mod-eq_of_lt p)
  | no p ↦ ground (
    arith,
    mod-eq-sub-mod {n = a} {m = cap} (omega arith),
    mod-eq_of_lt {n = a - cap} {m = cap} (omega arith),
  )
]

-- How many slots are used between the head `h` and the tail `t`.
abbrev pub used : ℕ → ℕ → ℕ → ℕ
used cap h t = if ltb t h then cap + t - h else t - h

module _ {cap h t : ℕ} (hh : h < cap) (ht : t < cap) where
  pub used-lt : used cap h t < cap
  used-lt = ground arith

  pub tail-used : t ≡ (h + used cap h t) % cap
  tail-used = ground (arith, mod_once cap (h + used cap h t))

  -- One more at the tail, unless that meets the head.
  pub used-next_tail : (t + 1) % cap ≢ h → used cap h ((t + 1) % cap) ≡ used cap h t + 1
  used-next_tail ne = ground (arith, mod_once cap (t + 1))

  pub used_full : (t + 1) % cap ≡ h → used cap h t + 1 ≡ cap
  used_full e = ground (arith, mod_once cap (t + 1))

  pub used_not_full : (t + 1) % cap ≢ h → used cap h t + 1 < cap
  used_not_full ne = ground (arith, mod_once cap (t + 1))

  -- One less at the head, unless that has met the tail.
  pub used-next_head : h ≢ t → used cap h t ≡ suc (used cap ((h + 1) % cap) t)
  used-next_head ne = ground (arith, mod_once cap (h + 1))

pub offsets_ne : {cap h j k : ℕ} → h < cap → j < k → k < cap → (h + k) % cap ≢ (h + j) % cap
offsets_ne {cap} {h} {j} {k} hh hj hk e = ground (arith, mod_once cap (h + k), mod_once cap (h + j))

module _ {ℓ} {A : Type ℓ} (d : A) (cap : ℕ) where
  -- The contents of `n` slots from `h` on.
  abbrev pub span : List A → ℕ → ℕ → List A
  span buf h zero = []
  span buf h (suc n) = span buf h n ++ (get_or buf ((h + n) % cap) d ∷ [])

  pub length-span : (buf : List A) (h n : ℕ) → length (span buf h n) ≡ n
  length-span buf h zero = refl
  length-span buf h (suc n) =
      omega (
        arith,
        length-append (span buf h n) (get_or buf ((h + n) % cap) d ∷ []),
        length-span buf h n,
      )

  -- A write behind a span leaves it alone.
  pub span-set :
      (buf : List A) (x : A) (h n k t : ℕ)
      → h < cap
      → n ≤ k
      → k < cap
      → t ≡ (h + k) % cap
      → span (set buf t x) h n ≡ span buf h n
  span-set buf x h zero k t hh hn hk e = refl
  span-set buf x h (suc n) k t hh hn hk e =
      ap₂ (λ s v. s ++ (v ∷ [])) (span-set buf x h n k t hh (omega arith) hk e)
        (get_or-set_ne buf x d (λ e'. offsets_ne hh (omega arith) hk (sym e ∙ e')))

  -- A write just behind a span extends it.
  pub span-set_next :
      (buf : List A) (x : A) (h n t : ℕ)
      → h < cap
      → n < cap
      → cap ≤ length buf
      → t < cap
      → t ≡ (h + n) % cap
      → span (set buf t x) h (suc n) ≡ span buf h n ++ (x ∷ [])
  span-set_next buf x h n t hh hn hb ht e =
      ap₂ (λ s v. s ++ (v ∷ [])) (span-set buf x h n n t hh (omega arith) hn e)
        (rw (← e) (get_or-set_self buf t x d (omega arith)))

  -- A span begins with the slot at its head.
  pub span-head :
      (buf : List A) (h n : ℕ)
      → h < cap
      → span buf h (suc n) ≡ get_or buf h d ∷ span buf ((h + 1) % cap) n
  span-head buf h zero hh = ap (λ i. get_or buf i d ∷ []) (ground (arith, mod_once cap (h + 0)))
  span-head buf h (suc n) hh = ap₂ (λ s i. s ++ (get_or buf i d ∷ [])) (span-head buf h n hh) shift
    where
      shift : (h + suc n) % cap ≡ ((h + 1) % cap + n) % cap
      shift = rw mod-add-mod (ap (λ k. k % cap) (omega arith))
