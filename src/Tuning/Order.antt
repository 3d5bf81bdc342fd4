-- ===== src/Tuning/Order.antt =====
-- src/executor/tuning.rs: the order of the measured rounds.
use tensor_ash.Prelude.{
  ℕ, suc, ◌+◌, ◌-◌, ◌*◌, ◌/◌, ◌%◌, ◌<◌, ◌≤◌, ◌≡◌, refl, ap, ◌∙◌, sym, inl, inr, ◌⊎◌, arith,
  div_ceil, if◌then◌else◌, ◌==◌,
}
use tensor_ash.Tuning.{candidate_at}

wrap-mod : (a len : ℕ) → a < len → (len + a) % len ≡ a
wrap-mod a len h = grind arith

-- A sum of two residues, and its remainder.
wrap : (a len : ℕ) → a < 2 * len → ((a < len) × (a % len ≡ a)) ⊎ ((len ≤ a) × (a % len ≡ a - len))
wrap a len h = elim (below a len) [
  | inl lt ↦ inl (lt, grind arith)
  | inr ge ↦
      let whole : len + (a - len) ≡ a = omega arith in
      inr (ge, ap (λ n. n % len) (sym whole) ∙ wrap-mod (a - len) len (omega arith))
]
  where
    below : (a len : ℕ) → (a < len) ⊎ (len ≤ a)
    below a len = ground arith

abbrev forward : ℕ → ℕ → ℕ → ℕ
forward len start offset = (start + offset) % len

abbrev backward : ℕ → ℕ → ℕ → ℕ
backward len start offset = (start + len - 1 - offset) % len

abbrev behind : ℕ → ℕ → ℕ → ℕ
behind len start c = (c + len - start) % len

forward-behind : (len s c : ℕ) → s < len → c < len → forward len s (behind len s c) ≡ c
forward-behind len s c hs hc =
    ground (arith, wrap (c + len - s) len, wrap (s + (c + len - s) % len) len)

behind-forward : (len s o : ℕ) → s < len → o < len → behind len s (forward len s o) ≡ o
behind-forward len s o hs ho = ground (arith, wrap (s + o) len, wrap ((s + o) % len + len - s) len)

backward-backward : (len s o : ℕ) → s < len → o < len → backward len s (backward len s o) ≡ o
backward-backward len s o hs ho =
    ground (arith, wrap (s + len - 1 - o) len, wrap (s + len - 1 - (s + len - 1 - o) % len) len)

ranks-sum : (len s c : ℕ) → s < len → c < len → behind len s c + backward len s c ≡ len - 1
ranks-sum len s c hs hc = ground (arith, wrap (c + len - s) len, wrap (s + len - 1 - c) len)

start_of : ℕ → ℕ → ℕ
start_of len pair = pair * div_ceil len 2 % len

in_round :
    (len r pair o : ℕ)
    → r / 2 ≡ pair
    → candidate_at len (suc r) o ≡ (
        if suc r % 2 == 1
        then forward len (start_of len pair) o
        else backward len (start_of len pair) o)
unfolding candidate_at start_of
in_round len r pair o half = rw half refl

odd_round :
    (len pair o : ℕ) → candidate_at len (suc (2 * pair)) o ≡ forward len (start_of len pair) o
odd_round len pair o = ground (arith, in_round len (2 * pair) pair o)

even_round :
    (len pair o : ℕ)
    → candidate_at len (suc (suc (2 * pair))) o ≡ backward len (start_of len pair) o
even_round len pair o = ground (arith, in_round len (suc (2 * pair)) pair o)

start-lt : (len pair : ℕ) → 0 < len → start_of len pair < len
unfolding start_of
start-lt len pair h = grind arith

residue-lt : (a len : ℕ) → 0 < len → a % len < len
residue-lt a len h = grind arith

-- In the two measured rounds of a pair every candidate comes exactly once, and its two places in
-- the order add up to the same number, one less than the count of candidates.
pub candidate_at-balanced :
    (len pair c : ℕ)
    → c < len
    → (first : ℕ) × (second : ℕ) × (first < len)
      × (second < len)
      × (candidate_at len (suc (2 * pair)) first ≡ c)
      × (candidate_at len (suc (suc (2 * pair))) second ≡ c)
      × ((o : ℕ) → o < len → candidate_at len (suc (2 * pair)) o ≡ c → o ≡ first)
      × ((o : ℕ) → o < len → candidate_at len (suc (suc (2 * pair))) o ≡ c → o ≡ second)
      × (first + second ≡ len - 1)
candidate_at-balanced len pair c h =
    let s = start_of len pair in
    let small : s < len = start-lt len pair (omega arith) in
    (
      behind len s c,
      backward len s c,
      residue-lt (c + len - s) len (omega arith),
      residue-lt (s + len - 1 - c) len (omega arith),
      odd_round len pair (behind len s c) ∙ forward-behind len s c small h,
      even_round len pair (backward len s c) ∙ backward-backward len s c small h,
      λ o k e.
          sym (behind-forward len s o small k) ∙ ap (behind len s) (sym (odd_round len pair o) ∙ e),
      λ o k e.
          sym (backward-backward len s o small k)
          ∙ ap (backward len s) (sym (even_round len pair o) ∙ e),
      ranks-sum len s c small h,
    )
