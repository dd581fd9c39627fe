-- ===== src/Playlist/Shuffle/Remainders.antt =====
-- src/playlist.c: how many numbers `playlist_shuffle` accepts for each position.
use native.Mathlib.Nat.{div-add-mod, mul-add-mod_self_left, mod-eq_of_lt, mul-suc, mul-zero}
use ezstream.Prelude.{
  ℕ, zero, suc, ◌+◌, ◌-◌, ◌*◌, ◌/◌, ◌%◌, ◌≤◌, ◌<◌, ◌≡◌, refl, ap, ◌∙◌, true, false, arith, ltb,
  ◌==◌, if◌then◌else◌,
}
use ezstream.Playlist.Shuffle.{rand_max, rejects}

-- How many numbers below a bound are accepted and have the remainder `r`.
unfoldable pub counted : ℕ → ℕ → ℕ → ℕ
unfolding rejects
counted range r zero = 0
counted range r (suc d) =
    (if rejects range d then 0 else if d % range == r then 1 else 0) + counted range r d

-- The largest multiple of the range.
abbrev largest : ℕ → ℕ
largest range = range * (rand_max / range)

rejects_iff : (range d : ℕ) → rejects range d ≡ ltb (largest range) d
unfolding rejects
rejects_iff range d = ap (λ n. ltb n d) (omega (arith, div-add-mod rand_max range))

largest-le : (range : ℕ) → largest range ≤ rand_max
largest-le range = omega (arith, div-add-mod rand_max range)

module _ (range r : ℕ) (small : r < range) where
  accepted_step :
      (q k : ℕ)
      → k < range
      → range * q + k ≤ largest range
      → counted range r (suc (range * q + k))
        ≡ (if k == r then 1 else 0) + counted range r (range * q + k)
  unfolding counted
  accepted_step q k less within =
      let accepted : rejects range (range * q + k) ≡ false =
        rejects_iff range (range * q + k) ∙ ground arith in
      let remainder : (range * q + k) % range ≡ k =
        mul-add-mod_self_left range q k ∙ mod-eq_of_lt less in
      rw (accepted, remainder) refl

  -- Behind `q` whole rounds, and `k` numbers of the next one.
  row :
      (q k : ℕ)
      → k ≤ range
      → range * q + k ≤ suc (largest range)
      → counted range r (range * q) ≡ q
      → counted range r (range * q + k) ≡ q + (if ltb r k then 1 else 0)
  row q zero less within h = ap (counted range r) (omega arith) ∙ h ∙ ground arith
  row q (suc k) less within h =
      ap (counted range r) (omega arith)
      ∙ accepted_step q k (omega arith) (omega arith)
      ∙ ap (λ n. (if k == r then 1 else 0) + n) (row q k (omega arith) (omega arith) h)
      ∙ ground arith

  rows : (q : ℕ) → range * q ≤ largest range → counted range r (range * q) ≡ q
  unfolding counted
  rows zero within = ap (counted range r) (mul-zero range)
  rows (suc q) within =
      let e = mul-suc range q in
      ap (counted range r) (omega (arith, e))
      ∙ row q range (omega arith) (omega (arith, e)) (rows q (omega (arith, e)))
      ∙ ground arith

  rejected_step : (d : ℕ) → largest range < d → counted range r (suc d) ≡ counted range r d
  unfolding counted
  rejected_step d more =
      let rejected : rejects range d ≡ true = rejects_iff range d ∙ ground arith in
      rw rejected (omega arith)

  none_behind :
      (j : ℕ) → counted range r (suc (largest range) + j) ≡ counted range r (suc (largest range))
  none_behind zero = ap (counted range r) (omega arith)
  none_behind (suc j) =
      ap (counted range r) (omega arith)
      ∙ rejected_step (suc (largest range) + j) (omega arith)
      ∙ none_behind j

  -- Of the numbers up to `RAND_MAX` that are accepted, `RAND_MAX / range` leave the remainder `r`, for
  -- every `r` below the range but 0: the remainder 0 is left by one number more.
  pub counted-rand_max :
      counted range r (suc rand_max) ≡ rand_max / range + (if r == 0 then 1 else 0)
  counted-rand_max =
      let m = largest range in
      ap (counted range r) (omega (arith, largest-le range))
      ∙ none_behind (rand_max - m)
      ∙ ap (counted range r) (omega arith)
      ∙ row (rand_max / range) 1 (omega arith) (omega arith) (rows (rand_max / range) (omega arith))
      ∙ ground arith
