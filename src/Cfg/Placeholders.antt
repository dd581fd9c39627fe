-- ===== src/Cfg/Placeholders.antt =====
-- The tests CHECKPH_* of src/cfg_private.h, and what they say about the occurrences of a placeholder.
use mathlib.Core.Option.{some-injective, none-ne-some}
use mathlib.Core.Path.{subst}
use ezstream.Prelude.{
  ℕ, zero, suc, ◌≤◌, ◌≡◌, refl, sym, ap, ◌∙◌, ◌≢◌, ◌↔◌, inl, inr, true, Option, none, some, List,
  [], ◌∷◌, ◌++◌, append_assoc, arith, Bool-cases, Option-cases, length, drop, All, length-append,
  drop-append,
}
use ezstream.CString.{Bytes, starts_with, strstr}
use ezstream.CString.Search.{starts_with-append, starts_with-drop}
use ezstream.Cfg.{Error, checkph_prohibited, checkph_duplicate, checkph_required, first_error}

abbrev pub Occurs : Bytes → Bytes → Type 0
Occurs p s = (a b : Bytes) × (s ≡ a ++ (p ++ b))

-- Two occurrences that do not overlap.
abbrev pub Twice : Bytes → Bytes → Type 0
Twice p s = (a b c : Bytes) × (s ≡ a ++ (p ++ (b ++ (p ++ c))))

strstr_first : (s p : Bytes) → starts_with s p ≡ true → strstr s p ≡ some s
unfolding strstr
strstr_first [] p h = ground (arith, h)
strstr_first (c ∷ s) p h = ground (arith, h)

strstr-Occurs :
    (s p r : Bytes) → strstr s p ≡ some r → (a : Bytes) × (s ≡ a ++ r) × (starts_with r p ≡ true)
unfolding strstr
strstr-Occurs [] p r h = elim (Bool-cases (starts_with [] p)) [
  | inl e ↦
      let same = some-injective [] r (sym (strstr_first [] p e) ∙ h) in
      ([], same, subst (λ z. starts_with z p ≡ true) same e)
  | inr e ↦ absurd (ground (arith, e))
]
strstr-Occurs (c ∷ s) p r h = elim (Bool-cases (starts_with (c ∷ s) p)) [
  | inl e ↦
      let same = some-injective (c ∷ s) r (sym (strstr_first (c ∷ s) p e) ∙ h) in
      ([], same, subst (λ z. starts_with z p ≡ true) same e)
  | inr e ↦
      let (a, shape, first) = strstr-Occurs s p r (ground (arith, e)) in
      (c ∷ a, ap (◌∷◌ c) shape, first)
]

drop-append_le : (n : ℕ) (u t : Bytes) → n ≤ length u → drop n (u ++ t) ≡ drop n u ++ t
drop-append_le zero u t h = refl
drop-append_le (suc n) [] t h = absurd (omega arith)
drop-append_le (suc n) (c ∷ u) t h = drop-append_le n u t (omega arith)

-- Behind the first occurrence everything is left that follows any occurrence.
strstr_rest :
    (a p t : Bytes)
    → (r x : Bytes) × (strstr (a ++ (p ++ t)) p ≡ some r) × (drop (length p) r ≡ x ++ t)
unfolding strstr starts_with
strstr_rest [] p t = (p ++ t, [], strstr_first (p ++ t) p (starts_with-append p t), drop-append p t)
strstr_rest (c ∷ a) p t = elim (Bool-cases (starts_with (c ∷ (a ++ (p ++ t))) p)) [
  | inl e ↦ (
    c ∷ (a ++ (p ++ t)),
    drop (length p) ((c ∷ a) ++ p),
    ground (arith, e),
    ap (drop (length p)) (ap (◌∷◌ c) (sym (append_assoc a p t)))
        ∙ drop-append_le (length p) ((c ∷ a) ++ p) t (omega (arith, length-append a p)),
  )
  | inr e ↦ let (r, x, found, shape) = strstr_rest a p t in (r, x, ground (arith, e, found), shape)
]

Occurs→found : (s p : Bytes) → Occurs p s → strstr s p ≢ none
Occurs→found s p (a, b, shape) h =
    let (r, x, found, _) = strstr_rest a p b in
    none-ne-some r (sym h ∙ ap (λ z. strstr z p) shape ∙ found)

found→Occurs : (s p r : Bytes) → strstr s p ≡ some r → Occurs p s
found→Occurs s p r h =
    let (a, shape, first) = strstr-Occurs s p r h in
    (a, drop (length p) r, shape ∙ ap (λ z. a ++ z) (sym (starts_with-drop r p first)))

-- A placeholder passes the test for prohibited ones exactly if it does not occur.
pub checkph_prohibited_iff : (s p : Bytes) → (checkph_prohibited s p ≡ none) ↔ (Occurs p s → ⊥)
unfolding checkph_prohibited
checkph_prohibited_iff s p = elim (Option-cases (strstr s p)) [
  | inl e ↦ (λ _ o. Occurs→found s p o e, λ _. (ground (arith, e)))
  | inr (r, e) ↦ (λ h. absurd (ground (arith, e)), λ no. absurd (no (found→Occurs s p r e)))
]

-- A required placeholder passes exactly if it occurs.
pub checkph_required_iff : (s p : Bytes) → (checkph_required s p ≡ none) ↔ Occurs p s
unfolding checkph_required
checkph_required_iff s p = elim (Option-cases (strstr s p)) [
  | inl e ↦ (λ h. absurd (ground (arith, e)), λ o. absurd (Occurs→found s p o e))
  | inr (r, e) ↦ (λ _. found→Occurs s p r e, λ _. (ground (arith, e)))
]

dup_none : (s p : Bytes) → strstr s p ≡ none → checkph_duplicate s p ≡ none
unfolding checkph_duplicate
dup_none s p e = ground (arith, e)

dup_one :
    (s p r : Bytes)
    → strstr s p ≡ some r
    → strstr (drop (length p) r) p ≡ none
    → checkph_duplicate s p ≡ none
unfolding checkph_duplicate
dup_one s p r e f = ground (arith, e, f)

dup_two :
    (s p r q : Bytes)
    → strstr s p ≡ some r
    → strstr (drop (length p) r) p ≡ some q
    → checkph_duplicate s p ≢ none
unfolding checkph_duplicate
dup_two s p r q e f h = ground (arith, e, f)

-- Where the placeholder occurs twice, the second search succeeds.
twice_found :
    (s p r a b c : Bytes)
    → strstr s p ≡ some r
    → s ≡ a ++ (p ++ (b ++ (p ++ c)))
    → strstr (drop (length p) r) p ≢ none
twice_found s p r a b c e shape =
    let (r', x, found, rest) = strstr_rest a p (b ++ (p ++ c)) in
    let same : r ≡ r' = some-injective r r' (sym e ∙ ap (λ z. strstr z p) shape ∙ found) in
    Occurs→found (drop (length p) r) p
      (x ++ b, c, ap (drop (length p)) same ∙ rest ∙ sym (append_assoc x b (p ++ c)))

-- The test for duplicates passes exactly if the placeholder does not occur twice.
pub checkph_duplicate_iff : (s p : Bytes) → (checkph_duplicate s p ≡ none) ↔ (Twice p s → ⊥)
checkph_duplicate_iff s p = elim (Option-cases (strstr s p)) [
  | inl e ↦
      (λ _ (a, b, c, shape). Occurs→found s p (a, b ++ (p ++ c), shape) e, λ _. dup_none s p e)
  | inr (r, e) ↦
      let (a, shape, first) = strstr-Occurs s p r e in
      let rest = drop (length p) r in
      let whole : s ≡ a ++ (p ++ rest) =
        shape ∙ ap (λ z. a ++ z) (sym (starts_with-drop r p first)) in
      elim (Option-cases (strstr rest p)) [
        | inl f ↦
            (λ _ (a', b, c, shape'). twice_found s p r a' b c e shape' f, λ _. dup_one s p r e f)
        | inr (q, f) ↦
            let (b, c, again) = found→Occurs rest p q f in
            (
              λ h. absurd (dup_two s p r q e f h),
              λ no. absurd (no (a, b, c, whole ∙ ap (λ z. a ++ (p ++ z)) again)),
            )
      ]
]

-- Tests one after the other pass exactly if each of them passes.
pub first_error_iff : (es : List (Option Error)) → (first_error es ≡ none) ↔ All (λ o. o ≡ none) es
first_error_iff [] = (λ _. tt, λ _. refl)
first_error_iff (none ∷ es) =
    let (there, back) = first_error_iff es in (λ h. (refl, there h), λ (_, t). back t)
first_error_iff (some e ∷ es) =
    (λ h. absurd (none-ne-some e (sym h)), λ (h, _). absurd (none-ne-some e (sym h)))
