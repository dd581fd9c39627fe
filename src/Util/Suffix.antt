-- ===== src/Util/Suffix.antt =====
-- `util_strrcmp` and `util_strrcasecmp` test for a suffix.
use mathlib.Core.List.{map-append}
use ezstream.Prelude.{
  ℕ, zero, suc, ◌-◌, ◌≡◌, refl, sym, ap, ◌∙◌, ◌↔◌, [], ◌∷◌, ◌++◌, map, arith, length, take, drop,
  length-append, drop-append, take-append-drop,
}
use ezstream.CString.{Bytes, to_lower, lower}
use ezstream.CString.Case.{str_eq→eq, str_eq_refl}
use ezstream.Util.{util_strrcmp, util_strrcasecmp}

drop-append_sub : (p t : Bytes) → drop (length (p ++ t) - length t) (p ++ t) ≡ t
drop-append_sub p t =
    let e : length (p ++ t) - length t ≡ length p = omega (arith, length-append p t) in
    rw e (drop-append p t)

-- `util_strrcmp` returns 0 exactly when the text ends in the given suffix.
pub util_strrcmp_iff : (s sub : Bytes) → (util_strrcmp s sub ≡ 0) ↔ ((p : Bytes) × (s ≡ p ++ sub))
unfolding util_strrcmp
util_strrcmp_iff s sub = (
  λ h. (
    take (length s - length sub) s,
    ground (
      arith,
      take-append-drop (length s - length sub) s,
      str_eq→eq (drop (length s - length sub) s) sub,
    ),
  ),
  λ (p, e). rw e (ground (arith, length-append p sub, drop-append_sub p sub, str_eq_refl sub)),
)

map-drop : (f : ℕ → ℕ) (n : ℕ) (s : Bytes) → map f (drop n s) ≡ drop n (map f s)
map-drop f zero s = refl
map-drop f (suc n) [] = refl
map-drop f (suc n) (c ∷ s) = map-drop f n s

-- `util_strrcasecmp` returns 0 exactly when the text ends in some spelling, in upper or lower case,
-- of the given suffix.
pub util_strrcasecmp_iff :
    (s sub : Bytes)
    → (util_strrcasecmp s sub ≡ 0) ↔ ((p t : Bytes) × (s ≡ p ++ t) × (lower t ≡ lower sub))
unfolding util_strrcasecmp
util_strrcasecmp_iff s sub = (
  λ h.
      let (q, e) = (util_strrcmp_iff (lower s) (lower sub)).0 h in
      let n = length q in
      (
        take n s,
        drop n s,
        sym (take-append-drop n s),
        map-drop to_lower n s ∙ ap (drop n) e ∙ drop-append q (lower sub),
      ),
  λ (p, t, e, same).
      (util_strrcmp_iff (lower s) (lower sub)).1
        (lower p, ap lower e ∙ map-append to_lower p t ∙ ap (λ x. lower p ++ x) same),
)
