-- ===== src/CString/Case.antt =====
-- Comparison with and without case is an equivalence.
use ezstream.Prelude.{◌≡◌, refl, sym, ◌∙◌, ap, ◌↔◌, true, [], ◌∷◌, arith}
use ezstream.CString.{Bytes, str_eq, lower, str_case_eq}

pub str_eq_refl : (a : Bytes) → str_eq a a ≡ true
unfolding str_eq
str_eq_refl [] = refl
str_eq_refl (c ∷ s) = ground (arith, str_eq_refl s)

pub str_eq→eq : (a b : Bytes) → str_eq a b ≡ true → a ≡ b
unfolding str_eq
str_eq→eq [] [] h = refl
str_eq→eq [] (d ∷ t) h = cc
str_eq→eq (c ∷ s) [] h = cc
str_eq→eq (c ∷ s) (d ∷ t) h = ground (arith, str_eq→eq s t)

pub str_eq_iff : (a b : Bytes) → (str_eq a b ≡ true) ↔ (a ≡ b)
str_eq_iff a b = (str_eq→eq a b, λ e. ap (str_eq a) (sym e) ∙ str_eq_refl a)

pub str_case_eq_iff : (a b : Bytes) → (str_case_eq a b ≡ true) ↔ (lower a ≡ lower b)
unfolding str_case_eq
str_case_eq_iff a b = str_eq_iff (lower a) (lower b)

pub str_case_eq_refl : (a : Bytes) → str_case_eq a a ≡ true
str_case_eq_refl a = (str_case_eq_iff a a).1 refl

pub str_case_eq_sym : (a b : Bytes) → str_case_eq a b ≡ true → str_case_eq b a ≡ true
str_case_eq_sym a b h = (str_case_eq_iff b a).1 (sym ((str_case_eq_iff a b).0 h))

pub str_case_eq_trans :
    (a b c : Bytes) → str_case_eq a b ≡ true → str_case_eq b c ≡ true → str_case_eq a c ≡ true
str_case_eq_trans a b c h k =
    (str_case_eq_iff a c).1 ((str_case_eq_iff a b).0 h ∙ (str_case_eq_iff b c).0 k)

-- One side of the comparison may be replaced by a name that is equal up to case.
pub str_case_eq_cong : (a b c : Bytes) → str_case_eq a b ≡ true → str_case_eq a c ≡ str_case_eq b c
unfolding str_case_eq
str_case_eq_cong a b c h = ap (λ x. str_eq x (lower c)) ((str_case_eq_iff a b).0 h)

pub str_case_eq_comm : (a b : Bytes) → str_case_eq a b ≡ str_case_eq b a
str_case_eq_comm a b = ground (arith, str_case_eq_sym a b, str_case_eq_sym b a)
