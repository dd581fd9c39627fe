-- ===== src/Cfg/Decoder/Extensions.antt =====
-- Lists of extensions that are all different, and what the two steps of `cfg_decoder_add_match` do
-- to the list of all extensions.
use mathlib.Core.Path.{subst}
use ezstream.Prelude.{
  ◌≡◌, refl, sym, ap, ◌∙◌, inl, inr, true, false, some, List, [], ◌∷◌, ◌++◌, append_assoc, arith,
  Bool-cases, All,
}
use ezstream.CString.{Bytes, str_case_eq}
use ezstream.CString.Case.{str_case_eq_cong, str_case_eq_comm}
use ezstream.Cfg.Decoder.{Decoder, has_ext, take_ext}

-- `x` is another extension than `e`.
abbrev pub Other : Bytes → Bytes → Type 0
Other e x = str_case_eq x e ≡ false

-- No two extensions are equal up to case.
abbrev pub Distinct : List Bytes → Type 0
Distinct [] = Unit
Distinct (e ∷ exts) = All (Other e) exts × Distinct exts

-- The extensions of all decoders, in their order.
abbrev pub all_exts : List Decoder → List Bytes
all_exts [] = []
all_exts (d ∷ dl) = d.exts ++ all_exts dl

Other-sym : (a b : Bytes) → Other a b → Other b a
Other-sym a b h = str_case_eq_comm a b ∙ h

pub Other-cong : (a b x : Bytes) → str_case_eq a b ≡ true → Other a x → Other b x
Other-cong a b x e h =
    str_case_eq_comm x b ∙ sym (str_case_eq_cong a b x e) ∙ str_case_eq_comm a x ∙ h

pub All-Other-cong :
    (a b : Bytes) (xs : List Bytes) → str_case_eq a b ≡ true → All (Other a) xs → All (Other b) xs
All-Other-cong a b [] e h = tt
All-Other-cong a b (x ∷ xs) e (hx, h) = (Other-cong a b x e hx, All-Other-cong a b xs e h)

All-insert {ℓ} :
    (P : Bytes → Type ℓ) (xs ys : List Bytes) (e : Bytes)
    → All P (xs ++ ys)
    → P e
    → All P (xs ++ e ∷ ys)
All-insert P [] ys e h p = (p, h)
All-insert P (x ∷ xs) ys e (hx, h) p = (hx, All-insert P xs ys e h p)

All-delete {ℓ} :
    (P : Bytes → Type ℓ) (xs ys : List Bytes) (e : Bytes)
    → All P (xs ++ e ∷ ys)
    → P e × All P (xs ++ ys)
All-delete P [] ys e h = h
All-delete P (x ∷ xs) ys e (hx, h) = let (p, rest) = All-delete P xs ys e h in (p, (hx, rest))

pub Distinct-insert :
    (xs ys : List Bytes) (e : Bytes)
    → Distinct (xs ++ ys)
    → All (Other e) (xs ++ ys)
    → Distinct (xs ++ e ∷ ys)
Distinct-insert [] ys e h o = (o, h)
Distinct-insert (x ∷ xs) ys e (hx, h) (ox, o) =
    (All-insert (Other x) xs ys e hx (Other-sym e x ox), Distinct-insert xs ys e h o)

pub Distinct-delete :
    (xs ys : List Bytes) (e : Bytes)
    → Distinct (xs ++ e ∷ ys)
    → Distinct (xs ++ ys) × All (Other e) (xs ++ ys)
Distinct-delete [] ys e (o, h) = (h, o)
Distinct-delete (x ∷ xs) ys e (hx, h) =
    let (p, rest) = All-delete (Other x) xs ys e hx in
    let (d, o) = Distinct-delete xs ys e h in ((rest, d), (Other-sym x e p, o))

-- How a list lies around one of its elements.
pub record Around (e : Bytes) (whole rest : List Bytes) : Type 0 where
  pub before : List Bytes
  pub behind : List Bytes
  pub whole_eq : whole ≡ before ++ e ∷ behind
  pub rest_eq : rest ≡ before ++ behind

-- A list that has the extension gives up one entry for it.
pub take_ext_lem :
    (exts : List Bytes) (ext : Bytes)
    → has_ext exts ext ≡ true
    → (e : Bytes) × (rest : List Bytes) × (take_ext exts ext ≡ some (e, rest))
      × (str_case_eq e ext ≡ true)
      × Around e exts rest
unfolding take_ext has_ext
take_ext_lem [] ext h = cc
take_ext_lem (x ∷ exts) ext h = elim (Bool-cases (str_case_eq x ext)) [
  | inl e ↦ (
    x,
    exts,
    ground (arith, e),
    e,
    record { before = []; behind = exts; whole_eq = refl; rest_eq = refl },
  )
  | inr e ↦
      let (f, rest, found, same, around) = take_ext_lem exts ext (ground (arith, e)) in
      (
        f,
        x ∷ rest,
        ground (arith, e, found),
        same,
        record {
          before = x ∷ around.before;
          behind = around.behind;
          whole_eq = ap (◌∷◌ x) around.whole_eq;
          rest_eq = ap (◌∷◌ x) around.rest_eq;
        },
      )
]

pub has_ext-none :
    (exts : List Bytes) (ext : Bytes) → has_ext exts ext ≡ false → All (Other ext) exts
unfolding has_ext
has_ext-none [] ext h = tt
has_ext-none (x ∷ exts) ext h = (ground arith, has_ext-none exts ext (ground arith))

-- In front of other lists and behind them.
pub Around-append :
    (e : Bytes) (whole rest zs : List Bytes)
    → Around e whole rest
    → Around e (whole ++ zs) (rest ++ zs)
Around-append e whole rest zs h = record {
  before = h.before;
  behind = h.behind ++ zs;
  whole_eq = ap (λ l. l ++ zs) h.whole_eq ∙ append_assoc h.before (e ∷ h.behind) zs;
  rest_eq = ap (λ l. l ++ zs) h.rest_eq ∙ append_assoc h.before h.behind zs;
}

pub append-Around :
    (e : Bytes) (zs whole rest : List Bytes)
    → Around e whole rest
    → Around e (zs ++ whole) (zs ++ rest)
append-Around e zs whole rest h = record {
  before = zs ++ h.before;
  behind = h.behind;
  whole_eq = ap (λ l. zs ++ l) h.whole_eq ∙ sym (append_assoc zs h.before (e ∷ h.behind));
  rest_eq = ap (λ l. zs ++ l) h.rest_eq ∙ sym (append_assoc zs h.before h.behind);
}

pub Distinct-with :
    (e : Bytes) (whole rest : List Bytes)
    → Around e whole rest
    → Distinct rest
    → All (Other e) rest
    → Distinct whole
Distinct-with e whole rest h d o = subst Distinct (sym h.whole_eq) (
    Distinct-insert h.before h.behind e (subst Distinct h.rest_eq d)
      (subst (All (Other e)) h.rest_eq o))

pub Distinct-without :
    (e : Bytes) (whole rest : List Bytes)
    → Around e whole rest
    → Distinct whole
    → Distinct rest × All (Other e) rest
Distinct-without e whole rest h d =
    let (fewer, other) = Distinct-delete h.before h.behind e (subst Distinct h.whole_eq d) in
    (subst Distinct (sym h.rest_eq) fewer, subst (All (Other e)) (sym h.rest_eq) other)
