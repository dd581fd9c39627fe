-- ===== src/Cfg/Stream/Formats.antt =====
-- Stream formats as texts and as values.
use mathlib.Core.Option.{none-ne-some, some-injective}
use ezstream.Prelude.{
  ◌≡◌, refl, sym, ap, ◌∙◌, ◌↔◌, Bool, true, false, Option, none, some, if◌then◌else◌,
}
use ezstream.CString.{Bytes, codes, lower, str_case_eq}
use ezstream.CString.Case.{str_case_eq_iff}
use ezstream.Cfg.Stream.{
  Format, cfg_stream_str2fmt, cfg_stream_fmt2str, unset_format, ogg, mp3, webm, matroska,
}

str2fmt-fmt2str :
    (f : Format) (t : Bytes) → cfg_stream_fmt2str f ≡ some t → cfg_stream_str2fmt t ≡ some f
unfolding cfg_stream_fmt2str cfg_stream_str2fmt
str2fmt-fmt2str ogg t h = ap cfg_stream_str2fmt (sym (some-injective _ t h))
str2fmt-fmt2str mp3 t h = ap cfg_stream_str2fmt (sym (some-injective _ t h))
str2fmt-fmt2str webm t h = ap cfg_stream_str2fmt (sym (some-injective _ t h))
str2fmt-fmt2str matroska t h = ap cfg_stream_str2fmt (sym (some-injective _ t h))
str2fmt-fmt2str unset_format t h = absurd (none-ne-some t h)

str2fmt-lower : (s t : Bytes) → lower s ≡ lower t → cfg_stream_str2fmt s ≡ cfg_stream_str2fmt t
unfolding cfg_stream_str2fmt
str2fmt-lower s t e = rw e refl

-- Which comparison succeeds.
data Matched (s : Bytes) : Option Format → Type 0 where
  is_ogg : str_case_eq s (codes "Ogg") ≡ true → Matched s (some ogg)
  is_mp3 : str_case_eq s (codes "MP3") ≡ true → Matched s (some mp3)
  is_webm : str_case_eq s (codes "WebM") ≡ true → Matched s (some webm)
  is_matroska : str_case_eq s (codes "Matroska") ≡ true → Matched s (some matroska)
  is_none : Matched s none

chosen :
    (s : Bytes) (a b c d : Bool)
    → str_case_eq s (codes "Ogg") ≡ a
    → str_case_eq s (codes "MP3") ≡ b
    → str_case_eq s (codes "WebM") ≡ c
    → str_case_eq s (codes "Matroska") ≡ d
    → Matched s (
        if a
        then some ogg
        else if b
        then some mp3
        else if c
        then some webm
        else if d
        then some matroska
        else none)
chosen s true b c d ea eb ec ed = is_ogg ea
chosen s false true c d ea eb ec ed = is_mp3 eb
chosen s false false true d ea eb ec ed = is_webm ec
chosen s false false false true ea eb ec ed = is_matroska ed
chosen s false false false false ea eb ec ed = is_none

str2fmt-Matched : (s : Bytes) → Matched s (cfg_stream_str2fmt s)
unfolding cfg_stream_str2fmt
str2fmt-Matched s = chosen s _ _ _ _ refl refl refl refl

spelling :
    (s : Bytes) (o : Option Format) (f : Format)
    → Matched s o
    → o ≡ some f
    → (t : Bytes) × (cfg_stream_fmt2str f ≡ some t) × (lower s ≡ lower t)
unfolding cfg_stream_fmt2str
spelling s _ f (is_ogg e) h =
    (codes "Ogg", ap cfg_stream_fmt2str (sym (some-injective _ f h)), (str_case_eq_iff s _).0 e)
spelling s _ f (is_mp3 e) h =
    (codes "MP3", ap cfg_stream_fmt2str (sym (some-injective _ f h)), (str_case_eq_iff s _).0 e)
spelling s _ f (is_webm e) h =
    (codes "WebM", ap cfg_stream_fmt2str (sym (some-injective _ f h)), (str_case_eq_iff s _).0 e)
spelling s _ f (is_matroska e) h = (
  codes "Matroska",
  ap cfg_stream_fmt2str (sym (some-injective _ f h)),
  (str_case_eq_iff s _).0 e,
)
spelling s _ f is_none h = absurd (none-ne-some f h)

-- A text names a format exactly if it is a spelling, in upper or lower case, of the name that the
-- format has.
pub str2fmt_iff :
    (s : Bytes) (f : Format)
    → (cfg_stream_str2fmt s ≡ some f)
      ↔ ((t : Bytes) × (cfg_stream_fmt2str f ≡ some t) × (lower s ≡ lower t))
str2fmt_iff s f = (
  spelling s (cfg_stream_str2fmt s) f (str2fmt-Matched s),
  λ (t, named, spelt). str2fmt-lower s t spelt ∙ str2fmt-fmt2str f t named,
)
