-- ===== src/Cfg/Stream/Errors.antt =====
-- What a failed setter of a stream leaves behind.
use mathlib.Core.Option.{none-ne-some}
use ezstream.Prelude.{
  ◌≡◌, refl, sym, ap, ◌∙◌, ◌⊎◌, inl, inr, Bool, true, false, Option, none, some, [], ◌∷◌,
  if◌then◌else◌,
}
use ezstream.CString.{Bytes}
use ezstream.Cfg.{
  Error, Outcome, unless_empty, set_xstrdup, set_boolean, store_choice, invalid_value, unsupported,
}
use ezstream.Cfg.Stream.{
  Stream, cfg_stream_str2fmt, cfg_stream_set_mountpoint, cfg_stream_set_intake,
  cfg_stream_set_server, cfg_stream_set_public, cfg_stream_set_format, cfg_stream_set_encoder,
  cfg_stream_set_stream_name, cfg_stream_set_stream_url, cfg_stream_set_stream_genre,
  cfg_stream_set_stream_description, cfg_stream_set_stream_quality, cfg_stream_set_stream_bitrate,
  cfg_stream_set_stream_samplerate, cfg_stream_set_stream_channels,
}

-- The setters of one stream.
pub data Setter : Type 0 where
  to_mountpoint : Setter
  to_intake : Setter
  to_server : Setter
  to_stream_name : Setter
  to_stream_url : Setter
  to_stream_genre : Setter
  to_stream_description : Setter
  to_stream_quality : Setter
  to_stream_bitrate : Setter
  to_stream_samplerate : Setter
  to_stream_channels : Setter
  to_public : Setter
  to_format : Setter
  to_encoder : Setter

unfoldable pub call : Setter → Stream → Option Bytes → Outcome Stream
unfolding cfg_stream_set_mountpoint cfg_stream_set_intake cfg_stream_set_server
    cfg_stream_set_stream_name cfg_stream_set_stream_url cfg_stream_set_stream_genre
    cfg_stream_set_stream_description cfg_stream_set_stream_quality cfg_stream_set_stream_bitrate
    cfg_stream_set_stream_samplerate cfg_stream_set_stream_channels cfg_stream_set_public
    cfg_stream_set_format cfg_stream_set_encoder
call to_mountpoint = cfg_stream_set_mountpoint
call to_intake = cfg_stream_set_intake
call to_server = cfg_stream_set_server
call to_stream_name = cfg_stream_set_stream_name
call to_stream_url = cfg_stream_set_stream_url
call to_stream_genre = cfg_stream_set_stream_genre
call to_stream_description = cfg_stream_set_stream_description
call to_stream_quality = cfg_stream_set_stream_quality
call to_stream_bitrate = cfg_stream_set_stream_bitrate
call to_stream_samplerate = cfg_stream_set_stream_samplerate
call to_stream_channels = cfg_stream_set_stream_channels
call to_public = cfg_stream_set_public
call to_format = cfg_stream_set_format
call to_encoder = cfg_stream_set_encoder

-- The state afterwards is the old one, or there is no error.
abbrev Atomic {ℓ} : {A : Type ℓ} → A → Outcome A → Type ℓ
Atomic t r = (r.1 ≡ t) ⊎ (r.0 ≡ none)

Atomic-unless_empty {ℓ} :
    {A : Type ℓ} (t : A) (s : Option Bytes) (f : Bytes → Outcome A)
    → ((str : Bytes) → Atomic t (f str))
    → Atomic t (unless_empty t s f)
Atomic-unless_empty t none f h = inl refl
Atomic-unless_empty t (some []) f h = inl refl
Atomic-unless_empty t (some (c ∷ s)) f h = h (c ∷ s)

Atomic-field {ℓ} :
    {A : Type ℓ} (s : Stream) (get : Stream → A) (put : A → Stream) (r : Outcome A)
    → put (get s) ≡ s
    → Atomic (get s) r
    → Atomic s (r.0, put r.1)
Atomic-field s get put r same (inl e) = inl (ap put e ∙ same)
Atomic-field s get put r same (inr e) = inr e

Atomic-set_xstrdup : (t s : Option Bytes) → Atomic t (set_xstrdup t s)
unfolding set_xstrdup
Atomic-set_xstrdup t s = Atomic-unless_empty t s _ (λ str. inr refl)

two_choices :
    (a b t : Bool)
    → Atomic t (if a then (none, true) else if b then (none, false) else (some invalid_value, t))
two_choices true b t = inr refl
two_choices false true t = inr refl
two_choices false false t = inl refl

Atomic-set_boolean : (t : Bool) (s : Option Bytes) → Atomic t (set_boolean t s)
unfolding set_boolean
Atomic-set_boolean t s = Atomic-unless_empty t s _ (λ str. two_choices _ _ t)

Atomic-store_choice {ℓ κ} :
    {A : Type ℓ} {B : Type κ} (t : A) (e : Error) (put : B → A) (o : Option B)
    → Atomic t (store_choice t e put o)
Atomic-store_choice t e put none = inl refl
Atomic-store_choice t e put (some b) = inr refl

call-Atomic : (setter : Setter) (s : Stream) (arg : Option Bytes) → Atomic s (call setter s arg)
unfolding call
call-Atomic to_mountpoint s arg =
    Atomic-field s (λ s. s.mountpoint) (λ t. record s { mountpoint = t })
      (set_xstrdup s.mountpoint arg) refl (Atomic-set_xstrdup s.mountpoint arg)
call-Atomic to_intake s arg =
    Atomic-field s (λ s. s.intake) (λ t. record s { intake = t }) (set_xstrdup s.intake arg) refl
      (Atomic-set_xstrdup s.intake arg)
call-Atomic to_server s arg =
    Atomic-field s (λ s. s.server) (λ t. record s { server = t }) (set_xstrdup s.server arg) refl
      (Atomic-set_xstrdup s.server arg)
call-Atomic to_stream_name s arg =
    Atomic-field s (λ s. s.stream_name) (λ t. record s { stream_name = t })
      (set_xstrdup s.stream_name arg) refl (Atomic-set_xstrdup s.stream_name arg)
call-Atomic to_stream_url s arg =
    Atomic-field s (λ s. s.stream_url) (λ t. record s { stream_url = t })
      (set_xstrdup s.stream_url arg) refl (Atomic-set_xstrdup s.stream_url arg)
call-Atomic to_stream_genre s arg =
    Atomic-field s (λ s. s.stream_genre) (λ t. record s { stream_genre = t })
      (set_xstrdup s.stream_genre arg) refl (Atomic-set_xstrdup s.stream_genre arg)
call-Atomic to_stream_description s arg =
    Atomic-field s (λ s. s.stream_description) (λ t. record s { stream_description = t })
      (set_xstrdup s.stream_description arg) refl (Atomic-set_xstrdup s.stream_description arg)
call-Atomic to_stream_quality s arg =
    Atomic-field s (λ s. s.stream_quality) (λ t. record s { stream_quality = t })
      (set_xstrdup s.stream_quality arg) refl (Atomic-set_xstrdup s.stream_quality arg)
call-Atomic to_stream_bitrate s arg =
    Atomic-field s (λ s. s.stream_bitrate) (λ t. record s { stream_bitrate = t })
      (set_xstrdup s.stream_bitrate arg) refl (Atomic-set_xstrdup s.stream_bitrate arg)
call-Atomic to_stream_samplerate s arg =
    Atomic-field s (λ s. s.stream_samplerate) (λ t. record s { stream_samplerate = t })
      (set_xstrdup s.stream_samplerate arg) refl (Atomic-set_xstrdup s.stream_samplerate arg)
call-Atomic to_stream_channels s arg =
    Atomic-field s (λ s. s.stream_channels) (λ t. record s { stream_channels = t })
      (set_xstrdup s.stream_channels arg) refl (Atomic-set_xstrdup s.stream_channels arg)
call-Atomic to_public s arg =
    Atomic-field s (λ s. s.public) (λ t. record s { public = t }) (set_boolean s.public arg) refl
      (Atomic-set_boolean s.public arg)
call-Atomic to_format s arg = Atomic-unless_empty s arg _ (λ str.
    Atomic-store_choice s unsupported (λ fmt. record s { format = fmt }) (cfg_stream_str2fmt str))
call-Atomic to_encoder s none = inr refl
call-Atomic to_encoder s (some arg) =
    Atomic-field s (λ s. s.encoder) (λ t. record s { encoder = t })
      (set_xstrdup s.encoder (some arg)) refl (Atomic-set_xstrdup s.encoder (some arg))

-- A setter of a stream that fails leaves the stream as it was.
pub stream_call_error :
    (setter : Setter) (s : Stream) (arg : Option Bytes) (e : Error)
    → (call setter s arg).0 ≡ some e
    → (call setter s arg).1 ≡ s
stream_call_error setter s arg e h = elim (call-Atomic setter s arg) [
  | inl same ↦ same
  | inr ok ↦ absurd (none-ne-some e (sym ok ∙ h))
]
