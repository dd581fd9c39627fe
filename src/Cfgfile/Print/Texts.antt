-- ===== src/Cfgfile/Print/Texts.antt =====
-- src/cfgfile_xml.c: the settings of a stream that are printed are accepted one by one.
use mathlib.Core.Option.{none-ne-some}
use ezstream.Prelude.{ℕ, ◌≡◌, refl, sym, true, none, some, [], ◌∷◌}
use ezstream.CString.{Bytes, codes, str_case_eq}
use ezstream.Cfg.{set_xstrdup, set_boolean}
use ezstream.Cfg.Stream.{
  Format, Stream, cfg_stream_set_name, cfg_stream_str2fmt, cfg_stream_fmt2str,
  cfg_stream_set_mountpoint, cfg_stream_set_intake, cfg_stream_set_server, cfg_stream_set_public,
  cfg_stream_set_format, cfg_stream_set_encoder, cfg_stream_set_stream_name,
  cfg_stream_set_stream_url, cfg_stream_set_stream_genre, cfg_stream_set_stream_description,
  cfg_stream_set_stream_quality, cfg_stream_set_stream_bitrate, cfg_stream_set_stream_samplerate,
  cfg_stream_set_stream_channels, missing_format, unset_format, ogg, mp3, webm, matroska,
}
use ezstream.Cfgfile.{Libxml, each, on_element, set_fields}
use ezstream.Cfgfile.Settings.{stream_kind}
use ezstream.Cfgfile.Print.{or_null}
use ezstream.Cfgfile.Print.Read.{accepted_list, Reads, set_name_alone}

module _ (lib : Libxml) where
  pub Reads-name :
      (x : Stream) (c : ℕ) (s : Bytes)
      → Reads lib stream_kind ((codes "name", c ∷ s) ∷ []) x (record x { name = c ∷ s })
  unfolding each set_fields str_case_eq cfg_stream_set_name
  Reads-name x c s =
      accepted_list lib stream_kind (cfg_stream_set_name 0 (x ∷ []) (some (c ∷ s))) _
        (set_name_alone lib stream_kind x c s)

  pub Reads-format :
      (x : Stream) (c : ℕ) (s : Bytes) (f : Format)
      → cfg_stream_str2fmt (c ∷ s) ≡ some f
      → Reads lib stream_kind ((codes "format", c ∷ s) ∷ []) x (record x { format = f })
  unfolding each set_fields str_case_eq on_element cfg_stream_set_format
  Reads-format x c s f e = rw e refl

  pub format_read :
      (null_text : Bytes) (x : Stream) (f : Format)
      → missing_format f ≡ none
      → Reads lib stream_kind
          ((codes "format", or_null null_text (cfg_stream_fmt2str f)) ∷ [])
          x
          (record x { format = f })
  unfolding cfg_stream_fmt2str cfg_stream_str2fmt str_case_eq
  format_read null_text x unset_format h = absurd (none-ne-some _ (sym h))
  format_read null_text x ogg h = Reads-format x _ _ ogg refl
  format_read null_text x mp3 h = Reads-format x _ _ mp3 refl
  format_read null_text x webm h = Reads-format x _ _ webm refl
  format_read null_text x matroska h = Reads-format x _ _ matroska refl

  pub Reads-public :
      (x : Stream)
      → Reads lib stream_kind ((codes "public", codes "yes") ∷ []) x (record x { public = true })
  unfolding each set_fields str_case_eq on_element cfg_stream_set_public set_boolean
  Reads-public x = refl

  pub Reads-mountpoint :
      (x : Stream) (c : ℕ) (s : Bytes)
      → Reads lib stream_kind
          ((codes "mountpoint", c ∷ s) ∷ [])
          x
          (record x { mountpoint = some (c ∷ s) })
  unfolding each set_fields str_case_eq on_element cfg_stream_set_mountpoint set_xstrdup
  Reads-mountpoint x c s = refl

  pub Reads-intake :
      (x : Stream) (c : ℕ) (s : Bytes)
      → Reads lib stream_kind ((codes "intake", c ∷ s) ∷ []) x (record x { intake = some (c ∷ s) })
  unfolding each set_fields str_case_eq on_element cfg_stream_set_intake set_xstrdup
  Reads-intake x c s = refl

  pub Reads-server :
      (x : Stream) (c : ℕ) (s : Bytes)
      → Reads lib stream_kind ((codes "server", c ∷ s) ∷ []) x (record x { server = some (c ∷ s) })
  unfolding each set_fields str_case_eq on_element cfg_stream_set_server set_xstrdup
  Reads-server x c s = refl

  pub Reads-encoder :
      (x : Stream) (c : ℕ) (s : Bytes)
      → Reads lib stream_kind
          ((codes "encoder", c ∷ s) ∷ [])
          x
          (record x { encoder = some (c ∷ s) })
  unfolding each set_fields str_case_eq on_element cfg_stream_set_encoder set_xstrdup
  Reads-encoder x c s = refl

  pub Reads-stream_name :
      (x : Stream) (c : ℕ) (s : Bytes)
      → Reads lib stream_kind
          ((codes "stream_name", c ∷ s) ∷ [])
          x
          (record x { stream_name = some (c ∷ s) })
  unfolding each set_fields str_case_eq on_element cfg_stream_set_stream_name set_xstrdup
  Reads-stream_name x c s = refl

  pub Reads-stream_url :
      (x : Stream) (c : ℕ) (s : Bytes)
      → Reads lib stream_kind
          ((codes "stream_url", c ∷ s) ∷ [])
          x
          (record x { stream_url = some (c ∷ s) })
  unfolding each set_fields str_case_eq on_element cfg_stream_set_stream_url set_xstrdup
  Reads-stream_url x c s = refl

  pub Reads-stream_genre :
      (x : Stream) (c : ℕ) (s : Bytes)
      → Reads lib stream_kind
          ((codes "stream_genre", c ∷ s) ∷ [])
          x
          (record x { stream_genre = some (c ∷ s) })
  unfolding each set_fields str_case_eq on_element cfg_stream_set_stream_genre set_xstrdup
  Reads-stream_genre x c s = refl

  pub Reads-stream_description :
      (x : Stream) (c : ℕ) (s : Bytes)
      → Reads lib stream_kind
          ((codes "stream_description", c ∷ s) ∷ [])
          x
          (record x { stream_description = some (c ∷ s) })
  unfolding each set_fields str_case_eq on_element cfg_stream_set_stream_description set_xstrdup
  Reads-stream_description x c s = refl

  pub Reads-stream_quality :
      (x : Stream) (c : ℕ) (s : Bytes)
      → Reads lib stream_kind
          ((codes "stream_quality", c ∷ s) ∷ [])
          x
          (record x { stream_quality = some (c ∷ s) })
  unfolding each set_fields str_case_eq on_element cfg_stream_set_stream_quality set_xstrdup
  Reads-stream_quality x c s = refl

  pub Reads-stream_bitrate :
      (x : Stream) (c : ℕ) (s : Bytes)
      → Reads lib stream_kind
          ((codes "stream_bitrate", c ∷ s) ∷ [])
          x
          (record x { stream_bitrate = some (c ∷ s) })
  unfolding each set_fields str_case_eq on_element cfg_stream_set_stream_bitrate set_xstrdup
  Reads-stream_bitrate x c s = refl

  pub Reads-stream_samplerate :
      (x : Stream) (c : ℕ) (s : Bytes)
      → Reads lib stream_kind
          ((codes "stream_samplerate", c ∷ s) ∷ [])
          x
          (record x { stream_samplerate = some (c ∷ s) })
  unfolding each set_fields str_case_eq on_element cfg_stream_set_stream_samplerate set_xstrdup
  Reads-stream_samplerate x c s = refl

  pub Reads-stream_channels :
      (x : Stream) (c : ℕ) (s : Bytes)
      → Reads lib stream_kind
          ((codes "stream_channels", c ∷ s) ∷ [])
          x
          (record x { stream_channels = some (c ∷ s) })
  unfolding each set_fields str_case_eq on_element cfg_stream_set_stream_channels set_xstrdup
  Reads-stream_channels x c s = refl
