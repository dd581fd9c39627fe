-- ===== src/Stream/Settings.antt =====
-- src/stream.c: what a stream that is configured has set on the handle of libshout.
use mathlib.Core.Bool.{true≢false}
use ezstream.Prelude.{
  ◌%◌, ◌^◌, ◌≡◌, refl, sym, ap, ◌∙◌, Bool, true, false, ◌&&◌, Option, none, some, List, [], ◌∷◌,
  ◌++◌, append-nil, append_assoc, if◌then◌else◌,
}
use ezstream.CString.{Bytes}
use ezstream.Cfg.{if_set}
use ezstream.Cfg.Server.{
  Server, cfg_server_get_hostname, cfg_server_get_password, cfg_server_get_port,
  cfg_server_get_user, cfg_server_get_tls,
}
use ezstream.Cfg.Stream.{Format, unset_format, ogg, mp3, webm, matroska, Stream}
use ezstream.Stream.{
  Setting, Step, continue, ◌andthen◌, done, need, if_given, protocol_of, tls_req, bit, attempt,
  stream_cfg_server, stream_cfg_tls, set_format, stream_cfg_stream, format_ogg, format_mp3,
  format_webm, format_matroska, meta_name, meta_url, meta_genre, meta_description, quality, bitrate,
  samplerate, channels, set_protocol, set_host, set_port, set_user, set_password, set_tls,
  set_ca_directory, set_ca_file, set_client_certificate, set_allowed_ciphers, set_mount,
  set_content_format, set_public, set_meta, set_audio_info,
}

-- A setting for what is given.
abbrev pub given : Option Bytes → (Bytes → Setting) → List Setting
given none f = []
given (some v) f = f v ∷ []

abbrev pub format_settings : Format → List Setting
format_settings ogg = set_content_format format_ogg ∷ []
format_settings mp3 = set_content_format format_mp3 ∷ []
format_settings webm = set_content_format format_webm ∷ []
format_settings matroska = set_content_format format_matroska ∷ []
format_settings unset_format = []

-- The settings that a server and a stream of the configuration stand for.
abbrev pub server_settings : Server → List Setting
server_settings s =
    set_protocol (protocol_of s.protocol)
    ∷ set_host (cfg_server_get_hostname s)
    ∷ set_port (cfg_server_get_port s % 2 ^ 16)
    ∷ set_user (cfg_server_get_user s)
    ∷ set_password (cfg_server_get_password s)
    ∷ []

abbrev pub tls_settings : Server → List Setting
tls_settings s =
    set_tls (tls_req s.protocol (cfg_server_get_tls s))
    ∷ (given (if_set s.ca_dir) set_ca_directory
        ++ (given (if_set s.ca_file) set_ca_file
            ++ (given (if_set s.client_cert) set_client_certificate
                ++ given (if_set s.tls_cipher_suite) set_allowed_ciphers)))

abbrev pub audio_settings : Stream → List Setting
audio_settings s =
    given s.stream_quality (set_audio_info quality)
    ++ (given s.stream_bitrate (set_audio_info bitrate)
        ++ (given s.stream_samplerate (set_audio_info samplerate)
            ++ given s.stream_channels (set_audio_info channels)))

abbrev pub meta_settings : Stream → List Setting
meta_settings s =
    given s.stream_name (set_meta meta_name)
    ++ (given s.stream_url (set_meta meta_url)
        ++ (given s.stream_genre (set_meta meta_genre)
            ++ (given s.stream_description (set_meta meta_description) ++ audio_settings s)))

abbrev pub stream_settings : Stream → List Setting
stream_settings s =
    set_mount s.mountpoint
    ∷ (format_settings s.format ++ set_public (bit s.public) ∷ meta_settings s)

-- Where the step goes on, it has added the settings.
abbrev pub Adds : Step → List Setting → Type 0
Adds a l = (h h' : List Setting) → a h ≡ (true, h') → h' ≡ h ++ l

continue_goes_on :
    (r : Bool × List Setting) (b : Step) (h' : List Setting)
    → continue r b ≡ (true, h')
    → (h : List Setting) × (r ≡ (true, h)) × (b h ≡ (true, h'))
continue_goes_on (false, h) b h' e = absurd (true≢false (sym (ap (λ r. r.0) e)))
continue_goes_on (true, h) b h' e = (h, refl, e)

andthen-Adds : (a b : Step) (l m : List Setting) → Adds a l → Adds b m → Adds (a andthen b) (l ++ m)
andthen-Adds a b l m f g h h' e =
    let (k, first, second) = continue_goes_on (a h) b h' e in
    g k h' second ∙ ap (λ k. k ++ m) (f h k first) ∙ append_assoc h l m

done-Adds : Adds done []
done-Adds h h' e = sym (ap (λ r. r.1) e) ∙ sym (append-nil h)

need-Adds : (b : Bool) → Adds (need b) []
need-Adds b h h' e = sym (ap (λ r. r.1) e) ∙ sym (append-nil h)

given-Adds :
    (o : Option Bytes) (f : Bytes → Setting) (a : Bytes → Step)
    → ((v : Bytes) → Adds (a v) (f v ∷ []))
    → Adds (if_given o a) (given o f)
given-Adds none f a adds = done-Adds
given-Adds (some v) f a adds = adds v

chosen-Adds :
    (b : Bool) (x : Setting) → Adds (λ h. if b then (true, h ++ x ∷ []) else (false, h)) (x ∷ [])
chosen-Adds true x h h' e = sym (ap (λ r. r.1) e)
chosen-Adds false x h h' e = absurd (true≢false (sym (ap (λ r. r.0) e)))

module _ (accepts : List Setting → Setting → Bool) (can_read : Bytes → Bool)
    (can_enter : Bytes → Bool) where
  attempt-Adds : (x : Setting) → Adds (attempt accepts can_read can_enter x) (x ∷ [])
  unfolding attempt
  attempt-Adds x h h' e = chosen-Adds (accepts h x) x h h' e

  pub stream_cfg_server-Adds :
      (s : Server) → Adds (stream_cfg_server accepts can_read can_enter s) (server_settings s)
  unfolding stream_cfg_server
  stream_cfg_server-Adds s = andthen-Adds _ _ _ _ (attempt-Adds _) (
      andthen-Adds _ _ _ _ (attempt-Adds _) (
        andthen-Adds _ _ _ _ (attempt-Adds _)
          (andthen-Adds _ _ _ _ (attempt-Adds _) (attempt-Adds _))))

  file-Adds :
      (o : Option Bytes) (f : Bytes → Setting) (ok : Bytes → Bool)
      → Adds
          (if_given o (λ v. need (ok v) andthen attempt accepts can_read can_enter (f v)))
          (given o f)
  file-Adds o f ok =
      given-Adds o f _ (λ v. andthen-Adds _ _ _ _ (need-Adds (ok v)) (attempt-Adds (f v)))

  text-Adds :
      (o : Option Bytes) (f : Bytes → Setting)
      → Adds (if_given o (λ v. attempt accepts can_read can_enter (f v))) (given o f)
  text-Adds o f = given-Adds o f _ (λ v. attempt-Adds (f v))

  pub stream_cfg_tls-Adds :
      (s : Server) → Adds (stream_cfg_tls accepts can_read can_enter s) (tls_settings s)
  unfolding stream_cfg_tls
  stream_cfg_tls-Adds s = andthen-Adds _ _ _ _ (attempt-Adds _) (
      andthen-Adds _ _ _ _
        (file-Adds (if_set s.ca_dir) set_ca_directory (λ v. can_read v && can_enter v))
        (andthen-Adds _ _ _ _ (file-Adds (if_set s.ca_file) set_ca_file can_read) (
          andthen-Adds _ _ _ _ (file-Adds (if_set s.client_cert) set_client_certificate can_read)
            (text-Adds (if_set s.tls_cipher_suite) set_allowed_ciphers))))

  set_format-Adds :
      (f : Format) → Adds (set_format accepts can_read can_enter f) (format_settings f)
  set_format-Adds ogg = attempt-Adds _
  set_format-Adds mp3 = attempt-Adds _
  set_format-Adds webm = attempt-Adds _
  set_format-Adds matroska = attempt-Adds _
  set_format-Adds unset_format = λ h h' e. absurd (true≢false (sym (ap (λ r. r.0) e)))

  audio-Adds :
      (s : Stream)
      → Adds
          (if_given s.stream_quality
              (λ v. attempt accepts can_read can_enter (set_audio_info quality v))
            andthen if_given s.stream_bitrate
                (λ v. attempt accepts can_read can_enter (set_audio_info bitrate v))
            andthen if_given s.stream_samplerate
                (λ v. attempt accepts can_read can_enter (set_audio_info samplerate v))
            andthen if_given s.stream_channels
                (λ v. attempt accepts can_read can_enter (set_audio_info channels v)))
          (audio_settings s)
  audio-Adds s = andthen-Adds _ _ _ _ (text-Adds s.stream_quality (set_audio_info quality)) (
      andthen-Adds _ _ _ _ (text-Adds s.stream_bitrate (set_audio_info bitrate)) (
        andthen-Adds _ _ _ _ (text-Adds s.stream_samplerate (set_audio_info samplerate))
          (text-Adds s.stream_channels (set_audio_info channels))))

  pub stream_cfg_stream-Adds :
      (s : Stream) → Adds (stream_cfg_stream accepts can_read can_enter s) (stream_settings s)
  unfolding stream_cfg_stream
  stream_cfg_stream-Adds s = andthen-Adds _ _ _ _ (attempt-Adds _) (
      andthen-Adds _ _ _ _ (set_format-Adds s.format) (
        andthen-Adds _ _ _ _ (attempt-Adds _) (
          andthen-Adds _ _ _ _ (text-Adds s.stream_name (set_meta meta_name)) (
            andthen-Adds _ _ _ _ (text-Adds s.stream_url (set_meta meta_url)) (
              andthen-Adds _ _ _ _ (text-Adds s.stream_genre (set_meta meta_genre)) (
                andthen-Adds _ _ _ _ (text-Adds s.stream_description (set_meta meta_description))
                  (audio-Adds s)))))))

  -- The three steps together.
  pub steps-Adds :
      (server : Server) (stream : Stream)
      → Adds
          (stream_cfg_server accepts can_read can_enter server
            andthen stream_cfg_tls accepts can_read can_enter server
            andthen stream_cfg_stream accepts can_read can_enter stream)
          (server_settings server ++ (tls_settings server ++ stream_settings stream))
  steps-Adds server stream =
      andthen-Adds _ _ (server_settings server) _ (stream_cfg_server-Adds server) (
        andthen-Adds _ _ (tls_settings server) _ (stream_cfg_tls-Adds server)
          (stream_cfg_stream-Adds stream))
