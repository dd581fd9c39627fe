-- ===== src/Cfgfile/Careful.antt =====
-- src/cfgfile_xml.c: the setters that the parser calls only change the element that they are for,
-- and only the setter of the name changes the name.
pub mod Decoders
use ezstream.Prelude.{◌≡◌, refl, Option, none, some, [], ◌∷◌, set, ℤ}
use ezstream.CString.{Bytes}
use ezstream.CString.Numbers.{NumError}
use ezstream.Cfg.{Error, Outcome, unless_empty, store_choice, store_number}
use ezstream.Cfg.Server.{
  Server, named_server, cfg_server_set_name, find_protocol, cfg_server_set_protocol,
  cfg_server_set_hostname, cfg_server_set_port, cfg_server_set_user, cfg_server_set_password,
  find_tls, cfg_server_set_tls, cfg_server_set_tls_cipher_suite, cfg_server_set_ca_dir,
  cfg_server_set_ca_file, cfg_server_set_client_cert, cfg_server_set_reconnect_attempts,
}
use ezstream.Cfg.Stream.{
  Stream, named_stream, cfg_stream_set_name, cfg_stream_str2fmt, cfg_stream_set_mountpoint,
  cfg_stream_set_intake, cfg_stream_set_server, cfg_stream_set_public, cfg_stream_set_format,
  cfg_stream_set_encoder, cfg_stream_set_stream_name, cfg_stream_set_stream_url,
  cfg_stream_set_stream_genre, cfg_stream_set_stream_description, cfg_stream_set_stream_quality,
  cfg_stream_set_stream_bitrate, cfg_stream_set_stream_samplerate, cfg_stream_set_stream_channels,
}
use ezstream.Cfg.Intake.{
  Intake, named_intake, find_type, cfg_intake_set_name, cfg_intake_set_type,
  cfg_intake_set_filename, cfg_intake_set_shuffle, cfg_intake_set_stream_once,
}
use ezstream.Cfg.Encoder.{
  Encoder, named_encoder, cfg_encoder_set_name, cfg_encoder_set_format_str, cfg_encoder_set_program,
}
use ezstream.Cfgfile.{Libxml, on_element}
use ezstream.Cfgfile.Settings.{server_kind, stream_kind, intake_kind, encoder_kind}
use ezstream.Cfgfile.Valid.{IsCareful, on_element-IsCareful, set_name-IsCareful}
use ezstream.Cfgfile.Valid.Walk.{AllCareful}

module _ {ℓ} {A : Type ℓ} (name : A → Bytes) where
  pub unless_empty_name :
      (t : A) (s : Option Bytes) (f : Bytes → Outcome A)
      → ((b : Bytes) → name (f b).1 ≡ name t)
      → name (unless_empty t s f).1 ≡ name t
  unless_empty_name t none f h = refl
  unless_empty_name t (some []) f h = refl
  unless_empty_name t (some (c ∷ s)) f h = h (c ∷ s)

  store_choice_name :
      {B : Type 0} (t : A) (e : Error) (put : B → A) (o : Option B)
      → ((b : B) → name (put b) ≡ name t)
      → name (store_choice t e put o).1 ≡ name t
  store_choice_name t e put none h = refl
  store_choice_name t e put (some b) h = h b

  store_number_name :
      (t : A) (cast : ℤ → A) (r : Option NumError × ℤ)
      → ((n : ℤ) → name (cast n) ≡ name t)
      → name (store_number t cast r).1 ≡ name t
  store_number_name t cast (none, n) h = h n
  store_number_name t cast (some e, n) h = refl

module _ (P : Server → Type 0) where
  by_server :
      (set : Server → Option Bytes → Outcome Server)
      → ((s : Server) (value : Option Bytes) → (set s value).1.name ≡ s.name)
      → IsCareful named_server P (on_element set)
  by_server set keeps = on_element-IsCareful named_server P set keeps

  protocol_name : (s : Server) (v : Option Bytes) → (cfg_server_set_protocol s v).1.name ≡ s.name
  unfolding cfg_server_set_protocol
  protocol_name s v =
      unless_empty_name (λ s. s.name) s v _
        (λ str. store_choice_name (λ s. s.name) s _ _ (find_protocol str) (λ p. refl))

  port_name : (s : Server) (v : Option Bytes) → (cfg_server_set_port s v).1.name ≡ s.name
  unfolding cfg_server_set_port
  port_name s v =
      unless_empty_name (λ s. s.name) s v _
        (λ str. store_number_name (λ s. s.name) s _ _ (λ n. refl))

  tls_name : (s : Server) (v : Option Bytes) → (cfg_server_set_tls s v).1.name ≡ s.name
  unfolding cfg_server_set_tls
  tls_name s v =
      unless_empty_name (λ s. s.name) s v _
        (λ str. store_choice_name (λ s. s.name) s _ _ (find_tls str) (λ t. refl))

  server_name-IsCareful : IsCareful named_server P cfg_server_set_name
  unfolding cfg_server_set_name
  server_name-IsCareful = set_name-IsCareful named_server P

  pub server_kind-AllCareful : (lib : Libxml) → AllCareful lib server_kind P server_kind.setters
  unfolding cfg_server_set_hostname cfg_server_set_user cfg_server_set_password
      cfg_server_set_reconnect_attempts cfg_server_set_tls_cipher_suite cfg_server_set_ca_dir
      cfg_server_set_ca_file cfg_server_set_client_cert
  server_kind-AllCareful lib = (
    server_name-IsCareful,
    (
      by_server _ protocol_name,
      (
        by_server _ (λ s v. refl),
        (
          by_server _ port_name,
          (
            by_server _ (λ s v. refl),
            (
              by_server _ (λ s v. refl),
              (
                by_server _ (λ s v. refl),
                (
                  by_server _ tls_name,
                  (
                    by_server _ (λ s v. refl),
                    (
                      by_server _ (λ s v. refl),
                      (by_server _ (λ s v. refl), (by_server _ (λ s v. refl), tt)),
                    ),
                  ),
                ),
              ),
            ),
          ),
        ),
      ),
    ),
  )

module _ (P : Stream → Type 0) where
  by_stream :
      (set : Stream → Option Bytes → Outcome Stream)
      → ((s : Stream) (value : Option Bytes) → (set s value).1.name ≡ s.name)
      → IsCareful named_stream P (on_element set)
  by_stream set keeps = on_element-IsCareful named_stream P set keeps

  format_name : (s : Stream) (v : Option Bytes) → (cfg_stream_set_format s v).1.name ≡ s.name
  unfolding cfg_stream_set_format
  format_name s v =
      unless_empty_name (λ s. s.name) s v _
        (λ str. store_choice_name (λ s. s.name) s _ _ (cfg_stream_str2fmt str) (λ f. refl))

  encoder_name : (s : Stream) (v : Option Bytes) → (cfg_stream_set_encoder s v).1.name ≡ s.name
  unfolding cfg_stream_set_encoder
  encoder_name s none = refl
  encoder_name s (some v) = refl

  stream_name-IsCareful : IsCareful named_stream P cfg_stream_set_name
  unfolding cfg_stream_set_name
  stream_name-IsCareful = set_name-IsCareful named_stream P

  pub stream_kind-AllCareful : (lib : Libxml) → AllCareful lib stream_kind P stream_kind.setters
  unfolding cfg_stream_set_mountpoint cfg_stream_set_intake cfg_stream_set_server
      cfg_stream_set_public cfg_stream_set_stream_name cfg_stream_set_stream_url
      cfg_stream_set_stream_genre cfg_stream_set_stream_description cfg_stream_set_stream_quality
      cfg_stream_set_stream_bitrate cfg_stream_set_stream_samplerate cfg_stream_set_stream_channels
  stream_kind-AllCareful lib = (
    stream_name-IsCareful,
    (
      by_stream _ (λ s v. refl),
      (
        by_stream _ (λ s v. refl),
        (
          by_stream _ (λ s v. refl),
          (
            by_stream _ (λ s v. refl),
            (
              by_stream _ format_name,
              (
                by_stream _ encoder_name,
                (
                  by_stream _ (λ s v. refl),
                  (
                    by_stream _ (λ s v. refl),
                    (
                      by_stream _ (λ s v. refl),
                      (
                        by_stream _ (λ s v. refl),
                        (
                          by_stream _ (λ s v. refl),
                          (
                            by_stream _ (λ s v. refl),
                            (by_stream _ (λ s v. refl), (by_stream _ (λ s v. refl), tt)),
                          ),
                        ),
                      ),
                    ),
                  ),
                ),
              ),
            ),
          ),
        ),
      ),
    ),
  )

module _ (P : Intake → Type 0) where
  by_intake :
      (set : Intake → Option Bytes → Outcome Intake)
      → ((s : Intake) (value : Option Bytes) → (set s value).1.name ≡ s.name)
      → IsCareful named_intake P (on_element set)
  by_intake set keeps = on_element-IsCareful named_intake P set keeps

  type_name : (s : Intake) (v : Option Bytes) → (cfg_intake_set_type s v).1.name ≡ s.name
  unfolding cfg_intake_set_type
  type_name s v =
      unless_empty_name (λ s. s.name) s v _
        (λ str. store_choice_name (λ s. s.name) s _ _ (find_type str) (λ t. refl))

  intake_name-IsCareful : IsCareful named_intake P cfg_intake_set_name
  unfolding cfg_intake_set_name
  intake_name-IsCareful = set_name-IsCareful named_intake P

  pub intake_kind-AllCareful : (lib : Libxml) → AllCareful lib intake_kind P intake_kind.setters
  unfolding cfg_intake_set_filename cfg_intake_set_shuffle cfg_intake_set_stream_once
  intake_kind-AllCareful lib = (
    intake_name-IsCareful,
    (
      by_intake _ type_name,
      (by_intake _ (λ s v. refl), (by_intake _ (λ s v. refl), (by_intake _ (λ s v. refl), tt))),
    ),
  )

module _ (P : Encoder → Type 0) where
  by_encoder :
      (set : Encoder → Option Bytes → Outcome Encoder)
      → ((s : Encoder) (value : Option Bytes) → (set s value).1.name ≡ s.name)
      → IsCareful named_encoder P (on_element set)
  by_encoder set keeps = on_element-IsCareful named_encoder P set keeps

  encoder_format_name :
      (s : Encoder) (v : Option Bytes) → (cfg_encoder_set_format_str s v).1.name ≡ s.name
  unfolding cfg_encoder_set_format_str
  encoder_format_name s v =
      unless_empty_name (λ s. s.name) s v _
        (λ str. store_choice_name (λ s. s.name) s _ _ (cfg_stream_str2fmt str) (λ f. refl))

  encoder_program_name :
      (s : Encoder) (v : Option Bytes) → (cfg_encoder_set_program s v).1.name ≡ s.name
  unfolding cfg_encoder_set_program
  encoder_program_name s v = unless_empty_name (λ s. s.name) s v _ (λ str. refl)

  encoder_name-IsCareful : IsCareful named_encoder P cfg_encoder_set_name
  unfolding cfg_encoder_set_name
  encoder_name-IsCareful = set_name-IsCareful named_encoder P

  pub encoder_kind-AllCareful : (lib : Libxml) → AllCareful lib encoder_kind P encoder_kind.setters
  encoder_kind-AllCareful lib = (
    encoder_name-IsCareful,
    (by_encoder _ encoder_format_name, (by_encoder _ encoder_program_name, tt)),
  )
