-- ===== src/Cfgfile/Print/Streams.antt =====
-- src/cfgfile_xml.c: a stream that is printed is read back.

use ezstream.Prelude.{◌≡◌, ◌≢◌, true, none, some, [], ◌∷◌}
use ezstream.CString.{Bytes, codes, str_case_eq}
use ezstream.Cfg.Stream.{
  Stream, new_stream, cfg_stream_fmt2str, missing_format, cfg_stream_validate,
  cfg_stream_get_format_str,
}
use ezstream.Cfgfile.{Libxml, cfg_default, parse_element}
use ezstream.Cfgfile.Settings.{stream_kind}
use ezstream.Cfgfile.Print.{or_null, stream_fields}
use ezstream.Cfgfile.Print.Read.{
  element_node, Reads, Reads-append, Reads-nothing, Reads-optional, Reads-yes, IsPrintable,
  read_back, Reads-name_field,
}
use ezstream.Cfgfile.Print.Texts.{
  Reads-name, format_read, Reads-public, Reads-mountpoint, Reads-intake, Reads-server,
  Reads-encoder, Reads-stream_name, Reads-stream_url, Reads-stream_genre, Reads-stream_description,
  Reads-stream_quality, Reads-stream_bitrate, Reads-stream_samplerate, Reads-stream_channels,
}

-- The texts of the stream that are set are not empty, as its setters make sure.
pub record IsFilled (s : Stream) : Type 0 where
  pub mountpoint : s.mountpoint ≢ some []
  pub intake : s.intake ≢ some []
  pub server : s.server ≢ some []
  pub encoder : s.encoder ≢ some []
  pub stream_name : s.stream_name ≢ some []
  pub stream_url : s.stream_url ≢ some []
  pub stream_genre : s.stream_genre ≢ some []
  pub stream_description : s.stream_description ≢ some []
  pub stream_quality : s.stream_quality ≢ some []
  pub stream_bitrate : s.stream_bitrate ≢ some []
  pub stream_samplerate : s.stream_samplerate ≢ some []
  pub stream_channels : s.stream_channels ≢ some []

module _ (lib : Libxml) (null_text : Bytes) where
  stream-Reads :
      (s : Stream)
      → missing_format s.format ≡ none
      → IsPrintable s.name
      → IsFilled s
      → Reads lib stream_kind (stream_fields null_text s) (new_stream cfg_default) s
  unfolding stream_fields cfg_stream_get_format_str
  stream-Reads s format name filled =
      let x0 = new_stream cfg_default in
      let x1 = record x0 { name = s.name } in
      let x2 = record x1 { mountpoint = s.mountpoint } in
      let x3 = record x2 { intake = s.intake } in
      let x4 = record x3 { server = s.server } in
      let x5 = record x4 { public = s.public } in
      let x6 = record x5 { format = s.format } in
      let x7 = record x6 { encoder = s.encoder } in
      let x8 = record x7 { stream_name = s.stream_name } in
      let x9 = record x8 { stream_url = s.stream_url } in
      let x10 = record x9 { stream_genre = s.stream_genre } in
      let x11 = record x10 { stream_description = s.stream_description } in
      let x12 = record x11 { stream_quality = s.stream_quality } in
      let x13 = record x12 { stream_bitrate = s.stream_bitrate } in
      let x14 = record x13 { stream_samplerate = s.stream_samplerate } in
      let x15 = record x14 { stream_channels = s.stream_channels } in
      Reads-append lib stream_kind _ _ x0 x1 s
        (Reads-name_field lib stream_kind s.name (λ n. record x0 { name = n }) name
          (Reads-name lib x0))
        (Reads-append lib stream_kind _ _ x1 x2 s
          (Reads-optional lib stream_kind (codes "mountpoint") s.mountpoint
            (λ o. record x1 { mountpoint = o }) (Reads-mountpoint lib x1) filled.mountpoint)
          (Reads-append lib stream_kind _ _ x2 x3 s
            (Reads-optional lib stream_kind (codes "intake") s.intake
              (λ o. record x2 { intake = o }) (Reads-intake lib x2) filled.intake)
            (Reads-append lib stream_kind _ _ x3 x4 s
              (Reads-optional lib stream_kind (codes "server") s.server
                (λ o. record x3 { server = o }) (Reads-server lib x3) filled.server)
              (Reads-append lib stream_kind _ _ x4 x5 s
                (Reads-yes lib stream_kind (codes "public") s.public (λ b. record x4 { public = b })
                  (Reads-public lib x4))
                (Reads-append lib stream_kind
                  ((codes "format", or_null null_text (cfg_stream_fmt2str s.format)) ∷ []) _ x5 x6 s
                  (format_read lib null_text x5 s.format format)
                  (Reads-append lib stream_kind _ _ x6 x7 s
                    (Reads-optional lib stream_kind (codes "encoder") s.encoder
                      (λ o. record x6 { encoder = o }) (Reads-encoder lib x6) filled.encoder)
                    (Reads-append lib stream_kind _ _ x7 x8 s
                      (Reads-optional lib stream_kind (codes "stream_name") s.stream_name
                        (λ o. record x7 { stream_name = o }) (Reads-stream_name lib x7)
                        filled.stream_name)
                      (Reads-append lib stream_kind _ _ x8 x9 s
                        (Reads-optional lib stream_kind (codes "stream_url") s.stream_url
                          (λ o. record x8 { stream_url = o }) (Reads-stream_url lib x8)
                          filled.stream_url)
                        (Reads-append lib stream_kind _ _ x9 x10 s
                          (Reads-optional lib stream_kind (codes "stream_genre") s.stream_genre
                            (λ o. record x9 { stream_genre = o }) (Reads-stream_genre lib x9)
                            filled.stream_genre)
                          (Reads-append lib stream_kind _ _ x10 x11 s
                            (Reads-optional lib stream_kind (codes "stream_description")
                              s.stream_description (λ o. record x10 { stream_description = o })
                              (Reads-stream_description lib x10) filled.stream_description)
                            (Reads-append lib stream_kind _ _ x11 x12 s
                              (Reads-optional lib stream_kind (codes "stream_quality")
                                s.stream_quality (λ o. record x11 { stream_quality = o })
                                (Reads-stream_quality lib x11) filled.stream_quality)
                              (Reads-append lib stream_kind _ _ x12 x13 s
                                (Reads-optional lib stream_kind (codes "stream_bitrate")
                                  s.stream_bitrate (λ o. record x12 { stream_bitrate = o })
                                  (Reads-stream_bitrate lib x12) filled.stream_bitrate)
                                (Reads-append lib stream_kind _ _ x13 x14 s
                                  (Reads-optional lib stream_kind (codes "stream_samplerate")
                                    s.stream_samplerate (λ o. record x13 { stream_samplerate = o })
                                    (Reads-stream_samplerate lib x13) filled.stream_samplerate)
                                  (Reads-append lib stream_kind _ [] x14 x15 s
                                    (Reads-optional lib stream_kind (codes "stream_channels")
                                      s.stream_channels (λ o. record x14 { stream_channels = o })
                                      (Reads-stream_channels lib x14) filled.stream_channels)
                                    (Reads-nothing lib stream_kind s)))))))))))))))

  -- A stream that passes its check, is printed and read again is the same. Its texts are not empty,
  -- and the name can be printed; names are compared by strcasecmp(3), and libxml2 makes a leaf of
  -- every line.
  pub stream_read :
      (s : Stream)
      → lib.same_name ≡ str_case_eq
      → cfg_stream_validate s ≡ none
      → IsPrintable s.name
      → IsFilled s
      → parse_element lib stream_kind (element_node (codes "stream") (stream_fields null_text s)) []
        ≡ (true, s ∷ [])
  unfolding cfg_stream_validate
  stream_read s names valid name filled =
      read_back lib stream_kind (codes "stream") (stream_fields null_text s) s names valid
        (stream-Reads s valid name filled)
