-- ===== src/Main/Command/Tests.antt =====
-- `_build_reencode_cmd` on concrete inputs.
use ezstream.Prelude.{◌≡◌, refl, ◌≢◌, some, List, [], ◌∷◌, arith}
use ezstream.Util.{util_shellquote}
use ezstream.CString.{Bytes, codes, str_eq}
use ezstream.Util.Expand.Template.{entry_of, Piece, render, fill, byte, mark}
use ezstream.Cfg.Decoder.{Decoder, new_decoder}
use ezstream.Cfg.Encoder.{Encoder, new_encoder}
use ezstream.Mdata.{Mdata, mdata_create}
use ezstream.Main.Command.{pipeline, command_dicts, reencode}
use ezstream.Main.Command.Quoted.{AllSafe, IsTemplate, reencode-fill}
use ezstream.Cfg.Global.{Metadata}
use ezstream.Main.Tests.{metadata}

abbrev track : Bytes
track = codes "it's;rm -rf"

abbrev ps : List Piece
ps = byte b'd' ∷ byte b' ' ∷ mark b'T' ∷ []

abbrev qs : List Piece
qs = byte b'e' ∷ byte b' ' ∷ mark b'M' ∷ []

abbrev decoder : Decoder
decoder = record (new_decoder (codes "d")) { program = some (render ps) }

abbrev encoder : Encoder
encoder = record (new_encoder (codes "e")) { program = some (render qs) }

ps_nonempty : render ps ≢ []
unfolding render
ps_nonempty = ground arith

qs_nonempty : render qs ≢ []
unfolding render
qs_nonempty = ground arith

-- A metadata program and a format that asks for the name of the file.
abbrev asking : Metadata
asking = record metadata { program = codes "p"; format_str = some (codes "<@T@>") }

abbrev named : Mdata
named = record mdata_create { filename = some track }

format_filled : asking.format_str ≢ some []
format_filled = ground arith

ps-IsTemplate : (custom : Bytes) → IsTemplate (command_dicts (λ s. s) named track custom) ps
unfolding command_dicts entry_of str_eq
ps-IsTemplate custom = (omega arith, (omega arith, ((_, refl, tt), tt)))

qs-IsTemplate : (custom : Bytes) → IsTemplate (command_dicts (λ s. s) named track custom) qs
unfolding command_dicts entry_of str_eq
qs-IsTemplate custom = (omega arith, (omega arith, ((_, refl, tt), tt)))

reencode-fill_example :
    (custom : Bytes) × AllSafe (command_dicts (λ s. s) named track custom)
    × (reencode (λ s. s) asking named track decoder encoder
        ≡ some (
            pipeline
              (fill (command_dicts (λ s. s) named track custom) ps)
              (fill (command_dicts (λ s. s) named track custom) qs)))
reencode-fill_example =
    reencode-fill (λ s. s) asking named track decoder encoder ps qs refl refl ps_nonempty
      qs_nonempty format_filled (track, refl) ps-IsTemplate qs-IsTemplate

-- The decoder gets the name as one word, and the encoder the text of the format.
filled_command :
    reencode (λ s. s) asking named track decoder encoder
    ≡ some (codes "d 'it'\\''s;rm -rf' | e '<it'\\''s;rm -rf>'")
unfolding reencode render util_shellquote
filled_command = refl
