-- ===== src/Main/Command.antt =====
-- src/ezstream.c: `_build_reencode_cmd`, the command that decodes and encodes a file.
pub mod Quoted
pub mod Tests
use ezstream.Prelude.{
  ℕ, Bool, true, false, Option, none, some, List, [], ◌∷◌, ◌++◌, if◌then◌else◌, get_elem?, ◌>>=◌,
}
use ezstream.CString.{Bytes, codes, strstr}
use ezstream.Util.{Entry, util_expand_words, util_shellquote}
use ezstream.Mdata.{Mdata}
use ezstream.Mdata.Format.{mdata_strformat}
use ezstream.Stream.Transfer.{bufsiz, buffer}
use ezstream.Cfg.{
  if_set, placeholder_artist, placeholder_album, placeholder_title, placeholder_track,
  placeholder_metadata,
}
use ezstream.Cfg.Decoder.{Decoder, cfg_decoder_list_findext}
use ezstream.Cfg.Encoder.{Encoder, cfg_encoder_list_find}
use ezstream.Cfg.Global.{Metadata}
use ezstream.Main.{Setup}

-- NULL, or a crash where a NULL string is read, or the command.
pub data Command : Type 0 where
  no_command : Command
  null_string : Command
  command : Bytes → Command

-- `util_shellquote(util_utf82char(s), 0)`; NULL becomes the empty text.
abbrev pub quoted : (Bytes → Bytes) → Option Bytes → Bytes
quoted utf82char none = util_shellquote [] 0
quoted utf82char (some s) = util_shellquote (utf82char s) 0

-- `strstr(program, PLACEHOLDER_TITLE) != NULL`
abbrev pub wants_title : Bytes → Bool
wants_title program = elim (strstr program placeholder_title) [ none ↦ false | some s ↦ true ]

-- `""` where the program gets the title.
abbrev pub unless_title : Option Bytes → Bytes → Option Bytes
unless_title none songinfo = none
unless_title (some program) songinfo = some (if wants_title program then [] else songinfo)

-- `custom_songinfo` in front of the table, from the metadata program and the format string. Where
-- there is no metadata program, a decoder that gets the title gets no song info.
unfoldable pub custom_songinfo :
    (Bytes → Bytes) → Mdata → Option Bytes → Option Bytes → Option Bytes → Option Bytes
unfolding mdata_strformat strstr
custom_songinfo utf82char md none format decoder_program =
    unless_title decoder_program (quoted utf82char md.songinfo)
custom_songinfo utf82char md (some p) none decoder_program = some (quoted utf82char md.songinfo)
custom_songinfo utf82char md (some p) (some format) decoder_program =
    buffer (mdata_strformat md bufsiz (some format)) >>= λ buf. some (quoted utf82char (some buf))

-- An encoder that gets the title gets no song info either.
unfoldable pub for_encoder : Option Bytes → Option Bytes → Bytes → Option Bytes
unfolding strstr
for_encoder none encoder_program custom = unless_title encoder_program custom
for_encoder (some p) encoder_program custom = some custom

-- The table of placeholders.
unfoldable pub command_dicts : (Bytes → Bytes) → Mdata → Bytes → Bytes → List Entry
command_dicts utf82char md filename custom =
    record { from = placeholder_artist; to = quoted utf82char md.artist }
    ∷ record { from = placeholder_album; to = quoted utf82char md.album }
    ∷ record { from = placeholder_title; to = quoted utf82char md.title }
    ∷ record { from = placeholder_track; to = util_shellquote filename 0 }
    ∷ record { from = placeholder_metadata; to = custom }
    ∷ []

-- `cmd_str`, from the two expanded programs.
abbrev pub pipeline : Bytes → Bytes → Bytes
pipeline dec_str enc_str = dec_str ++ (codes " | " ++ enc_str)

abbrev pub or_crash : Option Bytes → Command
or_crash none = null_string
or_crash (some cmd_str) = command cmd_str

-- The end of `_build_reencode_cmd`, with the table.
unfoldable pub expand_command : List Entry → Option Bytes → Option Bytes → Option Bytes
unfolding util_expand_words
expand_command dicts decoder_program encoder_program = do
  program ← decoder_program
  dec_str ← util_expand_words program dicts
  elim encoder_program [
    | none ↦ some dec_str
    | some program ↦ util_expand_words program dicts >>= λ enc_str. some (pipeline dec_str enc_str)
  ]

-- The command of a decoder and an encoder.
unfoldable pub reencode :
    (Bytes → Bytes) → Metadata → Mdata → Bytes → Decoder → Encoder → Option Bytes
unfolding custom_songinfo for_encoder command_dicts expand_command
reencode utf82char cfg md filename decoder encoder = do
  custom ← custom_songinfo utf82char md (if_set cfg.program) cfg.format_str decoder.program
  custom' ← for_encoder (if_set cfg.program) encoder.program custom
  expand_command (command_dicts utf82char md filename custom') decoder.program encoder.program

-- The lookups in front.
abbrev pub found_both : Option Decoder → Option Encoder → (Decoder → Encoder → Command) → Command
found_both none encoder f = no_command
found_both (some decoder) none f = no_command
found_both (some decoder) (some encoder) f = f decoder encoder

abbrev pub at_index {ℓ} : {A : Type ℓ} → List A → Option ℕ → Option A
at_index xs i = i >>= get_elem? xs

-- `_build_reencode_cmd` for a stream that has an encoder.
unfoldable pub build_reencode_cmd :
    (Bytes → Bytes) → Setup → Bytes → Bytes → Bytes → Mdata → Command
unfolding reencode cfg_decoder_list_findext cfg_encoder_list_find
build_reencode_cmd utf82char setup extension filename encoder md =
    found_both (at_index setup.decoders (cfg_decoder_list_findext setup.decoders extension))
      (at_index setup.encoders (cfg_encoder_list_find setup.encoders encoder))
      (λ decoder encoder. or_crash (reencode utf82char setup.metadata md filename decoder encoder))
