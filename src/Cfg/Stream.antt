-- ===== src/Cfg/Stream.antt =====
-- src/cfg_stream.c: the streams of the configuration, and the stream formats. A string that was
-- never set is NULL.
pub mod Formats
pub mod Errors
use mathlib.Core.Option
use ezstream.Prelude.{ℕ, ◌-◌, refl, Bool, false, Option, none, some, List, if◌then◌else◌, length}
use ezstream.CString.{Bytes, codes, str_case_eq}
use ezstream.Cfg.{
  Error, Outcome, unless_empty, set_xstrdup, set_boolean, store_choice, unsupported, format_missing,
}
use ezstream.Cfg.Names.{Named, list_find, create, list_get, set_name}

-- `enum cfg_stream_format`
pub data Format : Type 0 where
  unset_format : Format
  ogg : Format
  mp3 : Format
  webm : Format
  matroska : Format

-- `struct cfg_stream`
pub record Stream : Type 0 where
  pub name : Bytes
  pub mountpoint : Option Bytes
  pub intake : Option Bytes
  pub server : Option Bytes
  pub public : Bool
  pub format : Format
  pub encoder : Option Bytes
  pub stream_name : Option Bytes
  pub stream_url : Option Bytes
  pub stream_genre : Option Bytes
  pub stream_description : Option Bytes
  pub stream_quality : Option Bytes
  pub stream_bitrate : Option Bytes
  pub stream_samplerate : Option Bytes
  pub stream_channels : Option Bytes

-- `cfg_stream_create` for a name that is not empty: everything else is zero.
abbrev pub new_stream : Bytes → Stream
new_stream name = record {
  name = name;
  mountpoint = none;
  intake = none;
  server = none;
  public = false;
  format = unset_format;
  encoder = none;
  stream_name = none;
  stream_url = none;
  stream_genre = none;
  stream_description = none;
  stream_quality = none;
  stream_bitrate = none;
  stream_samplerate = none;
  stream_channels = none;
}

abbrev pub named_stream : Named Stream
named_stream = record {
  fresh = new_stream;
  name_of = λ s. s.name;
  rename = λ name s. record s { name = name };
  name_of-fresh = λ name. refl;
  name_of-rename = λ name s. refl;
}

unfoldable pub cfg_stream_create : Bytes → Option Stream
unfolding create
cfg_stream_create = create named_stream

abbrev pub cfg_stream_list_nentries : List Stream → ℕ
cfg_stream_list_nentries = length

unfoldable pub cfg_stream_list_find : List Stream → Bytes → Option ℕ
unfolding list_find
cfg_stream_list_find = list_find named_stream

unfoldable pub cfg_stream_list_get : List Stream → Bytes → List Stream × Option ℕ
unfolding list_get
cfg_stream_list_get = list_get named_stream

unfoldable pub cfg_stream_set_name : ℕ → List Stream → Option Bytes → Outcome (List Stream)
unfolding set_name
cfg_stream_set_name = set_name named_stream

-- `none` for -1.
unfoldable pub cfg_stream_str2fmt : Bytes → Option Format
unfolding str_case_eq
cfg_stream_str2fmt str =
    if str_case_eq str (codes "Ogg")
    then some ogg
    else if str_case_eq str (codes "MP3")
    then some mp3
    else if str_case_eq str (codes "WebM")
    then some webm
    else if str_case_eq str (codes "Matroska")
    then some matroska
    else none

unfoldable pub cfg_stream_fmt2str : Format → Option Bytes
cfg_stream_fmt2str ogg = some (codes "Ogg")
cfg_stream_fmt2str mp3 = some (codes "MP3")
cfg_stream_fmt2str webm = some (codes "WebM")
cfg_stream_fmt2str matroska = some (codes "Matroska")
cfg_stream_fmt2str unset_format = none

unfoldable pub cfg_stream_set_mountpoint : Stream → Option Bytes → Outcome Stream
unfolding set_xstrdup
cfg_stream_set_mountpoint s mountpoint =
    let (e, t) = set_xstrdup s.mountpoint mountpoint in (e, record s { mountpoint = t })

unfoldable pub cfg_stream_set_intake : Stream → Option Bytes → Outcome Stream
unfolding set_xstrdup
cfg_stream_set_intake s intake =
    let (e, t) = set_xstrdup s.intake intake in (e, record s { intake = t })

unfoldable pub cfg_stream_set_server : Stream → Option Bytes → Outcome Stream
unfolding set_xstrdup
cfg_stream_set_server s server =
    let (e, t) = set_xstrdup s.server server in (e, record s { server = t })

unfoldable pub cfg_stream_set_public : Stream → Option Bytes → Outcome Stream
unfolding set_boolean
cfg_stream_set_public s public =
    let (e, t) = set_boolean s.public public in (e, record s { public = t })

unfoldable pub cfg_stream_set_format : Stream → Option Bytes → Outcome Stream
unfolding cfg_stream_str2fmt
cfg_stream_set_format s fmt_str =
    unless_empty s fmt_str (λ str.
      store_choice s unsupported (λ fmt. record s { format = fmt }) (cfg_stream_str2fmt str))

-- NULL takes the encoder away.
unfoldable pub cfg_stream_set_encoder : Stream → Option Bytes → Outcome Stream
unfolding set_xstrdup
cfg_stream_set_encoder s none = (none, record s { encoder = none })
cfg_stream_set_encoder s (some encoder) =
    let (e, t) = set_xstrdup s.encoder (some encoder) in (e, record s { encoder = t })

unfoldable pub cfg_stream_set_stream_name : Stream → Option Bytes → Outcome Stream
unfolding set_xstrdup
cfg_stream_set_stream_name s stream_name =
    let (e, t) = set_xstrdup s.stream_name stream_name in (e, record s { stream_name = t })

unfoldable pub cfg_stream_set_stream_url : Stream → Option Bytes → Outcome Stream
unfolding set_xstrdup
cfg_stream_set_stream_url s stream_url =
    let (e, t) = set_xstrdup s.stream_url stream_url in (e, record s { stream_url = t })

unfoldable pub cfg_stream_set_stream_genre : Stream → Option Bytes → Outcome Stream
unfolding set_xstrdup
cfg_stream_set_stream_genre s stream_genre =
    let (e, t) = set_xstrdup s.stream_genre stream_genre in (e, record s { stream_genre = t })

unfoldable pub cfg_stream_set_stream_description : Stream → Option Bytes → Outcome Stream
unfolding set_xstrdup
cfg_stream_set_stream_description s stream_description =
    let (e, t) = set_xstrdup s.stream_description stream_description in
    (e, record s { stream_description = t })

unfoldable pub cfg_stream_set_stream_quality : Stream → Option Bytes → Outcome Stream
unfolding set_xstrdup
cfg_stream_set_stream_quality s stream_quality =
    let (e, t) = set_xstrdup s.stream_quality stream_quality in (e, record s { stream_quality = t })

unfoldable pub cfg_stream_set_stream_bitrate : Stream → Option Bytes → Outcome Stream
unfolding set_xstrdup
cfg_stream_set_stream_bitrate s stream_bitrate =
    let (e, t) = set_xstrdup s.stream_bitrate stream_bitrate in (e, record s { stream_bitrate = t })

unfoldable pub cfg_stream_set_stream_samplerate : Stream → Option Bytes → Outcome Stream
unfolding set_xstrdup
cfg_stream_set_stream_samplerate s stream_samplerate =
    let (e, t) = set_xstrdup s.stream_samplerate stream_samplerate in
    (e, record s { stream_samplerate = t })

unfoldable pub cfg_stream_set_stream_channels : Stream → Option Bytes → Outcome Stream
unfolding set_xstrdup
cfg_stream_set_stream_channels s stream_channels =
    let (e, t) = set_xstrdup s.stream_channels stream_channels in
    (e, record s { stream_channels = t })

abbrev pub missing_format : Format → Option Error
missing_format unset_format = some format_missing
missing_format ogg = none
missing_format mp3 = none
missing_format webm = none
missing_format matroska = none

unfoldable pub cfg_stream_validate : Stream → Option Error
cfg_stream_validate s = missing_format s.format

unfoldable pub cfg_stream_get_format_str : Stream → Option Bytes
unfolding cfg_stream_fmt2str
cfg_stream_get_format_str s = cfg_stream_fmt2str s.format
