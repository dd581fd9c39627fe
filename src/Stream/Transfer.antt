-- ===== src/Stream/Transfer.antt =====
-- src/stream.c: what a stream does with its connection. The handle of libshout is any type with
-- the operations of Libshout; a call that returns SHOUTERR_SUCCESS returns true.
use mathlib.Core.Bool.{true≢false}
use ezstream.Prelude.{
  ℕ, ◌≡◌, refl, Bool, true, false, Option, none, some, List, [], ◌∷◌, if◌then◌else◌,
}
use ezstream.CString.{Bytes, codes}
use ezstream.Mdata.{Mdata}
use ezstream.Mdata.Format.{Formatted, no_format, null_string, formatted, mdata_strformat}
use ezstream.Cfg.Global.{Metadata}

-- A name and a value that is sent.
abbrev pub Pairs : Type 0
Pairs = List (Bytes × Bytes)

-- The operations of libshout that need the connection, and what its documentation says of
-- closing it.
pub record Libshout (S : Type 0) : Type 0 where
  pub shout_open : S → Bool × S
  pub shout_close : S → S
  pub shout_send : Bytes → S → Bool × S
  pub shout_get_connected : S → Bool
  pub shout_set_metadata : Pairs → S → Bool × S
  pub shout_close-connected : (s : S) → shout_get_connected (shout_close s) ≡ false

abbrev pub bufsiz : ℕ
bufsiz = 8192

-- The end of `stream_set_metadata`: the program ends, or there is an answer, the handle and
-- `*md_str`.
pub data Sent (S : Type 0) : Type 0 where
  ended : Sent S
  sent : Bool → S → Option (Option Bytes) → Sent S

abbrev pub song : Option Bytes → Option Pairs
song none = none
song (some value) = some ((codes "song", value) ∷ [])

-- The buffer that `mdata_strformat` fills; it is not initialised where that returns early.
abbrev pub buffer : Formatted → Option Bytes
buffer no_format = none
buffer null_string = none
buffer (formatted n buf) = some buf

-- From the song info and the name, where there is no artist or no title.
abbrev pub info_or_name : Option Bytes → Option Bytes → Option Pairs
info_or_name none name = song name
info_or_name (some songinfo) name = song (some songinfo)

abbrev pub artist_title : Option Bytes → Option Bytes → Option Pairs → Option Pairs
artist_title (some artist) (some title) others =
    some ((codes "artist", artist) ∷ (codes "title", title) ∷ [])
artist_title (some artist) none others = others
artist_title none title others = others

-- What `stream_set_metadata` adds to the metadata, next to the character set.
unfoldable pub metadata_of : Option Bytes → Mdata → Option Pairs
unfolding mdata_strformat
metadata_of (some format) md = song (buffer (mdata_strformat md bufsiz (some format)))
metadata_of none md = artist_title md.artist md.title (info_or_name md.songinfo md.name)

-- `*md_str` after a success: it is set only where there is one and it is NULL.
abbrev pub shown : Mdata → Option (Option Bytes) → Option (Option Bytes)
shown md none = none
shown md (some (some str)) = some (some str)
shown md (some none) = some (elim md.songinfo [ none ↦ md.name | some songinfo ↦ some songinfo ])

module _ {S : Type 0} (lib : Libshout S) where
  abbrev pub after_set : Mdata → Option (Option Bytes) → Bool × S → Sent S
  after_set md md_str (false, s) = sent false s md_str
  after_set md md_str (true, s) = sent true s (shown md md_str)

  abbrev pub set_pairs : S → Mdata → Option (Option Bytes) → Option Pairs → Sent S
  set_pairs s md md_str none = ended
  set_pairs s md md_str (some pairs) =
      after_set md md_str (lib.shout_set_metadata ((codes "charset", codes "UTF-8") ∷ pairs) s)

  unfoldable pub update_metadata : Metadata → S → Option Mdata → Option (Option Bytes) → Sent S
  unfolding metadata_of
  update_metadata cfg s none md_str = sent false s md_str
  update_metadata cfg s (some md) md_str = set_pairs s md md_str (metadata_of cfg.format_str md)

  unfoldable pub stream_set_metadata : Metadata → S → Option Mdata → Option (Option Bytes) → Sent S
  unfolding update_metadata
  stream_set_metadata cfg s md md_str =
      if cfg.no_updates then sent true s md_str else update_metadata cfg s md md_str

  unfoldable pub stream_get_connected : S → Bool
  stream_get_connected s = lib.shout_get_connected s

  unfoldable pub stream_connect : S → Bool × S
  stream_connect s = lib.shout_open s

  unfoldable pub stream_disconnect : S → S
  unfolding stream_get_connected
  stream_disconnect s = if stream_get_connected s then lib.shout_close s else s

  -- What follows `shout_send`.
  unfoldable pub or_disconnect : Bool × S → Bool × S
  unfolding stream_disconnect
  or_disconnect (true, s) = (true, s)
  or_disconnect (false, s) = (false, stream_disconnect s)

  unfoldable pub stream_send : Bytes → S → Bool × S
  unfolding or_disconnect
  stream_send block s = or_disconnect (lib.shout_send block s)

  closed_off :
      (s : S) (b : Bool)
      → lib.shout_get_connected s ≡ b
      → lib.shout_get_connected (if b then lib.shout_close s else s) ≡ false
  closed_off s true e = lib.shout_close-connected s
  closed_off s false e = e

  or_disconnect_off :
      (r : Bool × S)
      → (or_disconnect r).0 ≡ false
      → stream_get_connected (or_disconnect r).1 ≡ false
  unfolding or_disconnect stream_disconnect stream_get_connected
  or_disconnect_off (true, s) e = absurd (true≢false e)
  or_disconnect_off (false, s) e = closed_off s (lib.shout_get_connected s) refl

  -- A stream that fails to send is not connected afterwards, so that the caller has to connect it
  -- again.
  pub stream_send_off :
      (block : Bytes) (s : S)
      → (stream_send block s).0 ≡ false
      → stream_get_connected (stream_send block s).1 ≡ false
  unfolding stream_send
  stream_send_off block s e = or_disconnect_off (lib.shout_send block s) e
