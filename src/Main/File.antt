-- ===== src/Main/File.antt =====
-- src/ezstream.c: `streamFile`.
pub mod Ends
use ezstream.Prelude.{
  ℕ, zero, suc, ◌+◌, Bool, true, false, not, ◌&&◌, ◌||◌, Option, none, some, List, [], ltb,
  if◌then◌else◌, length, set,
}
use ezstream.CString.{Bytes}
use ezstream.Mdata.{Mdata}
use ezstream.Stream.Transfer.{Sent, stream_set_metadata, ended, sent}
use ezstream.Cfg.{if_set}
use ezstream.Cfg.Stream.{Format, ogg, mp3, webm, matroska, unset_format}
use ezstream.Cfg.Intake.{IntakeType}
use ezstream.Main.{Read, Outside, Setup, World, poll}
use ezstream.Main.Send.{
  Ret, SendEnd, clear_skip, clear_query, send_stream, stream_done, stream_cont, stream_skip,
  stream_serverr, stream_updmdata,
}
use ezstream.Main.Resource.{Opened, with_env, ask, open_resource}

-- How a round of the loop ends: the program ends, or the loop ends with `retval`, what is left of
-- the file and what has changed, or it goes on.
pub data Round (S : Type 0) : Type 0 where
  exits : Round S
  leaves : Bool → List Read → World S → Round S
  continues : Bool → List Read → World S → Round S

abbrev pub is_done : Ret → Bool
is_done stream_done = true
is_done stream_cont = false
is_done stream_skip = false
is_done stream_serverr = false
is_done stream_updmdata = false

abbrev pub is_skip : Ret → Bool
is_skip stream_skip = true
is_skip stream_done = false
is_skip stream_cont = false
is_skip stream_serverr = false
is_skip stream_updmdata = false

abbrev pub is_updmdata : Ret → Bool
is_updmdata stream_updmdata = true
is_updmdata stream_done = false
is_updmdata stream_cont = false
is_updmdata stream_skip = false
is_updmdata stream_serverr = false

abbrev pub is_serverr : Ret → Bool
is_serverr stream_serverr = true
is_serverr stream_done = false
is_serverr stream_cont = false
is_serverr stream_skip = false
is_serverr stream_updmdata = false

-- The variables of the loop: `ret`, `retval` and the flags.
pub record LoopState (S : Type 0) : Type 0 where
  pub ret : Ret
  pub retval : Bool
  pub world : World S

module _ {S : Type 0} (out : Outside S) (setup : Setup) where
  -- `(skipTrack && rereadPlaylist) || (skipTrack && queryMetadata)`: both signals cancel out.
  unfoldable pub cancel_skip : LoopState S → LoopState S
  cancel_skip st =
      let w = poll out st.world in
      if w.flags.skip_track && (w.flags.reread_playlist || w.flags.query_metadata)
      then record st { ret = stream_cont; world = clear_skip out setup w }
      else record st { world = w }

  -- `queryMetadata && rereadPlaylist`
  unfoldable pub cancel_query : LoopState S → LoopState S
  cancel_query st =
      let w = poll out st.world in
      if w.flags.query_metadata && w.flags.reread_playlist
      then record st { ret = stream_cont; world = clear_query out setup w }
      else record st { world = w }

  -- `ret == STREAM_SKIP || skipTrack`
  unfoldable pub skip : LoopState S → LoopState S
  skip st =
      let w = poll out st.world in
      if is_skip st.ret || w.flags.skip_track
      then record { ret = stream_done; retval = true; world = clear_skip out setup w }
      else record st { world = w }

  -- The end of the body, and the test of the loop.
  abbrev pub end_round : List Read → LoopState S → Round S
  end_round left st =
      if is_serverr st.ret
      then leaves false left st.world
      else if is_done st.ret
      then leaves st.retval left st.world
      else continues st.retval left st.world

  -- `continue` jumps to the test of the loop.
  abbrev pub test_loop : List Read → LoopState S → Round S
  test_loop left st =
      if is_done st.ret then leaves st.retval left st.world else continues st.retval left st.world

  -- With new metadata.
  abbrev pub after_update : List Read → LoopState S → Sent S → Round S
  after_update left st ended = exits
  after_update left st (sent false env md_str) = leaves false left (with_env out setup st.world env)
  after_update left st (sent true env md_str) =
      end_round left (record st { world = with_env out setup st.world env })

  abbrev pub after_asking : List Read → LoopState S → (Bool × Mdata) × World S → Round S
  after_asking left st ((false, md), w) = leaves false left w
  after_asking left st ((true, md), w) =
      after_update left (record st { world = w })
        (stream_set_metadata out.shout setup.metadata w.env (some md) (some none))

  -- The metadata program is run.
  unfoldable pub new_metadata : Option Bytes → List Read → LoopState S → Round S
  new_metadata none left st = end_round left st
  new_metadata (some program) left st = after_asking left st (ask out setup program st.world)

  -- `ret == STREAM_UPDMDATA || queryMetadata`
  unfoldable pub answer_query : List Read → LoopState S → Round S
  answer_query left st =
      let w = poll out st.world in
      let cleared = record st { world = clear_query out setup w } in
      if is_updmdata st.ret || w.flags.query_metadata
      then (if setup.metadata.no_updates
          then test_loop left cleared
          else new_metadata (if_set setup.metadata.program) left cleared)
      else end_round left (record st { world = w })

  -- What follows `sendStream` in the loop.
  unfoldable pub after_send : Bool → SendEnd S → Round S
  after_send retval e =
      let w = poll out e.world in
      if w.flags.quit
      then leaves retval e.left w
      else if is_done e.ret
      then leaves true e.left w
      else answer_query e.left
          (skip (cancel_query (cancel_skip (record { ret = e.ret; retval = retval; world = w }))))

-- The end of `streamFile`: what it returns, what is left of the file, and what has changed; or the
-- program ends; or the fuel ran out.
pub data FileEnd (S : Type 0) : Type 0 where
  returns : Bool → List Read → World S → FileEnd S
  exited : FileEnd S
  out_of_fuel : FileEnd S

module _ {S : Type 0} (out : Outside S) (setup : Setup) where
  abbrev pub next_round : Round S → (Bool → List Read → World S → FileEnd S) → FileEnd S
  next_round exits f = exited
  next_round (leaves retval left w) f = returns retval left w
  next_round (continues retval left w) f = f retval left w

  -- The loop.
  unfoldable pub file_loop : ℕ → Bool → List Read → World S → FileEnd S
  file_loop zero retval reads w = out_of_fuel
  file_loop (suc fuel) retval reads w =
      next_round (after_send out setup retval (send_stream out setup reads w))
        (λ retval left w. file_loop fuel retval left w)

  -- Every round but the last takes something of the file.
  unfoldable pub stream_loop : List Read → World S → FileEnd S
  stream_loop reads w = file_loop (suc (length reads)) false reads w

  -- Where the file was the standard input, the rest of it stays there.
  abbrev pub close_file : Bool → FileEnd S → FileEnd S
  close_file true (returns retval left w) =
      returns retval [] (with_env out setup w (out.set_stdin left w.env))
  close_file true exited = exited
  close_file true out_of_fuel = out_of_fuel
  close_file false e = e

  abbrev pub max_resource_errors : ℕ
  max_resource_errors = 100

  abbrev pub is_mp3 : Format → Bool
  is_mp3 mp3 = true
  is_mp3 ogg = false
  is_mp3 webm = false
  is_mp3 matroska = false
  is_mp3 unset_format = false

  -- Metadata is set here for MP3 only; `none` where the program ends.
  unfoldable pub first_metadata : Option Mdata → World S → Option (World S)
  first_metadata none w = some w
  first_metadata (some md) w =
      let set = stream_set_metadata out.shout setup.metadata w.env (some md) none in
      if is_mp3 setup.stream.format
      then elim set [ ended ↦ none | sent done env md_str ↦ some (with_env out setup w env) ]
      else some w

  abbrev pub loop_from : Option (World S) → Bool → List Read → FileEnd S
  loop_from none is_stdin reads = exited
  loop_from (some w) is_stdin reads = close_file is_stdin (stream_loop reads w)

  -- With the file, or without one.
  unfoldable pub with_resource : Option (List Read) → Opened S → FileEnd S
  with_resource none o =
      let w = record o.world { resource_errors = o.world.resource_errors + 1 } in
      returns (not (ltb max_resource_errors w.resource_errors)) [] w
  with_resource (some reads) o =
      loop_from (first_metadata o.md (record o.world { resource_errors = 0 })) o.is_stdin reads

  abbrev pub is_stdin_type : IntakeType → Bool
  is_stdin_type IntakeType.stdin = true
  is_stdin_type IntakeType.autodetect = false
  is_stdin_type IntakeType.file = false
  is_stdin_type IntakeType.playlist = false
  is_stdin_type IntakeType.program = false

  abbrev pub after_open : Option (Opened S) → FileEnd S
  after_open none = exited
  after_open (some o) = with_resource o.file o

  -- `streamFile`
  unfoldable pub stream_file : Bytes → World S → FileEnd S
  stream_file filename w =
      after_open (open_resource out setup (is_stdin_type setup.intake.intake_type) filename w)
