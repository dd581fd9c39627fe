-- ===== src/Main/Send.antt =====
-- src/ezstream.c: `sendStream`. The status line is left out. `errno` is what the read that failed last
-- has left: that a later call sets it, before it is read behind the loop, is left out.
pub mod Progress
pub mod Calm
use ezstream.Prelude.{
  ℕ, ◌+◌, Bool, true, false, not, ◌||◌, Option, none, some, List, [], ◌∷◌, leb, ◌==◌, if◌then◌else◌,
  length, ℤ, pos, negsuc,
}
use ezstream.CString.{Bytes}
use ezstream.Stream.Transfer.{stream_get_connected, stream_send}
use ezstream.Main.{
  Errno, Read, Outside, Setup, World, poll, eintr, ebadf, other_errno, block, short_block, no_block,
}
use ezstream.Main.Reconnect.{reconnect}

-- The `STREAM_*` constants.
pub data Ret : Type 0 where
  stream_done stream_cont stream_skip stream_serverr stream_updmdata : Ret

-- The value that is returned, what is left of the file, and what has changed.
pub record SendEnd (S : Type 0) : Type 0 where
  pub ret : Ret
  pub left : List Read
  pub world : World S

abbrev pub ends : {S : Type 0} → Ret → List Read → World S → SendEnd S
ends ret left world = record { ret = ret; left = left; world = world }

-- `0 <= cfg_get_metadata_refresh_interval()`, and so many seconds have passed.
abbrev pub is_due : ℤ → ℕ → ℕ → Bool
is_due (pos n) call_time current_time = leb (call_time + n) current_time
is_due (negsuc n) call_time current_time = false

module _ {S : Type 0} (out : Outside S) (setup : Setup) where
  -- The first test in the loop: 0 or -1.
  unfoldable pub ensure_connected : World S → Bool × World S
  ensure_connected w =
      if stream_get_connected out.shout w.env
      then (true, w)
      else reconnect out setup.server.reconnect_attempts w

  -- `stream_send`, where libshout has waited for its turn in `stream_sync`.
  unfoldable pub send_block : Bytes → World S → Bool × World S
  send_block b w = let (ok, env) = stream_send out.shout b w.env in (ok, record w { env = env })

  abbrev pub clear_notify : World S → World S
  clear_notify w = record w { flags = record w.flags { reread_playlist_notify = false } }

  abbrev pub clear_skip : World S → World S
  clear_skip w = record w { flags = record w.flags { skip_track = false } }

  abbrev pub clear_query : World S → World S
  clear_query w = record w { flags = record w.flags { query_metadata = false } }

  -- The tests behind `stream_send`: the loop breaks with a value, or goes on.
  unfoldable pub after_block : ℕ → World S → Option Ret × World S
  after_block call_time w0 =
      let w1 = poll out w0 in
      let polled = poll out w1 in
      let w2 = if polled.flags.reread_playlist_notify then clear_notify polled else polled in
      let w3 = poll out w2 in
      let (current_time, env) = out.now w3.env in
      let w4 = poll out (record w3 { env = env }) in
      let query =
        w4.flags.query_metadata || is_due setup.metadata.refresh_interval call_time current_time in
      let by_program = not (length setup.metadata.program == 0) in
      if w1.flags.quit
      then (some stream_done, w1)
      else if w3.flags.skip_track
      then (some stream_skip, clear_skip w3)
      else if query
      then (if by_program then some stream_updmdata else none, clear_query w4)
      else (none, w4)

  -- What follows the loop: `ferror`, and `errno` as the read that failed last has left it. EINTR asks
  -- to be called again, whatever has ended the loop, and other errors are only logged.
  abbrev pub after_ferror : Option Errno → Ret → Ret
  after_ferror none ret = ret
  after_ferror (some eintr) ret = stream_cont
  after_ferror (some ebadf) ret = ret
  after_ferror (some other_errno) ret = ret

  -- The end of the body of the loop, from whether the stream is connected, the block is sent, the
  -- stream is connected again where it is not, and the loop breaks.
  unfoldable pub end_block :
      Option Errno
      → Bool × World S
      → Bool × World S
      → Bool × World S
      → Option Ret × World S
      → List Read
      → SendEnd S
      → SendEnd S
  end_block error (false, w) sent again checked left rest =
      ends (after_ferror error stream_serverr) left w
  end_block error (true, _) (false, _) (true, w) checked left rest =
      ends (after_ferror error stream_done) left w
  end_block error (true, _) (false, _) (false, w) checked left rest =
      ends (after_ferror error stream_serverr) left w
  end_block error (true, _) (true, _) again (some ret, w) left rest =
      ends (after_ferror error ret) left w
  end_block error (true, _) (true, _) again (none, w) left rest = rest

  -- The body of the loop, with the error of the file and the rest of the loop.
  unfoldable pub send_body :
      ℕ → Option Errno → Bytes → List Read → (World S → SendEnd S) → World S → SendEnd S
  unfolding end_block
  send_body call_time error b left f w =
      let connected = ensure_connected w in
      let sent = send_block b connected.1 in
      let again = reconnect out setup.server.reconnect_attempts sent.1 in
      let checked = after_block call_time sent.1 in
      end_block error connected sent again checked left (f checked.1)

  -- The loop, with the error of the file and with what fread(3) gives.
  unfoldable pub send_loop : ℕ → Option Errno → List Read → World S → SendEnd S
  unfolding send_body
  send_loop call_time error [] w = ends (after_ferror error stream_done) [] w
  send_loop call_time error (block b ∷ left) w =
      send_body call_time error b left (λ w. send_loop call_time error left w) w
  send_loop call_time error (short_block b e ∷ left) w =
      send_body call_time (some e) b left (λ w. send_loop call_time (some e) left w) w
  send_loop call_time error (no_block e ∷ left) w = ends (after_ferror (some e) stream_done) left w

  -- An error of an earlier call that is still set is not EINTR, so that it changes nothing.
  unfoldable pub send_stream : List Read → World S → SendEnd S
  unfolding send_loop
  send_stream file w =
      let (call_time, env) = out.now w.env in send_loop call_time none file (record w { env = env })
