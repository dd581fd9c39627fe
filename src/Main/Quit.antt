-- ===== src/Main/Quit.antt =====
-- src/ezstream.c: SIGTERM and SIGINT end the program.
pub mod Opened
pub mod Ends
use mathlib.Core.Path.{subst}
use mathlib.Core.Option.{none-ne-some}
use ezstream.Cfg.{uint_max}
use ezstream.Prelude.{
  ℕ, zero, suc, ◌+◌, ◌-◌, ◌*◌, ◌/◌, ◌%◌, ◌^◌, ◌≤◌, ◌<◌, ◌≡◌, refl, sym, ap, ◌∙◌, ◌≢◌, ◌↔◌, ◌⊎◌, inl,
  inr, Bool, true, false, not, ◌&&◌, ◌||◌, Option, none, some, List, [], ◌∷◌, ◌++◌, map, append-nil,
  append_assoc, arith, ltb, leb, ◌==◌, if◌then◌else◌, ltb→lt, lt→ltb, leb→le, ==_iff, ==_refl,
  Bool-cases, Option-cases, length, get_elem?, set, take, drop, replicate, rev_append, All,
  length-append, length-take, length-replicate, length-set, take_all, take-append, drop-append,
  take-append-drop, get_elem?-set_self, ℤ, pos, negsuc, neg, ltbℤ, LeZ, update, remove,
  get_elem?-append, length-update, All-append, if_elim, ◌>>=◌,
}
use ezstream.CString.{Bytes}
use ezstream.Stream.Transfer.{stream_get_connected}
use ezstream.Main.{
  Signal, Flags, sig_handler, handle_all, Read, Outside, Setup, World, poll, sigterm, sigint,
  sighup, sigusr1, sigusr2, other_signal, Errno, block, short_block, no_block,
}
use ezstream.Main.Reconnect.{pause, try_connect, is_last, reconnect_loop, reconnect}
use ezstream.Main.Send.{
  Ret, SendEnd, ensure_connected, send_block, after_block, end_block, send_body, send_loop,
  send_stream, stream_done,
}
use ezstream.Main.File.{
  after_send, FileEnd, next_round, file_loop, stream_loop, leaves, returns, exited, out_of_fuel,
}

-- The program has been told to quit.
abbrev pub Quits : {S : Type 0} → World S → Type 0
Quits w = w.flags.quit ≡ true

sig_handler_quit : (sig : Signal) (f : Flags) → f.quit ≡ true → (sig_handler sig f).quit ≡ true
unfolding sig_handler
sig_handler_quit sigterm f h = refl
sig_handler_quit sigint f h = refl
sig_handler_quit sighup f h = h
sig_handler_quit sigusr1 f h = h
sig_handler_quit sigusr2 f h = h
sig_handler_quit other_signal f h = h

handle_all_quit : (sigs : List Signal) (f : Flags) → f.quit ≡ true → (handle_all sigs f).quit ≡ true
unfolding handle_all
handle_all_quit [] f h = h
handle_all_quit (sig ∷ sigs) f h =
    handle_all_quit sigs (sig_handler sig f) (sig_handler_quit sig f h)

module _ {S : Type 0} (out : Outside S) where
  pub poll-Quits : (w : World S) → Quits w → Quits (poll out w)
  unfolding poll
  poll-Quits w h = handle_all_quit (out.signals w.env).0 w.flags h

  tried-Quits : (w : World S) → Quits w → Quits (try_connect out w).1
  unfolding try_connect
  tried-Quits w h = h

  reconnect_loop-Quits :
      (left attempts : ℕ) (w : World S) → Quits w → Quits (reconnect_loop out left attempts w).1
  unfolding reconnect_loop
  reconnect_loop-Quits zero attempts w h = h
  reconnect_loop-Quits (suc left) attempts w h =
      let tried = (try_connect out w).1 in
      let polled = poll out tried in
      let P = λ (r : Bool × World S). Quits r.1 in
      let q = tried-Quits w h in
      if_elim P (try_connect out w).0 q (
        if_elim P (is_last out attempts (uint_max - left)) q (
          if_elim P polled.flags.quit (poll-Quits tried q)
            (reconnect_loop-Quits left attempts (pause out polled) (poll-Quits tried q))))

  reconnect-Quits : (attempts : ℕ) (w : World S) → Quits w → Quits (reconnect out attempts w).1
  unfolding reconnect
  reconnect-Quits attempts w h = reconnect_loop-Quits uint_max attempts w h

module _ {S : Type 0} (out : Outside S) (setup : Setup) where
  ensure_connected-Quits : (w : World S) → Quits w → Quits (ensure_connected out setup w).1
  unfolding ensure_connected
  ensure_connected-Quits w h =
      if_elim (λ (r : Bool × World S). Quits r.1) (stream_get_connected out.shout w.env) h
        (reconnect-Quits out setup.server.reconnect_attempts w h)

  send_block-Quits : (b : Bytes) (w : World S) → Quits w → Quits (send_block out setup b w).1
  unfolding send_block
  send_block-Quits b w h = h

  after_block-Quits :
      (call_time : ℕ) (w : World S)
      → Quits w
      → after_block out setup call_time w ≡ (some stream_done, poll out w)
  unfolding after_block
  after_block-Quits call_time w h = rw (poll-Quits out w h) refl

  -- At most one read is taken.
  abbrev AtMostOne : List Read → SendEnd S → Type 0
  AtMostOne reads e = (length reads ≤ suc (length e.left)) × Quits e.world

  end_block-Quits :
      (r : Read) (error : Option Errno) (connected sent again : Bool × World S)
      (checked : Option Ret × World S) (left : List Read) (rest : SendEnd S)
      → Quits connected.1
      → Quits again.1
      → checked.0 ≡ some stream_done
      → Quits checked.1
      → AtMostOne (r ∷ left) (end_block out setup error connected sent again checked left rest)
  unfolding end_block
  end_block-Quits r error (false, w) sent again checked left rest hc ha e hk = (omega arith, hc)
  end_block-Quits r error (true, _) (false, _) (true, w) checked left rest hc ha e hk =
      (omega arith, ha)
  end_block-Quits r error (true, _) (false, _) (false, w) checked left rest hc ha e hk =
      (omega arith, ha)
  end_block-Quits r error (true, _) (true, _) again (some ret, w) left rest hc ha e hk =
      (omega arith, hk)
  end_block-Quits r error (true, _) (true, _) again (none, w) left rest hc ha e hk =
      absurd (none-ne-some stream_done e)

  send_body-Quits :
      (r : Read) (call_time : ℕ) (error : Option Errno) (b : Bytes) (left : List Read)
      (f : World S → SendEnd S) (w : World S)
      → Quits w
      → AtMostOne (r ∷ left) (send_body out setup call_time error b left f w)
  unfolding send_body
  send_body-Quits r call_time error b left f w h =
      let connected = ensure_connected out setup w in
      let sent = send_block out setup b connected.1 in
      let again = reconnect out setup.server.reconnect_attempts sent.1 in
      let checked = after_block out setup call_time sent.1 in
      let hc = ensure_connected-Quits w h in
      let hs = send_block-Quits b connected.1 hc in
      let e = after_block-Quits call_time sent.1 hs in
      end_block-Quits r error connected sent again checked left (f checked.1) hc
        (reconnect-Quits out _ sent.1 hs) (ap (λ r. r.0) e)
        (ap (λ r. r.1.flags.quit) e ∙ poll-Quits out sent.1 hs)

  send_loop-Quits :
      (call_time : ℕ) (error : Option Errno) (reads : List Read) (w : World S)
      → Quits w
      → AtMostOne reads (send_loop out setup call_time error reads w)
  unfolding send_loop
  send_loop-Quits call_time error [] w h = (omega arith, h)
  send_loop-Quits call_time error (no_block e ∷ left) w h = (omega arith, h)
  send_loop-Quits call_time error (block b ∷ left) w h =
      send_body-Quits (block b) call_time error b left
        (λ w. send_loop out setup call_time error left w) w h
  send_loop-Quits call_time error (short_block b e ∷ left) w h =
      send_body-Quits (short_block b e) call_time (some e) b left
        (λ w. send_loop out setup call_time (some e) left w) w h

  pub send_stream-Quits :
      (reads : List Read) (w : World S) → Quits w → AtMostOne reads (send_stream out setup reads w)
  unfolding send_stream
  send_stream-Quits reads w h = send_loop-Quits (out.now w.env).0 none reads _ h

  -- What `streamFile` says of a program that quits: the loop has ended, at most one read was taken.
  abbrev pub Stopped : List Read → FileEnd S → Type 0
  Stopped reads out_of_fuel = ⊥
  Stopped reads exited = Unit
  Stopped reads (returns retval left w) = (length reads ≤ suc (length left)) × Quits w

  after_send_quits :
      (reads : List Read) (retval : Bool) (e : SendEnd S)
      → AtMostOne reads e
      → after_send out setup retval e ≡ leaves retval e.left (poll out e.world)
  unfolding after_send
  after_send_quits reads retval e (few, h) = rw (poll-Quits out e.world h) refl

  -- Once a signal has told the program to quit, the loop of `streamFile` sends one more block at
  -- most and then ends, whatever the server, the clock and further signals do.
  pub stream_loop-Quits :
      (reads : List Read) (w : World S) → Quits w → Stopped reads (stream_loop out setup reads w)
  unfolding stream_loop file_loop
  stream_loop-Quits reads w h =
      let e = send_stream out setup reads w in
      let (few, q) = send_stream-Quits reads w h in
      let path =
        ap
          (λ r.
            next_round out setup r
              (λ retval left w. file_loop out setup (length reads) retval left w))
          (after_send_quits reads false e (few, q)) in
      subst (Stopped reads) (sym path) (few, poll-Quits out e.world q)
