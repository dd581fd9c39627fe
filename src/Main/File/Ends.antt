-- ===== src/Main/File/Ends.antt =====
-- src/ezstream.c: the loop of `streamFile` ends.

use ezstream.Prelude.{
  if_elim, ℕ, zero, suc, ◌<◌, ◌≡◌, ◌⊎◌, inl, inr, Bool, true, false, ◌||◌, Option, none, some, List,
  arith, if◌then◌else◌, length,
}
use ezstream.CString.{Bytes}
use ezstream.Mdata.{Mdata}
use ezstream.Stream.Transfer.{Sent, stream_set_metadata, ended, sent}
use ezstream.Cfg.{if_set}
use ezstream.Main.{Outside, Setup, World, Read, poll}
use ezstream.Main.Send.{Ret, SendEnd, send_stream, stream_done, clear_query}
use ezstream.Main.Send.Progress.{Took, send_stream-Took}
use ezstream.Main.Resource.{ask, Opened, open_resource}
use ezstream.Main.File.{
  Round, is_done, is_updmdata, is_serverr, LoopState, end_round, test_loop, after_update,
  after_asking, new_metadata, answer_query, after_send, FileEnd, next_round, file_loop, stream_loop,
  close_file, first_metadata, loop_from, with_resource, is_stdin_type, after_open, stream_file,
  exits, leaves, continues, returns, exited, out_of_fuel,
}

-- Where a round goes on, less than `n` is left.
abbrev Shorter : {S : Type 0} → ℕ → Round S → Type 0
Shorter n exits = Unit
Shorter n (leaves retval left w) = Unit
Shorter n (continues retval left w) = length left < n

abbrev pub Ended : {S : Type 0} → FileEnd S → Type 0
Ended out_of_fuel = ⊥
Ended exited = Unit
Ended (returns retval left w) = Unit

module _ {S : Type 0} (out : Outside S) (setup : Setup) (n : ℕ) (left : List Read)
    (less : length left < n) where
  test_loop-Shorter : (st : LoopState S) → Shorter n (test_loop out setup left st)
  test_loop-Shorter st = if_elim (Shorter n) (is_done st.ret) tt less

  end_round-Shorter : (st : LoopState S) → Shorter n (end_round out setup left st)
  end_round-Shorter st = if_elim (Shorter n) (is_serverr st.ret) tt (test_loop-Shorter st)

  after_update-Shorter :
      (st : LoopState S) (set : Sent S) → Shorter n (after_update out setup left st set)
  after_update-Shorter st ended = tt
  after_update-Shorter st (sent false env md_str) = tt
  after_update-Shorter st (sent true env md_str) = end_round-Shorter _

  after_asking-Shorter :
      (st : LoopState S) (answer : (Bool × Mdata) × World S)
      → Shorter n (after_asking out setup left st answer)
  after_asking-Shorter st ((false, md), w) = tt
  after_asking-Shorter st ((true, md), w) =
      after_update-Shorter (record st { world = w })
        (stream_set_metadata out.shout setup.metadata w.env (some md) (some none))

  new_metadata-Shorter :
      (program : Option Bytes) (st : LoopState S)
      → Shorter n (new_metadata out setup program left st)
  unfolding new_metadata
  new_metadata-Shorter none st = end_round-Shorter st
  new_metadata-Shorter (some program) st = after_asking-Shorter st (ask out setup program st.world)

  answer_query-Shorter : (st : LoopState S) → Shorter n (answer_query out setup left st)
  unfolding answer_query
  answer_query-Shorter st =
      let w = poll out st.world in
      let cleared = record st { world = clear_query out setup w } in
      if_elim (Shorter n) (is_updmdata st.ret || w.flags.query_metadata)
        (if_elim (Shorter n) setup.metadata.no_updates (test_loop-Shorter cleared)
          (new_metadata-Shorter (if_set setup.metadata.program) cleared))
        (end_round-Shorter (record st { world = w }))

module _ {S : Type 0} (out : Outside S) (setup : Setup) where
  goes_on-Shorter :
      (n : ℕ) (left : List Read) (ret : Ret) (retval : Bool) (w : World S) (st : LoopState S)
      → (ret ≡ stream_done) ⊎ (length left < n)
      → Shorter n (if is_done ret then leaves retval left w else answer_query out setup left st)
  goes_on-Shorter n left ret retval w st (inl e) = rw e tt
  goes_on-Shorter n left ret retval w st (inr less) =
      if_elim (Shorter n) (is_done ret) tt (answer_query-Shorter out setup n left less st)

  after_send-Shorter :
      (n : ℕ) (retval : Bool) (e : SendEnd S) → Took n e → Shorter n (after_send out setup retval e)
  unfolding after_send
  after_send-Shorter n retval e took =
      let w = poll out e.world in
      if_elim (Shorter n) w.flags.quit tt (goes_on-Shorter n e.left e.ret true w _ took)

  next_round-Ended :
      (n : ℕ) (r : Round S) (f : Bool → List Read → World S → FileEnd S)
      → Shorter n r
      → ((retval : Bool) (left : List Read) (w : World S)
          → length left < n
          → Ended (f retval left w))
      → Ended (next_round out setup r f)
  next_round-Ended n exits f h g = tt
  next_round-Ended n (leaves retval left w) f h g = tt
  next_round-Ended n (continues retval left w) f h g = g retval left w h

  file_loop-Ended :
      (fuel : ℕ) (retval : Bool) (reads : List Read) (w : World S)
      → length reads < fuel
      → Ended (file_loop out setup fuel retval reads w)
  unfolding file_loop
  file_loop-Ended zero retval reads w less = absurd (omega arith)
  file_loop-Ended (suc fuel) retval reads w less =
      next_round-Ended (length reads) (after_send out setup retval (send_stream out setup reads w))
        _
        (after_send-Shorter (length reads) retval (send_stream out setup reads w)
          (send_stream-Took out setup reads w))
        (λ retval left w shorter. file_loop-Ended fuel retval left w (omega arith))

  -- The loop of `streamFile` ends, whatever the server, the clock, the metadata program and the
  -- signals do: every round but the last takes something of the file.
  pub stream_loop-Ended : (reads : List Read) (w : World S) → Ended (stream_loop out setup reads w)
  unfolding stream_loop
  stream_loop-Ended reads w = file_loop-Ended (suc (length reads)) false reads w (omega arith)

  close_file-Ended : (b : Bool) (e : FileEnd S) → Ended e → Ended (close_file out setup b e)
  close_file-Ended true (returns retval left w) h = tt
  close_file-Ended true exited h = tt
  close_file-Ended true out_of_fuel h = elim h [ ]
  close_file-Ended false e h = h

  with_world-Ended :
      (o : Option (World S)) (b : Bool) (reads : List Read) → Ended (loop_from out setup o b reads)
  with_world-Ended none b reads = tt
  with_world-Ended (some w) b reads = close_file-Ended b _ (stream_loop-Ended reads w)

  with_resource-Ended :
      (reads : Option (List Read)) (o : Opened S) → Ended (with_resource out setup reads o)
  unfolding with_resource
  with_resource-Ended none o = tt
  with_resource-Ended (some reads) o =
      with_world-Ended (first_metadata out setup o.md (record o.world { resource_errors = 0 }))
        o.is_stdin reads

  opened-Ended : (o : Option (Opened S)) → Ended (after_open out setup o)
  opened-Ended none = tt
  opened-Ended (some o) = with_resource-Ended o.file o

  -- On every input that ends, that is, a finite list of reads, `streamFile` ends: its loop is never out
  -- of rounds. The standard input and the output of a program are such inputs where they end.
  pub stream_file-Ended :
      (filename : Bytes) (w : World S) → Ended (stream_file out setup filename w)
  unfolding stream_file
  stream_file-Ended filename w =
      opened-Ended
        (open_resource out setup (is_stdin_type out setup setup.intake.intake_type) filename w)
