-- ===== src/Main/Send/Calm.antt =====
-- src/ezstream.c: `sendStream` where nothing gets in its way.
use mathlib.Core.Bool.{true≢false}
use ezstream.Prelude.{ℕ, ◌≡◌, refl, sym, ap, ◌∙◌, Bool, true, false, none, List, [], ◌∷◌, negsuc}
use ezstream.CString.{Bytes}
use ezstream.Stream.Transfer.{stream_get_connected, stream_send, or_disconnect}
use ezstream.Main.{Flags, handle_all, Read, Outside, Setup, World, poll, block}
use ezstream.Main.Send.{
  ends, ensure_connected, send_block, after_block, end_block, send_body, send_loop, send_stream,
  stream_done,
}

-- No signal arrives, and the server stays connected and takes everything.
pub record IsCalm {S : Type 0} (out : Outside S) : Type 0 where
  pub no_signals : (s : S) → out.signals s ≡ ([], s)
  pub time : (s : S) → (out.now s).1 ≡ s
  pub takes :
      (b : Bytes) (s : S)
      → out.shout.shout_get_connected s ≡ true
      → (out.shout.shout_send b s).0 ≡ true
  pub stays_connected :
      (b : Bytes) (s : S)
      → out.shout.shout_get_connected s ≡ true
      → out.shout.shout_get_connected (out.shout.shout_send b s).1 ≡ true

-- No flag that `sendStream` tests is set.
abbrev pub NoFlags : Flags → Type 0
NoFlags f =
    (f.quit ≡ false)
    × (f.reread_playlist_notify ≡ false)
    × (f.skip_track ≡ false)
    × (f.query_metadata ≡ false)

module _ {S : Type 0} (out : Outside S) (setup : Setup) where
  -- Every block is handed to libshout, in this order.
  abbrev pub send_all : List Bytes → S → S
  send_all [] s = s
  send_all (b ∷ bs) s = send_all bs (out.shout.shout_send b s).1

  abbrev pub blocks : List Bytes → List Read
  blocks [] = []
  blocks (b ∷ bs) = block b ∷ blocks bs

  module _ (calm : IsCalm out) where
    poll_calm : (w : World S) → poll out w ≡ w
    unfolding poll handle_all
    poll_calm w = rw (calm.no_signals w.env) refl

    connected_calm :
        (w : World S)
        → out.shout.shout_get_connected w.env ≡ true
        → ensure_connected out setup w ≡ (true, w)
    unfolding ensure_connected stream_get_connected
    connected_calm w on = rw on refl

    disconnects_never : (r : Bool × S) → r.0 ≡ true → or_disconnect out.shout r ≡ (true, r.1)
    unfolding or_disconnect
    disconnects_never (true, s) e = refl
    disconnects_never (false, s) e = absurd (true≢false (sym e))

    send_calm :
        (b : Bytes) (w : World S)
        → out.shout.shout_get_connected w.env ≡ true
        → send_block out setup b w ≡ (true, record w { env = (out.shout.shout_send b w.env).1 })
    unfolding send_block stream_send or_disconnect
    send_calm b w on =
        ap (λ r. (r.0, record w { env = r.1 }))
          (disconnects_never (out.shout.shout_send b w.env) (calm.takes b w.env on))

    after_calm :
        (call_time n : ℕ) (w : World S)
        → NoFlags w.flags
        → setup.metadata.refresh_interval ≡ negsuc n
        → after_block out setup call_time w ≡ (none, w)
    unfolding after_block
    after_calm call_time n w (q, r, s, m) never = simp (poll_calm, q, r, s, m, never, calm.time)

    send_loop_calm :
        (call_time n : ℕ) (bs : List Bytes) (w : World S)
        → out.shout.shout_get_connected w.env ≡ true
        → NoFlags w.flags
        → setup.metadata.refresh_interval ≡ negsuc n
        → send_loop out setup call_time none (blocks bs) w
          ≡ ends stream_done [] (record w { env = send_all bs w.env })
    unfolding send_loop send_body end_block
    send_loop_calm call_time n [] w on none_set never = refl
    send_loop_calm call_time n (b ∷ bs) w on none_set never =
        let w' = record w { env = (out.shout.shout_send b w.env).1 } in
        simp (connected_calm w on, send_calm b w on, after_calm call_time n w' none_set never)
          (send_loop_calm call_time n bs w' (calm.stays_connected b w.env on) none_set never)

    -- Where no signal arrives, the stream is connected, the server stays connected and takes
    -- everything, and metadata is not to be refreshed, `sendStream` hands the whole file to libshout, each block once and in its
    -- order, and changes nothing else.
    pub send_stream_calm :
        (n : ℕ) (bs : List Bytes) (w : World S)
        → out.shout.shout_get_connected w.env ≡ true
        → NoFlags w.flags
        → setup.metadata.refresh_interval ≡ negsuc n
        → send_stream out setup (blocks bs) w
          ≡ ends stream_done [] (record w { env = send_all bs w.env })
    unfolding send_stream
    send_stream_calm n bs w on none_set never =
        ap (λ s. send_loop out setup (out.now w.env).0 none (blocks bs) (record w { env = s }))
          (calm.time w.env)
        ∙ send_loop_calm (out.now w.env).0 n bs w on none_set never
