-- ===== src/Main/Send/Progress.antt =====
-- src/ezstream.c: `sendStream` takes something of the file, unless it is done.
use ezstream.Prelude.{
  ℕ, suc, ◌<◌, ◌≡◌, refl, ◌⊎◌, inl, inr, Bool, true, false, Option, none, some, List, [], ◌∷◌,
  arith, length,
}
use ezstream.CString.{Bytes}
use ezstream.Main.{Outside, Setup, World, Errno, Read, block, short_block, no_block}
use ezstream.Main.Reconnect.{reconnect}
use ezstream.Main.Send.{
  Ret, SendEnd, ends, ensure_connected, send_block, after_block, end_block, send_body, send_loop,
  send_stream, stream_done,
}

-- It is done, or less than `n` is left.
abbrev pub Took : {S : Type 0} → ℕ → SendEnd S → Type 0
Took n e = (e.ret ≡ stream_done) ⊎ (length e.left < n)

module _ {S : Type 0} (out : Outside S) (setup : Setup) where
  longer : (n : ℕ) (e : SendEnd S) → Took n e → Took (suc n) e
  longer n e (inl done) = inl done
  longer n e (inr less) = inr (omega arith)

  block-Took :
      (left : List Read) (ret : Ret) (w : World S) → Took (suc (length left)) (ends ret left w)
  block-Took left ret w = inr (omega arith)

  -- An error that is EINTR is one read that was taken before.
  abbrev bound : Option Errno → ℕ → ℕ
  bound none n = n
  bound (some e) n = suc n

  end_block-Took :
      (error : Option Errno) (connected sent again : Bool × World S)
      (checked : Option Ret × World S) (left : List Read) (rest : SendEnd S)
      → Took (suc (length left)) rest
      → Took (suc (length left)) (end_block out setup error connected sent again checked left rest)
  unfolding end_block
  end_block-Took error (false, w) sent again checked left rest h = block-Took left _ w
  end_block-Took error (true, _) (false, _) (true, w) checked left rest h = block-Took left _ w
  end_block-Took error (true, _) (false, _) (false, w) checked left rest h = block-Took left _ w
  end_block-Took error (true, _) (true, _) again (some ret, w) left rest h = block-Took left _ w
  end_block-Took error (true, _) (true, _) again (none, w) left rest h = h

  send_body-Took :
      (call_time : ℕ) (error : Option Errno) (b : Bytes) (left : List Read)
      (f : World S → SendEnd S) (w : World S)
      → ((w : World S) → Took (suc (length left)) (f w))
      → Took (suc (length left)) (send_body out setup call_time error b left f w)
  unfolding send_body
  send_body-Took call_time error b left f w h =
      let connected = ensure_connected out setup w in
      let sent = send_block out setup b connected.1 in
      let again = reconnect out setup.server.reconnect_attempts sent.1 in
      let checked = after_block out setup call_time sent.1 in
      end_block-Took error connected sent again checked left (f checked.1) (h checked.1)

  bounded : (error : Option Errno) (n : ℕ) (e : SendEnd S) → Took (bound error n) e → Took (suc n) e
  bounded none n e h = longer n e h
  bounded (some _) n e h = h

  unbounded : (error : Option Errno) (n : ℕ) (e : SendEnd S) → Took n e → Took (bound error n) e
  unbounded none n e h = h
  unbounded (some _) n e h = longer n e h

  send_loop-Took :
      (call_time : ℕ) (error : Option Errno) (file : List Read) (w : World S)
      → Took (bound error (length file)) (send_loop out setup call_time error file w)
  unfolding send_loop
  send_loop-Took call_time none [] w = inl refl
  send_loop-Took call_time (some e) [] w = inr (omega arith)
  send_loop-Took call_time error (block b ∷ left) w =
      unbounded error _ (send_loop out setup call_time error (block b ∷ left) w) (
        send_body-Took call_time error b left (λ w. send_loop out setup call_time error left w) w
          (λ w.
            bounded error (length left) (send_loop out setup call_time error left w)
              (send_loop-Took call_time error left w)))
  send_loop-Took call_time error (short_block b e ∷ left) w =
      unbounded error _ (send_loop out setup call_time error (short_block b e ∷ left) w) (
        send_body-Took call_time (some e) b left
          (λ w. send_loop out setup call_time (some e) left w) w
          (λ w. send_loop-Took call_time (some e) left w))
  send_loop-Took call_time error (no_block e ∷ left) w =
      unbounded error _ (send_loop out setup call_time error (no_block e ∷ left) w)
        (block-Took left _ w)

  pub send_stream-Took :
      (file : List Read) (w : World S) → Took (length file) (send_stream out setup file w)
  unfolding send_stream
  send_stream-Took file w = send_loop-Took _ none file _
