-- ===== src/Main/Reconnect.antt =====
-- src/ezstream.c: `reconnect`.
use ezstream.Prelude.{
  ℕ, zero, suc, ◌+◌, ◌-◌, ◌<◌, ◌≡◌, refl, ap, ◌∙◌, ◌⊎◌, inl, inr, Bool, true, false, ◌&&◌, arith,
  ltb, leb, if◌then◌else◌,
}
use ezstream.Cfg.{uint_max}
use ezstream.Stream.Transfer.{stream_get_connected, stream_connect, stream_disconnect}
use ezstream.Main.{Outside, World, poll}

module _ {S : Type 0} (out : Outside S) where
  -- `stream_disconnect` and `stream_connect`.
  unfoldable pub try_connect : World S → Bool × World S
  try_connect w =
      let (connected, env) = stream_connect out.shout (stream_disconnect out.shout w.env) in
      (connected, record w { env = env })

  -- `cfg_server_get_reconnect_attempts(...) > 0 && i >= cfg_server_get_reconnect_attempts(...)`
  abbrev pub is_last : ℕ → ℕ → Bool
  is_last attempts i = ltb 0 attempts && leb attempts i

  -- `sleep(5)`
  abbrev pub pause : World S → World S
  pause w = record w { env = out.sleep 5 w.env }

  -- The loop of `reconnect`, by the values that are left for `i` until it wraps around to 0: `i` is
  -- `uint_max - left` in the body.
  unfoldable pub reconnect_loop : ℕ → ℕ → World S → Bool × World S
  reconnect_loop zero attempts w = (false, w)
  reconnect_loop (suc left) attempts w =
      let (connected, tried) = try_connect w in
      let polled = poll out tried in
      let rest = reconnect_loop left attempts (pause polled) in
      if connected
      then (true, tried)
      else if is_last attempts (uint_max - left)
      then (false, tried)
      else if polled.flags.quit
      then (false, polled)
      else rest

  -- 0 or -1, and what has changed.
  unfoldable pub reconnect : ℕ → World S → Bool × World S
  reconnect reconnect_attempts w = reconnect_loop uint_max reconnect_attempts w

  -- Rounds that do not connect, with a pause after each, and without the order to quit meanwhile.
  abbrev pub Fails : ℕ → World S → Type 0
  Fails zero w = Unit
  Fails (suc k) w =
      ((try_connect w).0 ≡ false)
      × ((poll out (try_connect w).1).flags.quit ≡ false)
      × Fails k (pause (poll out (try_connect w).1))

  -- What has changed after `k` such rounds, each with its pause of 5 seconds.
  abbrev pub after_fails : ℕ → World S → World S
  after_fails zero w = w
  after_fails (suc k) w = after_fails k (pause (poll out (try_connect w).1))

  not_last :
      (left attempts : ℕ)
      → (attempts ≡ 0) ⊎ (uint_max < left + attempts)
      → is_last attempts (uint_max - left) ≡ false
  not_last left attempts (inl e) = ground arith
  not_last left attempts (inr more) = ground arith

  still :
      (k left attempts : ℕ)
      → (attempts ≡ 0) ⊎ (uint_max < left + attempts)
      → (attempts ≡ 0) ⊎ (uint_max < k + left + attempts)
  still k left attempts (inl e) = inl e
  still k left attempts (inr more) = inr (omega arith)

  fails_once :
      (left attempts : ℕ) (w : World S)
      → (try_connect w).0 ≡ false
      → is_last attempts (uint_max - left) ≡ false
      → (poll out (try_connect w).1).flags.quit ≡ false
      → reconnect_loop (suc left) attempts w
        ≡ reconnect_loop left attempts (pause (poll out (try_connect w).1))
  unfolding reconnect_loop
  fails_once left attempts w no_server more no_quit = rw (no_server, more, no_quit)

  loop_steps :
      (k left attempts : ℕ) (w : World S)
      → (attempts ≡ 0) ⊎ (uint_max < left + attempts)
      → Fails k w
      → reconnect_loop (k + left) attempts w ≡ reconnect_loop left attempts (after_fails k w)
  loop_steps zero left attempts w more fails = ap (λ n. reconnect_loop n attempts w) (omega arith)
  loop_steps (suc k) left attempts w more (no_server, no_quit, fails) =
      ap (λ n. reconnect_loop n attempts w) (omega arith)
      ∙ fails_once (k + left) attempts w no_server
          (not_last (k + left) attempts (still k left attempts more)) no_quit
      ∙ loop_steps k left attempts _ more fails

  connects :
      (left attempts : ℕ) (w : World S)
      → (try_connect w).0 ≡ true
      → reconnect_loop (suc left) attempts w ≡ (true, (try_connect w).1)
  unfolding reconnect_loop
  connects left attempts w e = rw e

  split_rounds : (k : ℕ) → k < uint_max → uint_max ≡ k + suc (uint_max - k - 1)
  split_rounds k bound = omega arith

  allowed :
      (k attempts : ℕ)
      → k < uint_max
      → (attempts ≡ 0) ⊎ (k < attempts)
      → (attempts ≡ 0) ⊎ (uint_max < suc (uint_max - k - 1) + attempts)
  allowed k attempts bound (inl e) = inl e
  allowed k attempts bound (inr more) = inr (omega arith)

  -- A server that cannot be reached for a while is reached again: if `k` attempts fail, no signal
  -- tells the program to quit meanwhile, and the next attempt connects, then `reconnect` returns 0
  -- with that connection, after a pause of 5 seconds behind each failure. This holds for every `k` below the number of attempts that is
  -- configured, and for every `k` below UINT_MAX where that number is 0.
  pub reconnect_succeeds :
      (k attempts : ℕ) (w : World S)
      → k < uint_max
      → (attempts ≡ 0) ⊎ (k < attempts)
      → Fails k w
      → (try_connect (after_fails k w)).0 ≡ true
      → reconnect attempts w ≡ (true, (try_connect (after_fails k w)).1)
  unfolding reconnect
  reconnect_succeeds k attempts w bound more fails connected =
      ap (λ n. reconnect_loop n attempts w) (split_rounds k bound)
      ∙ loop_steps k (suc (uint_max - k - 1)) attempts w (allowed k attempts bound more) fails
      ∙ connects (uint_max - k - 1) attempts (after_fails k w) connected

  last_lem : (k : ℕ) → k < uint_max → is_last (suc k) (uint_max - (uint_max - k - 1)) ≡ true
  last_lem k bound = ground arith

  stops :
      (k : ℕ) (w : World S)
      → k < uint_max
      → (try_connect w).0 ≡ false
      → reconnect_loop (suc (uint_max - k - 1)) (suc k) w ≡ (false, (try_connect w).1)
  unfolding reconnect_loop
  stops k w bound no_server = rw no_server (rw (last_lem k bound) refl)

  -- With a number of attempts that is configured, `reconnect` gives up after exactly so many
  -- failures if no signal tells the program to quit meanwhile. There is a pause of 5 seconds behind
  -- each failure but the last one, and nothing is done after that one. The number is at most UINT_MAX.
  pub reconnect_gives_up :
      (k : ℕ) (w : World S)
      → k < uint_max
      → Fails k w
      → (try_connect (after_fails k w)).0 ≡ false
      → reconnect (suc k) w ≡ (false, (try_connect (after_fails k w)).1)
  unfolding reconnect
  reconnect_gives_up k w bound fails no_server =
      ap (λ n. reconnect_loop n (suc k) w) (split_rounds k bound)
      ∙ loop_steps k (suc (uint_max - k - 1)) (suc k) w
          (allowed k (suc k) bound (inr (omega arith))) fails
      ∙ stops k (after_fails k w) bound no_server

  loop_connected :
      (opens : (s : S)
        → (out.shout.shout_open s).0 ≡ true
        → out.shout.shout_get_connected (out.shout.shout_open s).1 ≡ true)
      (left attempts : ℕ) (w : World S)
      → (reconnect_loop left attempts w).0 ≡ true
      → stream_get_connected out.shout (reconnect_loop left attempts w).1.env ≡ true
  unfolding reconnect_loop try_connect stream_connect stream_get_connected
  loop_connected opens zero attempts w e = cc
  loop_connected opens (suc left) attempts w e = ground (
    arith,
    opens (stream_disconnect out.shout w.env),
    loop_connected opens left attempts (pause (poll out (try_connect w).1)),
  )

  pub reconnect_connected :
      (opens : (s : S)
        → (out.shout.shout_open s).0 ≡ true
        → out.shout.shout_get_connected (out.shout.shout_open s).1 ≡ true)
      (attempts : ℕ) (w : World S)
      → (reconnect attempts w).0 ≡ true
      → stream_get_connected out.shout (reconnect attempts w).1.env ≡ true
  unfolding reconnect
  reconnect_connected opens attempts w e = loop_connected opens uint_max attempts w e
