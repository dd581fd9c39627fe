-- ===== src/Main/Quit/Opened.antt =====
-- src/ezstream.c: `openResource` does not touch the flags.
use mathlib.Core.Path.{subst}
use ezstream.Prelude.{◌≡◌, refl, Bool, true, false, Option, none, some, [], ◌∷◌, if_elim}
use ezstream.CString.{Bytes}
use ezstream.Mdata.{Mdata}
use ezstream.Stream.Transfer.{Sent, ended, sent}
use ezstream.Cfg.{if_set}
use ezstream.Main.{Flags, Outside, Setup, World}
use ezstream.Main.Command.{Command, build_reencode_cmd, no_command, null_string, command}
use ezstream.Main.Resource.{
  Opened, extension_of, ask, parse, after_metadata, after_ask, open_stdin, run_command, open_with,
  read_metadata, open_file, open_resource,
}

-- The flags are still the same where something was opened.
abbrev pub Same : {S : Type 0} → Flags → Option (Opened S) → Type 0
Same f none = Unit
Same f (some o) = o.world.flags ≡ f

module _ {S : Type 0} (out : Outside S) (setup : Setup) where
  ask-Same : (program : Bytes) (w : World S) → (ask out setup program w).1.flags ≡ w.flags
  unfolding ask
  ask-Same program w = refl

  parse-Same : (filename : Bytes) (w : World S) → (parse out setup filename w).1.flags ≡ w.flags
  unfolding parse
  parse-Same filename w = refl

  after_metadata-Same :
      (w : World S) (md : Mdata) (set : Sent S) → Same w.flags (after_metadata out setup w md set)
  after_metadata-Same w md ended = tt
  after_metadata-Same w md (sent false env md_str) = refl
  after_metadata-Same w md (sent true env md_str) = refl

  after_ask-Same :
      (f : Flags) (r : (Bool × Mdata) × World S) → r.1.flags ≡ f → Same f (after_ask out setup r)
  after_ask-Same f ((false, md), w) e = e
  after_ask-Same f ((true, md), w) e =
      subst (λ f. Same f (after_ask out setup ((true, md), w))) e (after_metadata-Same w md _)

  open_stdin-Same :
      (program : Option Bytes) (w : World S) → Same w.flags (open_stdin out setup program w)
  unfolding open_stdin
  open_stdin-Same none w = refl
  open_stdin-Same (some program) w =
      after_ask-Same w.flags (ask out setup program w) (ask-Same program w)

  run_command-Same :
      (md : Mdata) (w : World S) (c : Command) → Same w.flags (run_command out setup md w c)
  run_command-Same md w null_string = tt
  run_command-Same md w no_command = refl
  run_command-Same md w (command cmd) = refl

  open_with-Same :
      (f : Flags) (extension filename : Bytes) (encoder : Option Bytes)
      (r : (Bool × Mdata) × World S)
      → r.1.flags ≡ f
      → Same f (open_with out setup extension filename encoder r)
  unfolding open_with
  open_with-Same f extension filename encoder ((false, md), w) e = e
  open_with-Same f extension filename none ((true, md), w) e = e
  open_with-Same f extension filename (some encoder) ((true, md), w) e =
      let c = build_reencode_cmd out.utf82char setup extension filename encoder md in
      subst (λ f. Same f (run_command out setup md w c)) e (run_command-Same md w c)

  read_metadata-Same :
      (program : Option Bytes) (filename : Bytes) (w : World S)
      → (read_metadata out setup program filename w).1.flags ≡ w.flags
  unfolding read_metadata
  read_metadata-Same none filename w = parse-Same filename w
  read_metadata-Same (some program) filename w = ask-Same program w

  open_file-Same :
      (extension filename : Bytes) (w : World S)
      → Same w.flags (open_file out setup extension filename w)
  unfolding open_file
  open_file-Same [] filename w = refl
  open_file-Same (c ∷ extension) filename w =
      open_with-Same w.flags (c ∷ extension) filename setup.stream.encoder _
        (read_metadata-Same (if_set setup.metadata.program) filename w)

  pub open_resource-Same :
      (is_stdin : Bool) (filename : Bytes) (w : World S)
      → Same w.flags (open_resource out setup is_stdin filename w)
  unfolding open_resource
  open_resource-Same is_stdin filename w =
      if_elim (Same w.flags) _ (open_stdin-Same (if_set setup.metadata.program) w)
        (open_file-Same (extension_of filename) filename w)
