-- ===== src/Main/Resource/Unnormalized.antt =====
-- src/ezstream.c: what the setting `normalize_strings` does to the files that are opened.
use ezstream.Prelude.{
  ◌≡◌, refl, Bool, true, false, ◌||◌, Option, none, some, [], ◌∷◌, if◌then◌else◌,
}
use ezstream.CString.{Bytes, codes, str_case_eq}
use ezstream.Mdata.{Mdata}
use ezstream.Stream.Transfer.{stream_set_metadata}
use ezstream.Cfg.{if_set}
use ezstream.Main.{Outside, Setup, World}
use ezstream.Main.Command.{build_reencode_cmd}
use ezstream.Main.Resource.{
  Opened, extension_of, ask, parse, open_stdin, open_with, read_metadata, open_file, open_resource,
}

-- The configuration, with another value of `normalize_strings`.
abbrev pub with_normalize : Bool → Setup → Setup
with_normalize b setup = record setup { metadata = record setup.metadata { normalize_strings = b } }

module _ {S : Type 0} (out : Outside S) (setup : Setup) (b : Bool) where
  same_stdin :
      (program : Option Bytes) (w : World S)
      → open_stdin out (with_normalize b setup) program w ≡ open_stdin out setup program w
  unfolding open_stdin ask stream_set_metadata
  same_stdin none w = refl
  same_stdin (some program) w = refl

  same_open :
      (extension filename : Bytes) (encoder : Option Bytes) (r : (Bool × Mdata) × World S)
      → open_with out (with_normalize b setup) extension filename encoder r
        ≡ open_with out setup extension filename encoder r
  unfolding open_with build_reencode_cmd
  same_open extension filename encoder ((false, md), w) = refl
  same_open extension filename none ((true, md), w) = refl
  same_open extension filename (some encoder) ((true, md), w) = refl

  same_file :
      (extension filename : Bytes) (w : World S)
      → open_file out (with_normalize b setup) extension filename w
        ≡ open_file out setup extension filename w
  unfolding open_file read_metadata parse ask
  same_file [] filename w = refl
  same_file (c ∷ extension) filename w = same_open (c ∷ extension) filename setup.stream.encoder _

  both_same :
      (is_stdin : Bool) {x x' y y' : Option (Opened S)}
      → x ≡ x'
      → y ≡ y'
      → (if is_stdin then x else y) ≡ (if is_stdin then x' else y')
  both_same true e f = e
  both_same false e f = f

  -- The setting `normalize_strings` does nothing: with both of its values the same is opened, with
  -- the same metadata and the same command.
  pub open_resource_unnormalized :
      (is_stdin : Bool) (filename : Bytes) (w : World S)
      → open_resource out (with_normalize b setup) is_stdin filename w
        ≡ open_resource out setup is_stdin filename w
  unfolding open_resource
  open_resource_unnormalized is_stdin filename w =
      both_same (is_stdin || str_case_eq filename (codes "stdin"))
        (same_stdin (if_set setup.metadata.program) w)
        (same_file (extension_of filename) filename w)
