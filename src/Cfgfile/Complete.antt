-- ===== src/Cfgfile/Complete.antt =====
-- src/cfgfile_xml.c: what the parser does to the whole configuration.

pub mod Document
use mathlib.Core.Path.{subst}
use ezstream.Prelude.{
  ◌≡◌, refl, sym, Bool, true, false, ◌&&◌, Option, none, some, List, arith, All, if_elim,
}
use ezstream.CString.{Bytes, codes}
use ezstream.Cfg.Names.Unique.{Distinct}
use ezstream.Cfg.Names.Reach.{Reach}
use ezstream.Cfg.Server.{Server, named_server, cfg_server_validate}
use ezstream.Cfg.Stream.{Stream, named_stream, cfg_stream_validate}
use ezstream.Cfg.Intake.{Intake, named_intake, cfg_intake_validate}
use ezstream.Cfg.Encoder.{Encoder, named_encoder, cfg_encoder_validate}
use ezstream.Cfg.Decoder.{Decoder, named_decoder}
use ezstream.Cfg.Global.{Config, cfg_file_check}
use ezstream.Cfgfile.{Node, Nodes, name_of, children_of, Libxml, parse_elements, no_more, next}
use ezstream.Cfgfile.Settings.{
  server_kind, stream_kind, intake_kind, decoder_kind, encoder_kind, parse_metadata, parse_section,
  parse_sections, parse_document, cfgfile_xml_parse,
}
use ezstream.Cfgfile.Valid.{Kept}
use ezstream.Cfgfile.Valid.Walk.{parse_elements-Kept}
use ezstream.Cfgfile.Careful.{
  server_kind-AllCareful, stream_kind-AllCareful, intake_kind-AllCareful, encoder_kind-AllCareful,
}
use ezstream.Cfgfile.Careful.Decoders.{HasProgram, validated-HasProgram, decoder_kind-AllCareful}

-- Every element of the configuration passes its check; of a decoder, the program does.
pub record IsComplete (cfg : Config) : Type 0 where
  pub servers : All (λ s. cfg_server_validate s ≡ none) cfg.servers
  pub streams : All (λ s. cfg_stream_validate s ≡ none) cfg.streams
  pub intakes : All (λ i. cfg_intake_validate i ≡ none) cfg.intakes
  pub decoders : All HasProgram cfg.decoders
  pub encoders : All (λ e. cfg_encoder_validate e ≡ none) cfg.encoders

-- The five lists are made by the operations on lists.
pub record IsMade (cfg : Config) : Type 0 where
  pub servers : Reach named_server cfg.servers
  pub streams : Reach named_stream cfg.streams
  pub intakes : Reach named_intake cfg.intakes
  pub decoders : Reach named_decoder cfg.decoders
  pub encoders : Reach named_encoder cfg.encoders

-- In each of the five lists, names are different.
pub record IsDistinct (cfg : Config) : Type 0 where
  pub servers : Distinct named_server cfg.servers
  pub streams : Distinct named_stream cfg.streams
  pub intakes : Distinct named_intake cfg.intakes
  pub decoders : Distinct named_decoder cfg.decoders
  pub encoders : Distinct named_encoder cfg.encoders

pub record Parsed (cfg : Config) (r : Bool × Config) : Type 0 where
  pub made : IsMade cfg → IsMade r.1
  pub complete : r.0 ≡ true → IsComplete cfg → IsComplete r.1

pub unchanged : (b : Bool) (cfg : Config) → Parsed cfg (b, cfg)
unchanged b cfg = record { made = λ m. m; complete = λ e h. h }

pub both_true : (a b : Bool) → (a && b) ≡ true → (a ≡ true) × (b ≡ true)
both_true a b e = ground (arith, e)

pub then_parsed :
    (ok : Bool) (cfg cfg1 : Config) (r s : Bool × Config)
    → cfg1 ≡ r.1
    → Parsed cfg r
    → Parsed cfg1 s
    → (s.0 ≡ true → r.0 ≡ true)
    → Parsed cfg s
then_parsed ok cfg cfg1 r s same p q first = record {
  made = λ m. q.made (subst IsMade (sym same) (p.made m));
  complete = λ e h. q.complete e (subst IsComplete (sym same) (p.complete (first e) h));
}

module _ (lib : Libxml) where
  servers-Kept :
      (n : Node) (l : List Server)
      → Kept named_server (λ s. cfg_server_validate s ≡ none) l (parse_elements lib server_kind n l)
  servers-Kept = parse_elements-Kept lib server_kind _ (server_kind-AllCareful _ lib) (λ s e. e)

  streams-Kept :
      (n : Node) (l : List Stream)
      → Kept named_stream (λ s. cfg_stream_validate s ≡ none) l (parse_elements lib stream_kind n l)
  streams-Kept = parse_elements-Kept lib stream_kind _ (stream_kind-AllCareful _ lib) (λ s e. e)

  intakes-Kept :
      (n : Node) (l : List Intake)
      → Kept named_intake (λ s. cfg_intake_validate s ≡ none) l (parse_elements lib intake_kind n l)
  intakes-Kept = parse_elements-Kept lib intake_kind _ (intake_kind-AllCareful _ lib) (λ s e. e)

  encoders-Kept :
      (n : Node) (l : List Encoder)
      → Kept named_encoder
          (λ s. cfg_encoder_validate s ≡ none)
          l
          (parse_elements lib encoder_kind n l)
  encoders-Kept = parse_elements-Kept lib encoder_kind _ (encoder_kind-AllCareful _ lib) (λ s e. e)

  decoders-Kept :
      (n : Node) (l : List Decoder)
      → Kept named_decoder HasProgram l (parse_elements lib decoder_kind n l)
  decoders-Kept =
      parse_elements-Kept lib decoder_kind HasProgram (decoder_kind-AllCareful lib)
        validated-HasProgram

  pub servers-Parsed :
      (n : Node) (cfg : Config)
      → (let (ok, l) = parse_elements lib server_kind n cfg.servers in
          Parsed cfg (ok, record cfg { servers = l }))
  servers-Parsed n cfg =
      let k = servers-Kept n cfg.servers in
      record {
        made = λ m. record {
          servers = k.reach m.servers;
          streams = m.streams;
          intakes = m.intakes;
          decoders = m.decoders;
          encoders = m.encoders;
        };
        complete = λ e h. record {
          servers = k.complete e h.servers;
          streams = h.streams;
          intakes = h.intakes;
          decoders = h.decoders;
          encoders = h.encoders;
        };
      }

  pub streams-Parsed :
      (n : Node) (cfg : Config)
      → (let (ok, l) = parse_elements lib stream_kind n cfg.streams in
          Parsed cfg (ok, record cfg { streams = l }))
  streams-Parsed n cfg =
      let k = streams-Kept n cfg.streams in
      record {
        made = λ m. record {
          servers = m.servers;
          streams = k.reach m.streams;
          intakes = m.intakes;
          decoders = m.decoders;
          encoders = m.encoders;
        };
        complete = λ e h. record {
          servers = h.servers;
          streams = k.complete e h.streams;
          intakes = h.intakes;
          decoders = h.decoders;
          encoders = h.encoders;
        };
      }

  pub intakes-Parsed :
      (n : Node) (cfg : Config)
      → (let (ok, l) = parse_elements lib intake_kind n cfg.intakes in
          Parsed cfg (ok, record cfg { intakes = l }))
  intakes-Parsed n cfg =
      let k = intakes-Kept n cfg.intakes in
      record {
        made = λ m. record {
          servers = m.servers;
          streams = m.streams;
          intakes = k.reach m.intakes;
          decoders = m.decoders;
          encoders = m.encoders;
        };
        complete = λ e h. record {
          servers = h.servers;
          streams = h.streams;
          intakes = k.complete e h.intakes;
          decoders = h.decoders;
          encoders = h.encoders;
        };
      }

  pub decoders-Parsed :
      (n : Node) (cfg : Config)
      → (let (ok, l) = parse_elements lib decoder_kind n cfg.decoders in
          Parsed cfg (ok, record cfg { decoders = l }))
  decoders-Parsed n cfg =
      let k = decoders-Kept n cfg.decoders in
      record {
        made = λ m. record {
          servers = m.servers;
          streams = m.streams;
          intakes = m.intakes;
          decoders = k.reach m.decoders;
          encoders = m.encoders;
        };
        complete = λ e h. record {
          servers = h.servers;
          streams = h.streams;
          intakes = h.intakes;
          decoders = k.complete e h.decoders;
          encoders = h.encoders;
        };
      }

  pub encoders-Parsed :
      (n : Node) (cfg : Config)
      → (let (ok, l) = parse_elements lib encoder_kind n cfg.encoders in
          Parsed cfg (ok, record cfg { encoders = l }))
  encoders-Parsed n cfg =
      let k = encoders-Kept n cfg.encoders in
      record {
        made = λ m. record {
          servers = m.servers;
          streams = m.streams;
          intakes = m.intakes;
          decoders = m.decoders;
          encoders = k.reach m.encoders;
        };
        complete = λ e h. record {
          servers = h.servers;
          streams = h.streams;
          intakes = h.intakes;
          decoders = h.decoders;
          encoders = k.complete e h.encoders;
        };
      }

  pub metadata-Parsed :
      (n : Node) (cfg : Config)
      → (let (ok, m) = parse_metadata lib n cfg.metadata in
          Parsed cfg (ok, record cfg { metadata = m }))
  metadata-Parsed n cfg = record {
    made = λ m. record {
      servers = m.servers;
      streams = m.streams;
      intakes = m.intakes;
      decoders = m.decoders;
      encoders = m.encoders;
    };
    complete = λ e h. record {
      servers = h.servers;
      streams = h.streams;
      intakes = h.intakes;
      decoders = h.decoders;
      encoders = h.encoders;
    };
  }
