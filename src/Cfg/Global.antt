-- ===== src/Cfg/Global.antt =====
-- src/cfg.c: the configuration as a whole, its reload, and the settings of the program and of the
-- metadata. A list that was never asked for is NULL in the source; here it is empty, since the
-- functions that return a list create it first.
pub mod Reload
pub mod Settings
pub mod Tests
use mathlib.Core.Option
use Prim.Native.Nat.{bit_and}
use ezstream.Prelude.{ℕ, Bool, true, false, Option, none, some, List, [], ◌==◌, ℤ, negsuc}
use ezstream.CString.{Bytes}
use ezstream.Cfg.{path_max, Outcome, set_strlcpy, invalid_value}
use ezstream.Cfg.Server.{Server}
use ezstream.Cfg.Stream.{Stream}
use ezstream.Cfg.Intake.{Intake}
use ezstream.Cfg.Encoder.{Encoder}
use ezstream.Cfg.Decoder.{Decoder}

-- `enum cfg_config_type`, and any other number.
pub data ConfigType : Type 0 where
  xmlfile : ConfigType
  other_type : ℕ → ConfigType

-- `struct cfg_program`
pub record Program : Type 0 where
  pub name : Bytes
  pub config_type : ConfigType
  pub config_file : Bytes
  pub pid_file : Bytes
  pub quiet_stderr : Bool
  pub rtstatus_output : Bool
  pub verbosity : ℕ

-- `struct metadata`
pub record Metadata : Type 0 where
  pub program : Bytes
  pub format_str : Option Bytes
  pub refresh_interval : ℤ
  pub normalize_strings : Bool
  pub no_updates : Bool

-- `struct cfg`
pub record Config : Type 0 where
  pub decoders : List Decoder
  pub encoders : List Encoder
  pub intakes : List Intake
  pub servers : List Server
  pub streams : List Stream
  pub metadata : Metadata

-- The three variables of the file.
pub record Global : Type 0 where
  pub cfg_program : Program
  pub cfg : Config
  pub cfg_tmp : Config

-- What `_cfg_reset` leaves: everything is zero but the interval, which is -1.
abbrev pub cfg_reset : Config
cfg_reset = record {
  decoders = [];
  encoders = [];
  intakes = [];
  servers = [];
  streams = [];
  metadata = record {
    program = [];
    format_str = none;
    refresh_interval = negsuc 0;
    normalize_strings = false;
    no_updates = false;
  };
}

-- `_cfg_switch(&cfg_tmp, &cfg)`, and with the two exchanged.
abbrev pub cfg_switch : Global → Global
cfg_switch g = record g { cfg = g.cfg_tmp; cfg_tmp = g.cfg }

abbrev pub reset_cfg : Global → Global
reset_cfg g = record g { cfg = cfg_reset }

abbrev pub reset_tmp : Global → Global
reset_tmp g = record g { cfg_tmp = cfg_reset }

-- `_cfg_save`
unfoldable pub cfg_save : Global → Global
cfg_save g = reset_cfg (cfg_switch (reset_tmp g))

-- `_cfg_restore`
unfoldable pub cfg_restore : Global → Global
cfg_restore g = reset_tmp (cfg_switch (reset_cfg g))

-- `_cfg_commit`
unfoldable pub cfg_commit : Global → Global
cfg_commit g = reset_tmp g

unfoldable pub cfg_init : Global → Global
unfolding cfg_commit
cfg_init g = cfg_commit (reset_cfg g)

-- The end of a call that may abort the program.
pub data Ended {ℓ} (A : Type ℓ) : Type ℓ where
  returned : A → Ended A
  aborted : Ended A

-- The `switch` of `_cfg_load`, with what the parser returns.
abbrev pub load_as : ConfigType → Bool × Config → Global → Ended (Bool × Global)
load_as xmlfile (loaded, cfg) g = returned (loaded, record g { cfg = cfg })
load_as (other_type n) r g = aborted

abbrev pub finish_reload : Ended (Bool × Global) → Ended (Bool × Global)
finish_reload aborted = aborted
finish_reload (returned (false, g)) = returned (false, cfg_restore g)
finish_reload (returned (true, g)) = returned (true, cfg_commit g)

-- `parse` is `cfgfile_xml_parse`, which fills `cfg` from the file, up to the point where it fails.
module _ (parse : Bytes → Config → Bool × Config) where
  -- `_cfg_load`
  unfoldable pub cfg_load : Global → Ended (Bool × Global)
  cfg_load g = load_as g.cfg_program.config_type (parse g.cfg_program.config_file g.cfg) g

  unfoldable pub cfg_file_reload : Global → Ended (Bool × Global)
  unfolding cfg_load cfg_save cfg_restore cfg_commit
  cfg_file_reload g = finish_reload (cfg_load (cfg_save g))

-- `cfg_file_check`, from the mode that `stat` reports, if it succeeds: whether the file may be used.
unfoldable pub cfg_file_check : Option ℕ → Bool
cfg_file_check none = false
cfg_file_check (some st_mode) = bit_and st_mode 0o002 == 0

unfoldable pub cfg_set_program_name : Program → Option Bytes → Outcome Program
unfolding set_strlcpy
cfg_set_program_name p progname =
    let (e, t) = set_strlcpy path_max p.name progname in (e, record p { name = t })

unfoldable pub cfg_set_program_config_type : Program → ConfigType → Outcome Program
cfg_set_program_config_type p xmlfile = (none, record p { config_type = xmlfile })
cfg_set_program_config_type p (other_type n) = (some invalid_value, p)

unfoldable pub cfg_set_program_config_file : Program → Option Bytes → Outcome Program
unfolding set_strlcpy
cfg_set_program_config_file p file =
    let (e, t) = set_strlcpy path_max p.config_file file in (e, record p { config_file = t })

unfoldable pub cfg_set_program_pid_file : Program → Option Bytes → Outcome Program
unfolding set_strlcpy
cfg_set_program_pid_file p file =
    let (e, t) = set_strlcpy path_max p.pid_file file in (e, record p { pid_file = t })

unfoldable pub cfg_set_program_quiet_stderr : Program → Bool → Program
cfg_set_program_quiet_stderr p quiet_stderr = record p { quiet_stderr = quiet_stderr }

unfoldable pub cfg_set_program_rtstatus_output : Program → Bool → Program
cfg_set_program_rtstatus_output p rtstatus_output = record p { rtstatus_output = rtstatus_output }

unfoldable pub cfg_set_program_verbosity : Program → ℕ → Program
cfg_set_program_verbosity p verbosity = record p { verbosity = verbosity }
