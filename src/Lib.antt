-- ===== src/Lib.antt =====
-- ezstream: a source client that streams files and playlists to Icecast servers.
--
-- The program reads its configuration from an XML file (src/cfgfile_xml.c into src/cfg*.c), opens a
-- playlist (src/playlist.c), reads the metadata of each entry (src/mdata.c), runs a decoder and an
-- encoder in a shell (src/ezstream.c, src/util.c), and sends the result (src/stream.c).
--
-- Files:
--   Prelude         names of the libraries, Boolean tests, lists measured by native numbers, integers
--   CString         the functions of the C library on strings, which are lists of bytes;
--                   CString/Numbers has strtonum of compat/strtonum.c
--   Util            src/util.c: util_expand_words, util_shellquote, util_strrcmp, util_strrcasecmp
--   Playlist        src/playlist.c: every operation on a playlist
--   Mdata           src/mdata.c: the metadata of a file or a program; Mdata/Run reads it, Mdata/Format
--                   fills the format string
--   Cmdline         src/cmdline.c: the options; Cmdline/Settings says what is set after a success,
--                   Cmdline/Shuffle what -s prints
--   Main            src/ezstream.c: the signals, and what is outside of the program; Main/Command is
--                   _build_reencode_cmd, Main/Resource is openResource, Main/Reconnect is reconnect,
--                   Main/Send is sendStream, Main/File is streamFile, Main/Songs is streamPlaylist and
--                   the loop of main, Main/Start is what is in front of it; Main/Quit is about the
--                   signals that end the program
--   Stream          src/stream.c: stream_configure, which sets up a connection of libshout from a server
--                   and a stream; Stream/Secure is about TLS, and
--                   Stream/Transfer sends metadata and data
--   Cfgfile         src/cfgfile_xml.c: the parser of the configuration, on the tree that libxml2 makes;
--                   Cfgfile/Settings lists the settings, Cfgfile/Complete and Cfgfile/Reloaded say what
--                   configuration is left; Cfgfile/Print is cfgfile_xml_print
--   Cfg             the macros of src/cfg_private.h
--   Cfg/Names       the lists of named elements that the files src/cfg_*.c share, over the record Named
--   Cfg/Server, Cfg/Stream, Cfg/Intake, Cfg/Encoder, Cfg/Decoder
--                   src/cfg_server.c, src/cfg_stream.c, src/cfg_intake.c, src/cfg_encoder.c and
--                   src/cfg_decoder.c, each an instance of Cfg/Names
--   Cfg/Global      src/cfg.c: reload and settings; the parser of the file is an argument
--
-- A loop is a structural recursion; read_loop runs on fuel, one unit for each byte of the file and
-- one more, and playlist_read-IsFresh shows that the loop ends with it. An access to the array of
-- a playlist returns out_of_bounds where the code would read behind the array. A random number is
-- the next element of a list of draws. A setter returns none for 0, and the error that *errstrp is
-- set to for -1, with the state afterwards. A pointer to an element of a list is its index. Allocation
-- never fails, as src/xalloc.c exits where it does, and log messages are left out.
--
-- What is outside of the program is a type of states with the operations that Main lists: the clock,
-- the signals, files, programs and the server. A file is the list of what fread(3) gives, so that it
-- ends, and the loops of sendStream and streamFile end with it; stream_file-Ended shows that the
-- fuel of streamFile, one round for each read and one more, is enough. A read can give bytes and an
-- error; errno is what the read that failed last has left. A signal can arrive in front of each test
-- of a flag. The rounds of reconnect are counted by an unsigned int that wraps around at UINT_MAX. The
-- loops over the songs and of main have fuel, since they need not end by themselves.
--
-- Not modelled: the parser of the format before 1.0 and the migration tool, the log, the status line,
-- and calls that set errno between the read that failed and the end of sendStream.
pub mod Prelude
pub mod CString
pub mod Util
pub mod Playlist
pub mod Cfg
pub mod Mdata
pub mod Cmdline
pub mod Stream
pub mod Cfgfile
pub mod Main
