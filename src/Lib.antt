-- ===== src/Lib.antt =====
-- StageNeth: the daemon and the API of a network appliance for stages. One UCI file, the source of
-- truth, names the services (a VLAN each), the bindings of services to interfaces, the forwardings
-- and the logging. The API checks requests and edits that file; the engine renders from it what the
-- other UCI files of the system have to hold, merges it into them and writes them, and puts the old
-- ones back where a step fails.
--
-- The parts and their files (paths are below packages/stagenethd/files/internal):
--
-- * ucifile/ucifile.go is Ucifile. `Parse` is Ucifile.Reader.parse, `splitArgs` is split_args, `Text`
--   is Ucifile.Printer.text and `quote` is quote; the accessors are in Ucifile itself. `Index` is
--   an option in place of -1, and a pointer to a section is an update of the first match.
-- * stcfg/stcfg.go is Stcfg: `Parse` is parse_config, `optionMap` is option_map.
-- * render/render.go is Render, with a module per file that is rendered: Network, Firewall, Logging
--   (the rsyslog file and the block of rsyslog.conf) and Services (DHCP, umdns and the mDNS repeater).
-- * engine/engine.go is Engine: `merge` and the managed configs there, `Plan` for one config in Plan,
--   the collector block in Collector, the files with their snapshots in Disk, `Plan` and `Apply` as
--   a whole in Apply, `SaveLastGood` and `Rollback` in LastGood.
-- * auth/users.go is Auth.Users, and auth/sessions.go is Auth.Sessions.
-- * api/v1.go is Api (the validators) and Api.V1 (the handlers), with the role
--   guard of api/common.go in Api.Guard; the limiter of api/auth.go is
--   Api.Limiter, its handlers are Api.Account, the raw edits of api/uci.go are Api.Raw, and the
--   directives of api/ntp.go are Api.Ntp.
-- * api/presets.go is Api.Presets, with its table in Table; the wizard of api/network.go is Api.Firstboot,
--   and its backup and restoration are Api.Backup, on the packages that the command `uci` knows.
-- * packages/stagenethd/files/cmd/stagenethd/main.go is Cmd: the commands `apply` and `rollback`, with the
--   list of the scripts that they run.
-- * mon/ptp.go is Mon.Ptp, on lists of bytes, and the history of mon/collector.go is Mon.Collector.
-- * mon/clockwatch.go is Mon.Clockwatch: the frames and counters there, the program of the socket filter
--   in Filter, the observers by interface in Observers. The machine of the kernel that runs the program
--   is an interface with the behaviour of six instructions.
-- * mon/netlink.go is Mon.Netlink, for either order of the bytes of a number.
--
-- How the code is modelled. A text is the list of its code points; the Go strings are taken to be
-- valid UTF-8, and where the code counts bytes so does the model (byte_len). A map is an association
-- list with the laws of Prelude.Maps; where the code ranges over a map without sorting, the order of
-- the list stands for any order. Files are a map from paths to contents. A write by rename either
-- replaces the content or leaves it, and which steps fail, reads included, is an argument of each
-- operation. Times are seconds, and each reading of the clock is an argument. Mutexes and the lock of
-- the engine make one operation a single step, so a run of the program is a list of calls
-- (Auth.Sessions.Trace, Auth.Users.Requests), and a handler is taken as one step too
-- (Api.Firstboot.Served). An `int` that `strconv.Atoi` reads has 64 bits. Code of the standard library
-- that is not plain text work is an argument: JSON, the verb %q, `net.ParseIP`, the hash of a password
-- and its verification, random bytes. The loops are recursive on the lists that they go over. Two run
-- on fuel: `itoa`, one round more than the number, which has fewer digits than that, and the
-- attributes of netlink, one round per byte, where a round that goes on takes four at least.
--
-- Not modelled: the HTTP layer and the audit log, the handlers that run system commands or only
-- print, the sockets, the samples of the monitoring that are read from /proc and /sys, the cookies, and
-- the vendored libraries.
pub mod Prelude
pub mod Ucifile
pub mod Stcfg
pub mod Render
pub mod Auth
pub mod Engine
pub mod Api
pub mod Cmd
pub mod Mon
pub mod Examples
