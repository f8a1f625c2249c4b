-- ===== src/Lib.antt =====
-- Wetland, a high interaction SSH honeypot: its own Python code, with what it uses of Python's
-- module SocketServer, and without the copy of paramiko that the repository carries.
--
-- The program and its model
--   main.py makes a `tcp_server` (wetland/server/tcpServer.py), whose loop accepts connections
--   (wetland/services/SocketServer.py). A connection is a thread of `tcp_handler`. It asks
--   wetland/server/sshServer.py about each login and each request on a channel, and most of
--   these are passed on to an sshd container. Requests start services (wetland/services), which
--   relay between the hacker's channel and the container's, and the SFTP subsystem
--   (wetland/server/sftpServer.py). All of them report events to `output.o` (wetland/output.py),
--   which hands them to the plugins (wetland/output_plugin). The scripts of util read the logs
--   that the plugin `log` wrote.
--
--   Prelude     Python: byte strings with their methods, and statements that read and write a
--               state and return or raise (Prelude/Py). What was written before an exception stays.
--   Event       the events: subject, action, content.
--   Docker      the container behind paramiko's client; Docker/Sample is one for the tests.
--   Auth        `ssh_server.check_auth_password`. The state is the blacklist and the whitelist
--               that all connections share, the events and the container. Its children are about
--               one login (Outcomes, Verdict, Valid) and about histories of logins (Lockout).
--   Whitelist   the initial whitelist and `on_message` (wetland/server/tcpServer.py).
--   SocketServer
--               what tcp_server inherits: the constructor with its calls on the socket; Requests:
--               one request, from `accept` to its thread; Loop: `serve_forever`. The state is the
--               attributes of the server, the calls made, and the requests whose threads run.
--   TcpServer   `tcp_handler.handle`: the id of an address, how a connection ends, and the whole
--               method (Handler). Start: main.py, `tcp_server.__init__` and its MQTT callbacks.
--   Channels    the other requests of `ssh_server`: pty, shell, exec, environment, port
--               forwarding, direct-tcpip. The state is the numbers of linked channels, the events,
--               the started services and the container.
--   Relay       what the services share: the trace of calls on the two channels and of events.
--   Shell       wetland/services/shell_service.py, with the table of visual.txt. Shell/Replayed is
--               about a session, its log, and its replay.
--   Exec        wetland/services/exec_service.py: the state is the trace, the variables `filelen`,
--               `nowlen` and `scpfile`, and the contents of the copies. Exec/Replayed and Exec/Lost
--               are about transfers of scp, their log, and what util/playlog.py extracts of it.
--   Forward     `direct_service` and `reverse_handler2` (wetland/services/direct_service.py and
--               reverse_service.py), which have the same loop. Forward/Replayed is about a
--               connection, the log that is written of it, and its replay.
--   Sftp        `sftp_server` and `remote_sftp_handle`: one request is one function.
--   Log         the plugin wetland/output_plugin/log.py: the files of an address, and their folder
--               (Folders).
--   Playlog     `get` of `shell_player` and `forward_player` (util/playlog.py).
--               Playlog/Scp: `extract_files` and `save_files`; Playlog/Players: `play` and
--               `start`; Playlog/ExecPlayer: the rest of `exec_player`; Playlog/Choose: the choice
--               of a player; Playlog/Program: the program with its arguments. Playlog/Lines and
--               Playlog/Items: the lines that the plugin log writes of the events of a service.
--   Output      the threads of `output.o` (wetland/output.py), as a step relation.
--   Plugins     which events wetland/output_plugin/{mqtt,jsonlog,bearychat,email}.py report, and
--               what they send of them (Messages, Jsonlog).
--   Setup       util/initwetland.py, over the places that exist; Setup/FileChange:
--               util/filechange.py.
--   Config      `reqpubip` and `get_args` (wetland/config.py); Client: the MQTT client, and
--               `DottableDict`.
--   Clearlog    `clear` of util/clearlog.py; Summary: `summary` and the script as a whole.
--
-- Parameters
--   Code outside the repository is an argument, and so is the copy of paramiko: the record
--   `Docker` for the client of the container, the record `Client` of Sftp for the container's
--   SFTP client and the local files, `convert_errno`, and `answers` for what a call on a channel
--   of a service returns. Options of the configuration, the fresh id of an address, the parsed
--   JSON of a whitelist and the time stamps of the log are arguments too, and so are
--   `json.dumps`, what the operating system answers to the calls of the server's socket, and the
--   walk over the folders.
--
-- Loops
--   `extract_files` runs on fuel, one more than there are messages, since each of its rounds takes
--   one. A loop over the lines of a file is recursion on them. A loop that waits (for `epoll.poll`,
--   `select`, `accept` or a connection) is recursion on the list of what the waits return; where the
--   list ends, the loop is waiting, and its result says so.
--
-- What the model assumes
--   The program runs on Python 2: a string is a list of bytes, and every string is greater than
--   every number. A login is one step, so that concurrent connections are sequences of logins.
--   `blacklist` is a `defaultdict` that is only indexed and assigned, hence a total function.
--   `output.o` starts a thread for each event; the events are taken in the order in which they are
--   emitted, which the threads need not keep. The thread that `output.o` starts is taken to start.
--   A handler touches the attributes of its server only, and the calls that end a connection are
--   those of one step. Where `save_files` writes, the disk has nothing but what it wrote itself,
--   and refuses only what collides with that; a dictionary of `extract_files` keeps the order of
--   insertion. The paths of initwetland.py lead through no symbolic links.
--
-- What is not modelled
--   The copy of paramiko. Of wetland/services/SocketServer.py, which is Python's module with
--   new-style classes, what the program does not inherit: UDP, forking,
--   Unix sockets, and the handlers of streams and datagrams. The reading of the configuration files,
--   the mail server behind email.py, the help of argparse, and what the scripts print beside their
--   results.
pub mod Prelude
pub mod Event
pub mod Docker
pub mod Auth
pub mod Whitelist
pub mod Log
pub mod Playlog
pub mod Relay
pub mod Shell
pub mod Exec
pub mod Forward
pub mod Channels
pub mod Sftp
pub mod Output
pub mod Plugins
pub mod Setup
pub mod Config
pub mod Clearlog
pub mod SocketServer
pub mod TcpServer
