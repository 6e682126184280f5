-- ===== src/Lib.antt =====
-- Verification library of cppboot, a C++ library of strings, statuses, networking and plugins.
--
-- Parts and the files that model them, the paths from the repository's root:
--   cppboot/base/status.h, status.cc: Status (the state array byte by byte), Status/Errno,
--     Status/Format (the constructor that formats its message)
--   cppboot/base/str_util.h, str_util.cc: StrUtil, StrUtil/Stricmp
--   cppboot/net/buffer.h: Net/Buffer
--   cppboot/net/http/form_data.cc, url.cc, request.cc, response.cc: Http/FormData, Http/Url,
--     Http/Request, Http/Response
--   cppboot/net/http/server/request_parser.h, .cc: Http/RequestParser (`consume`),
--     Http/RequestParser/Run (`parse`, `parse_uri`), Http/UrlDecode (`UrlDecode`)
--   cppboot/net/http/server/serve_mux.cc, file_server.cc: Http/ServeMux, Http/FileServer
--   cppboot/adv/object.h, env.cc: Adv/Env (objects in memory, their counts, the two tables)
--   cppboot/adv/args.cc: Adv/Args (flags and `Parse`), Adv/Args/Line (the tokenizer)
--   cppboot/adv/bus: Adv/Bus/Msg (messages, packing, frames), Adv/Bus/Context (frames read over
--     Net/Buffer), Adv/Bus/Server (services, router, dispatch), Adv/Bus/Invoker (waiting calls)
--   cppboot/net/http/server/connection.cc, connection_manager.cc and cppboot/net/http/server.cc:
--     Http/Connections (the completion handlers), Http/Connections/Steps (the event loop as steps)
--   cppboot/net/http/client.cc: Http/Client
--   cppboot/net/tcp/connection.cc: Net/TcpConn
--   cppboot/net/tcp/server.cc, connection_manager.cc and examples/chat_room: Net/TcpServer
--   cppboot/net/html: Html (elements and their text), Html/Tags (a tokenizer to read it by)
--   examples/todo: Todo (core.cc), Todo/Page (server.cc and ui.h)
--   cppboot/adv/plugin_manager.cc, plugin.h: Adv/PluginManager
--   cppboot/adv/plugin_loader.cc: Adv/PluginLoader
--   cppboot/plugins/debugger: Plugins/Debugger
--   cppboot/adv/bus/client.cc: Adv/Bus/Client
--   cppboot/base/fs.cc: Fs (paths, directories), Fs/Files (contents), Fs/RemoveAll,
--     Fs/Copy (copies, links)
--   Http/ClientServer joins the client's writer with the server's parser.
-- A function keeps its name in snake case (`StrTrimLeft` is `str_trim_left`), and a method takes
-- the object last, or gives it back changed. Prelude holds what all share, OrdMap is std::map with
-- a string for key, and Words the wrap-around of machine words.
--
-- A string is the list of its bytes. A read outside of a string, a call of back() on an empty vector
-- and a failed assertion are none. Loops that do not follow a list run on fuel: `StrSplit`,
-- `FormData::Parse` and `ParseArgLine` get one unit more than the text has bytes, and each round
-- but the last takes a byte off. `RemoveAll` gets one unit for each level of directories, and
-- `CopyFile` one for each call of `fread`.
-- Parameters of the model: the calls of the operating system on files, the system's loader of
-- shared libraries, `strerror`, the handlers of the dispatcher, the clock, and the JSON library of
-- the bus and of the todo application.
--
-- A pointer is a number and the objects in memory are a function of it. An asynchronous operation
-- is a field of its connection, and the event loop takes one completion handler after the other.
--
-- Not modelled: sockets and their event loops (asio and the operating system), the JSON and
-- formatting libraries that are copied into the tree, and the times and logs of cppboot/base.
pub mod Prelude
pub mod OrdMap
pub mod Words
pub mod Status
pub mod StrUtil
pub mod Fs
pub mod Html
pub mod Http
pub mod Net
pub mod Adv
pub mod Plugins
pub mod Todo
pub mod Tests
