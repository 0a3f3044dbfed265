-- ===== src/Lib.antt =====
-- PageSpy API: rooms, their messages, and the managers that keep them.
--
-- A debugging session is a room. A client holds a connection, which joins a room and sends messages
-- in it; the room emits them to the addresses of its connections, and the emitter hands them to the
-- listeners there, on this instance or over RPC on another.
--
-- Which file is about which code:
--   Status           state/status_machine.go
--   Failure          api/room/error.go, and how a Go call ends: a value, an error, a panic
--   Address          api/event/event.go, and the generated addresses of rpc/address.go
--   Message          api/room/room.go
--   World            the heap of rooms behind pointers, the table of listeners, the calls that left
--   World/Action     actions over a state that may fail or panic, and relations they respect
--   Listeners        event/local_event.go: addListener, RemoveListener, getListeners
--   Rooms            room/basic_room.go, room/message.go, and the Listen of both kinds of room
--   Emitter          event/local_event.go: Emit, EmitLocal, emitRemote; event/rpc_event.go: Emit
--   LocalRoom        room/local_room.go: Fields (NewLocalRoom), Sending (SendMessage, Start),
--                    Membership (Join, Leave), Lifetime (Close, ShouldRemove)
--   LocalManager     room/basic_manager.go, room/local_manager.go; Tags: likeTags, getRoomsByTags
--   RemoteRoom       room/remote_room.go, but for its Listen, which is in Rooms
--   Cluster          room/rpc_local_manager.go, room/rpc_remote_manager.go over rpc/rpc_client.go;
--                    Listing: ListRooms
--   Cleaning         serve/route/core.go: DeleteFile, DeleteLogGroup, CleanFileBySize, CleanFileByTime
--   Pages            data/logs.go: Merge, UniqData; rpc/util.go: CallAllClient
--   Files            serve/route/core.go: CreateFileId, GetMachineIdByFileName
--   Storage          storage/api.go, storage/file.go: FileApi (its methods), Disk (package os);
--                    Refinement: the map from ids to bytes that it implements;
--                    RemoteApi: storage/s3.go
--   Data             data/db.go, data/api.go, the types of data/logs.go: Query (FileListQuery),
--                    Rows (the methods of Data), Api (DataApi),
--                    File (loadData, syncData)
--   Core             serve/route/core.go: CreateFile, CreateLogGroupFile, GetFile, ListFilesInGroup,
--                    DeleteFile, DeleteLogGroup over Storage and Data; Listing: GetFileList,
--                    GetLogGroupList, and Desc of data/logs.go
--   Machines         rpc/address.go: NewAddressManager, GetSelfAddress, getAvailablePort
--   Settings         config/config.go, config/load.go
--   Responses        serve/common/api.go, writeResponse of serve/socket/socket.go
--   Auth             serve/middleware/auth.go, serve/middleware/jwt.go, the route /auth/verify
--   Sockets          serve/socket/socket.go, serve/socket/error.go: Reading (readClientMessage),
--                    Serving (serveRoom), Handlers (ListRooms, CreateRoom, CheckRoomSecret),
--                    Joining (JoinRoom)
--   Routes           serve/route/route.go: the routes of logs; Lists: those that list over all
--                    instances; Params: getQueryList, getTags;
--                    serve/middleware/error.go, Proxy of proxy/proxy.go
--   Tasks            task/task.go
--   Base             lists, texts, maps and numbers that these share
--   Samples          test data
--
-- How the code is read:
--   * A pointer to a room is an address in the heap, so that a room that the table of listeners and
--     the manager both hold is one room; a nil pointer to a value is an option, and reading one
--     panics.
--   * Times are milliseconds, but a token's are seconds, and the clock of Auth counts nanoseconds; the
--     clock's value is an argument, the same throughout one call.
--   * A channel of messages is a list of at most 2000. A send waits for its deadline only if the
--     channel is full, and the message is then dropped: the reader that frees a place in time is
--     not modelled.
--   * A call runs to its end before another; locks that the code holds within an operation have no
--     counterpart. The goroutine of Start is the step `pump`, and a round of the manager's ticker
--     is `loop`.
--   * The JSON codec and the clients of the other instances are the parameters of `Env`. Logs and
--     metrics are left out. Recursion is structural everywhere, so there is no fuel.
--   * A cluster is a map from machine ids to managers. What becomes of a call between instances is
--     an entry of a list in the state: answered, not sent, or carried out and not answered. An emission
--     to another instance is answered by its client in `Env` and recorded in `sent`; it changes no
--     other instance of the map, and no theorem says what it does there.
--   * strings.ToLower is that of each code point; the table of unicode.ToLower is a parameter.
--   * What the stores of logs answer during a cleaning is the parameter `Stores`.
--   * A disk is a map from paths to bytes, by the path's text; each call of package os may fail, as
--     the parameter `Faults` says. An io.Reader is what reading all of it gives.
--   * gorm is the parameter `Gorm`: what it makes of a query, which is the list of its clauses. A
--     theorem on rows names what it needs of it (`Working`, `Pageable`).
--   * An int of 64 bits is its bits, a number below 2 ^ 64, negative from 2 ^ 63 on; sizes and times
--     that are never negative are numbers.
--   * The client of an S3 bucket is the parameter `S3`; a theorem on it names what it needs of it
--     (`Reachable`).
--   * The JWT library, MD5, strconv's errors, the random secret, the free ports and the local IP
--     are parameters.
--   * A socket's reads and writes: what the client sends is a list of turns, what it is sent is the
--     `wire`. The two loops of a joined room run one after the other.
--
-- Not modelled: the RPC server and HTTP itself, the opening of the database, CORS, caching,
-- metrics, logs, static files, the wiring of the parts and start-up, which are I/O or glue over
-- libraries.
pub mod Base
pub mod Status
pub mod Failure
pub mod Address
pub mod Message
pub mod World
pub mod Listeners
pub mod Rooms
pub mod Emitter
pub mod LocalRoom
pub mod LocalManager
pub mod RemoteRoom
pub mod Cluster
pub mod Cleaning
pub mod Pages
pub mod Files
pub mod Storage
pub mod Data
pub mod Core
pub mod Machines
pub mod Settings
pub mod Responses
pub mod Auth
pub mod Sockets
pub mod Routes
pub mod Tasks
pub mod Samples
