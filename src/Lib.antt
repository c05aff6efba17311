-- ===== src/Lib.antt =====
-- Elegance: a C++ library for servers. This development models the parts of it with logic of their
-- own and proves what they promise.
--
-- The parts and the files that model them (paths from the repository's root):
--   ByteArray  elegance/memory/byte_array: `QueueByteArray` (ByteArray/Queue), a queue of bytes with
--              a byte order, and `StaticByteArray` (ByteArray/Static), a fixed buffer with a read
--              and a write position. ByteArray/Transfer has the operations between two arrays,
--              over the interface `Source` of ByteArray, which both fill; its laws are `Lawful`.
--   Buffer     elegance/memory/flexible_buffer.hpp: `FlexibleBuffer`.
--   Packer     elegance/network/network_packer: `NetworkPackagerFixHead`, which cuts a stream of
--              bytes into packages. Packer/Stream says byte by byte what it has to do, and
--              Packer/Refine and Packer/Delivery that it does so.
--   MemPool    elegance/memory/mempool.hpp and .cpp: `MemoryPool` and `MemoryPoolManager`.
--   Network    elegance/network/network_manager.hpp and .cpp (Network/Manager), with `Endpoint` of
--              elegance/platform/network/socket_def.hpp and what the manager uses of `SocketAccept`
--              and `SocketConnect` (Network/Sockets, the loops over the events of epoll, which call
--              it in Network/Sockets/Threads). The state is in Network/Manager/State. `on_recv`
--              goes through the packer to the handlers, and `send` through the packer to the
--              sockets.
--   Rpc        elegance/rpc/rpc_manager.hpp and .cpp: `RPCSession` (Rpc/Session) and `RPCManager`
--              (Rpc/Manager), a handler of the network manager that checks the keys of connections
--              and hands their messages to sessions. Rpc/Manager/Steps has its life as a relation.
--   Serialize  elegance/memory/serialize: `SerializeNetworkManager`, which sends objects through
--              `QueueByteArray` and the network manager. The objects' classes are an interface.
--   Thread     elegance/platform/thread: `ThreadPool` on Linux (Thread/Pool), whose workers, calls
--              of `AddTask` and call of `Stop` are interleaved by the relation `Step`,
--              `ISignal` with `SignalManager_` (Thread/Signal), and `Thread` on Linux with the set
--              of threads of the network manager (Thread/Linux).
--   Common     elegance/common/random.cpp: random numbers between two bounds (Common/Random).
--   Prelude    what they share: lists and tests over the native numbers, integers, words as bytes,
--              `std::map` as association lists over the equivalence that a comparator induces.
--   Tests      runs at concrete inputs.
--
-- A function is named as its C++ function is, in snake case: `read_uint16` is `ReadUint16`. A method
-- takes the object's state beside its arguments and returns the new one, if it changes, with its
-- result. Undefined behaviour (an access outside an array, a deleted pointer, a sum or a product of
-- lengths that is no `int`) is `none`, or `fault` of a run of the packer. Some sums are natural
-- numbers without a bound, and the model is the source's only while they are an `int`:
-- `max_net_id_ + 1`, which `get_free_net_id` gives, the lengths of the messages of `async_call` and
-- `answer`, and the sizes that `change_buffer_size` is given. A call of a handler, a write to a
-- socket and the deletion of a request are values that an operation returns.
--
-- `UnPack` calls itself, so `unpack` has fuel: `unpack_fuel`, twice the number of bytes and one more,
-- which is enough, since a call uses a byte unless it completes a package of the length 0, whose
-- header has used four. `digits` has one more than the number whose digits it gives, and each digit
-- takes the number down to at most a tenth.
--
-- The machine is little endian, `long` has 8 bytes and `char` is a byte.
-- Not modelled: what the system does, whose results are arguments; `Mutex`, which only calls pthread
-- (the operations of all parts but the pool run one after another); a second call of `Stop`, and a
-- pool that runs again; the branches for Windows; callbacks that call the library again; debug
-- output, the seed of random numbers, and time; the database connector and its copy of the client
-- library of MySQL; and the demo programs.
pub mod Prelude
pub mod Common
pub mod ByteArray
pub mod Buffer
pub mod Packer
pub mod MemPool
pub mod Network
pub mod Rpc
pub mod Serialize
pub mod Thread
pub mod Tests
