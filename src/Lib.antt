-- ===== src/Lib.antt =====
-- A model of the native part of tox4j, the JNI bindings of toxcore (src/main/cpp), and its
-- correctness. Paths are below src/main/cpp.
--
-- The program is a set of native methods that Java calls. Each subsystem (ToxCore, ToxAv) keeps a
-- table of instances, objects of toxcore with the events that toxcore reported and Java has not
-- fetched. A method names its instance by a number. It converts its arguments, looks the instance up,
-- calls a function of toxcore on it, and turns the function's error code into a Java exception.
-- `toxIterate` lets toxcore report through callbacks, which append messages to the events, and
-- returns them serialised.
--
-- Files:
--   Base            lists, numbers, machine integers and strings that the other modules share
--   Jni             the Java environment: the pending exception, what lookups answer, how a native
--                   call ends (util/exceptions.h); Jni/Exceptions: util/exceptions.cpp
--   Instances       util/instance_manager.h: `Manager` is the class, with a function for each of its
--                   methods; Valid: the class invariants; View: what a number stands for (vacant,
--                   live, dead, free), which forgets slots and freelist; Lookup, Operations, Add,
--                   Access: what each operation does to the view; History: sequences of calls;
--                   Locks: several threads and the mutexes, as a step relation over the operations
--   Errors          tox4j/ToxInstances.h, the handling of error codes; Core, Av, Crypto: the codes
--                   of ToxCore, ToxAv and ToxCrypto in their generated/errors.cpp
--   Enums           ToxCore/generated/enums.cpp and ToxAv/generated/enums.cpp
--   Drain           the end of `toxIterate`: serialisation and clearing
--   Core            Messages: ToxCore/Core.proto; Callbacks, Iterate: ToxCore/lifecycle.cpp and
--                   `toxIterate` of connection.cpp; Dispatch: tox/common.h, with Reported: the
--                   messages that reports of toxcore stand for
--   Wrappers        tox4j/ToxInstances.h: `with_instance_err`, `with_instance_ign`,
--                   `with_instance_noerr`
--   Methods         the methods of ToxCore that call one function of toxcore (friendlist.cpp,
--                   custom.cpp, interaction.cpp, clientinfo.cpp, filetransfer.cpp, connection.cpp,
--                   generated/impls.h)
--   Construction    `toxNew` and `toxGetSavedata` of ToxCore/lifecycle.cpp
--   Av              Messages: ToxAv/Av.proto; Callbacks, Iterate, Construction: ToxAv/lifecycle.cpp;
--                   Methods: ToxAv/av.cpp; Dispatch: tox/common.h, with Reported as in Core
--   Crypto          ToxCrypto/encryptsave.cpp, ToxCrypto/hash.cpp
--   Log             util/debug_log.h and debug_log.cpp: Registry is the names of functions, Store the
--                   bounded log (`JniLog`), Calls the life of a logged call (`LogEntry`), History the
--                   methods on the log of ToxCore/debug.cpp; Values: how arguments are printed
--                   (debug_log.cpp, and debug.cpp of ToxCore, ToxAv and ToxCrypto)
--   ToBytes         util/to_bytes.h
--   Examples        concrete inputs
--
-- State is passed explicitly: an operation takes the environment and the table and returns them. An
-- operation ends in an `Outcome`: it returns, an assertion aborts the process, or its behaviour is
-- undefined (an index out of range, a null pointer that is dereferenced, a read past an array, memory
-- of toxcore that is freed with `delete[]`). Java integers are values of `ℤ`; the casts to unsigned
-- words are written out (`u16`, `u32`, `u64`), with a `size_t` of 64 bits. Assertions count as enabled.
-- Every loop is structural but one: `decimal`, which prints a number, takes fuel, of which it is given
-- more than the number.
--
-- The log is separate from the rest: a method that is logged returns what it returns without the log,
-- so Methods, Core and Av have no log, and Log takes what a call does as nested calls and a result.
--
-- Parameters: the functions of toxcore and toxav (records `FriendApi`, `FileApi`, `SelfApi`,
-- `CryptoApi`, `AvApi`, and the functions that the wrappers, `toxNew` and `toxavNew` take), the
-- positions of the flags of a call state, the encoding of messages by protobuf (`Protobuf`, with its
-- documented behaviour in `IsProtobuf`), the times that the log takes, and the answers of the Java
-- virtual machine (`Jvm`), on whose class path are the two exception classes that the code throws
-- without a check of their lookup.
--
-- Threads: Instances/Locks interleaves calls of the manager between one mutex and the next; the pairs'
-- functions are taken not to call the manager. Everything else is seen by one thread, the log by one
-- that holds its recursive mutex.
--
-- Not modelled: util/logging.cpp and `JNI_OnLoad` (Tox4j.cpp), an output for debugging and a
-- version check; the release of array elements, and running out of memory, except for the options of
-- `toxNew`; a null array of log filters; the Kotlin and Java sources.
pub mod Base
pub mod Jni
pub mod Instances
pub mod Errors
pub mod Enums
pub mod Drain
pub mod Core
pub mod Wrappers
pub mod Methods
pub mod Construction
pub mod Crypto
pub mod ToBytes
pub mod Log
pub mod Av
mod Examples
