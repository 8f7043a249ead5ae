-- ===== src/Lib.antt =====
-- The verification library of Devilz Den: models of the program's core and the theorems about them.
--
-- The program runs in one game process. Its backend (src/Backend) has errors as values, pointers and
-- memory ranges, byte patterns and their search, a cache of what was found, and a tracker of
-- allocations. The integration (src/Integrations/GTA5_Enhanced) locates the game's runtime targets by
-- patterns, verifies them by evidence from memory and keeps how far each game build is verified
-- (Memory, Runtime); hooks one function of the game to run calls there (Runtime); translates the hashes
-- of native functions for a build and dispatches calls (Natives); and gives access to script globals,
-- programs and threads (Script). A file's first comment names the code that it models, below
-- src/Backend, or below src/Integrations/GTA5_Enhanced for Natives, Script, Targets and Runtime.
--
-- - Prelude: Boolean tests, lists, integers and words, numbers as text, `std::unordered_map`, runs.
-- - System: the protections that `VirtualQuery` reports, as the code tests them.
-- - Backend/Error: Error/Error.hpp, Error/Result.hpp. Results are a data type and do blocks chain them.
-- - Backend/Range: Memory/Memory_Range.hpp, Pointer.hpp, Pointer.cpp.
-- - Backend/Pattern: Memory/Pattern.cpp, and Process/Process_Pattern.cpp, the second parser.
-- - Backend/Scanner: Memory/Pattern_Scanner.cpp. Backend/PatternCache: Memory/Pattern_Cache.cpp.
-- - Backend/MemoryTracker: Memory/Memory_Manager.cpp.
-- - Backend/Process: Process/Process_Memory_Reader.cpp, Process_Pattern_Scanner.cpp.
-- - Backend/Logger: Logging/LoggerService.cpp: producers, `Stop` and the worker as a step relation.
-- - Natives/Crossmap, Table, HandlerTable, CallContext, Manager, Invoker: Native_Crossmap.cpp,
--   Native_Table.cpp with Native_Cache.cpp, Native_Handler_Table.hpp, Native_Call_Context.hpp,
--   Native_Manager.cpp, Native_Invoker.cpp. The manager owns a crossmap and a cache, and the invoker
--   uses the manager, the table and the indexed handlers.
-- - Natives/Frame, Bootstrap: GTA_Native_Call_Context.hpp with its call frame, and
--   GTA_Native_Manager.cpp with GTA_Native_Registry.hpp: the handlers that the game's own function
--   fills in, and the calls of them.
-- - Script/Globals, Tables, Runtime: Script_Global_Manager.cpp, Script_VM.cpp with
--   scrProgramTable.cpp, Script_Runtime_Manager.cpp, which owns the others.
-- - Targets/Status, Evidence, Address, Validators, Builds, Resolver, Coordinator: GTA_Runtime_Target.hpp,
--   GTA_Target_Definition.hpp, GTA_Address_Resolver.cpp, the structural and the semantic validator,
--   GTA_Build_Registry.cpp, and GTA_Target_Resolver.cpp with GTA_Build_Target_Registry.cpp and
--   GTA_Build_Target_Coordinator.cpp. The coordinator resolves each target of a set; its statuses are
--   applied to the build registry.
-- - Targets/Region, Probe, Summary: GTA_Target_Evidence.cpp, which samples a candidate address.
-- - Runtime/Detector: Build_Info_Detector.cpp. Runtime/ModuleManager: GTA_Module_Manager.cpp, which
--   detects the build, has the coordinator resolve its targets and sums the result up.
-- - Runtime/GtaRuntime: GTA_Runtime.cpp, which sets the native manager and the script runtime up.
-- - Runtime/RuntimeManager: src/Runtime/Runtime_Manager.cpp, which starts and stops the module manager,
--   the GTA native manager and the bridge.
-- - Runtime/Bridge: GTA_Run_Script_Threads_Bridge.cpp on a memory of bytes. Runtime/Hook: the threads
--   that pass its HookThunk against Uninstall, as a step relation over counts of threads.
-- - Tests: the theorems at concrete inputs.
--
-- An operation of a class is a function from its state to its state and its result, under the name of
-- the method. Numbers are native natural numbers; words keep their wrap-around written out, and signed
-- overflow wraps. Event counters of the crossmap, of the tracker and of the invoker are 64-bit words that
-- wrap. The order of a hash table is the order of an association list. Loops are structural
-- recursion on their list or on the number of steps that remain; numbers are printed with fuel for the
-- 20 decimal or 16 hexadecimal digits that 64 bits need at most.
--
-- The wait of Uninstall is a step that is possible once no call is counted, and the worker of the logger
-- moves by one statement at a time, so that both are proved to end without a fuel. A write of code that
-- fails is an event of its own, and so is a `Start` of the logger between the sections of a `Stop`.
--
-- Parameters stand for what lies outside: the bytes of the process, of a loaded image and of a file,
-- what the system answers to a read, to `VirtualQuery`, `VirtualProtect` and `VirtualAlloc`, the module
-- lookup, the clock, and what the game's code does when it is called. The resolver and the coordinator
-- take the probe as a parameter. Locks are left out where an operation holds its lock throughout; so
-- are the lines that the code logs, and elapsed times.
--
-- Not modelled: input and output (Filesystem, the sinks of Logging, process enumeration, DLL entry),
-- the GTA pointer manager and validator, the batch scanner and the backend's module manager, the queue
-- executor and the thread manager, the logger and the threads in `Runtime_Manager`, and
-- `Native_Crossmap::SaveText`.
pub mod Prelude
pub mod System
pub mod Backend
pub mod Natives
pub mod Script
pub mod Targets
pub mod Runtime
pub mod Tests
