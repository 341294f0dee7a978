-- ===== src/Lib.antt =====
-- The Bluetooth vendor library in libbt: it stands between an Android Bluetooth stack and a
-- controller on a serial port. The stack loads it, hands it callbacks, and calls `init`, `op` and
-- `cleanup` of libbt/src/bt_vendor_nordic.c; the library opens the port, powers the controller,
-- downloads its firmware patch, and sets up low power mode and audio over SCO. Each command is a
-- buffer from the stack's `alloc` that goes to its `xmit_cb`; the reply comes to a handler of
-- libbt/src/hardware.c in a buffer that the library frees.
--
-- The files:
-- - Common: shared names; Boolean tests and lists over the native numbers.
-- - Config: the macros of libbt/include/bt_vendor_nordic.h, with their defaults and the overrides
--   of libbt/include/vnd_nordic.txt. `#if` becomes a test of a field, so that one model serves
--   every build.
-- - Platform: what is outside the library. `Call` is one call with its answer, a `Trace` is the
--   calls so far, newest first, and `Env` gives the answers, each of which may depend on the
--   trace.
-- - World: the static variables of the five source files, with the trace. An operation is a
--   function of the world; one that can read past an event, write past a buffer or call through
--   NULL returns `Option World`, where `none` is that undefined behaviour.
-- - Ledger: counts over a trace: files, buffers, commands, timers and reports.
-- - Userial: libbt/src/userial_vendor.c. Baud has `userial_to_tcio_baud` and hardware.c's
--   `line_speed_to_userial_baud`; Port has the operations; Opening is about the descriptor.
-- - Upio: libbt/src/upio.c. Signal has `upio_set`, the timer, `upio_init` and `upio_cleanup`;
--   Power has the power through rfkill; Files, Timers and Rfkill are about them.
-- - Hardware: libbt/src/hardware.c. Hci has opcodes and commands; Patch has `hw_config_findpatch`;
--   Naming has the chip's name and its delay; Setup has one definition for each case of the
--   `switch` in `hw_config_cback`, and Handler composes them; Lpm and Sco have low power mode, the
--   epilog and audio. Search and Termination are about the search for the patch file; Totality
--   about the events that the handler can read; Kept, Cases and Outcome about what one call of the
--   handler does with buffers and files; Machine, Transitions and Progress about the state
--   machine; Audio, Rates and Sleep about the rest; Formats about the bytes of the commands.
-- - Link: hardware.c together with what it talks to. Peers has the other side, as assumptions: a
--   stack that always has a buffer and takes each command, a controller that completes each
--   command with status 0, and a regular file; `turn` is one reply, handed to the function that
--   the command named. Steps, Sending, Reports and Exchange have single replies and how they
--   compose; Records, Transfer and Download have the patch file; Naming and Missing the search that
--   finds it or does not; Address the end; Configuration and Codec are about the whole of a
--   configuration, Audio about its parts; Idle has the commands on the low power mode and at the
--   end.
-- - Conf: libbt/src/conf.c. Lines has `fgets` and `strtok`, Loading has `conf_table` and
--   `vnd_load_conf`; Tokens, Entries, Bounds and Overflow are about them. `init` has its
--   call of `vnd_load_conf` commented out.
-- - Vendor: `init`, `op` and `cleanup` in Interface; Lifecycle and Powering are about them.
--   Accounts, Requests and Replies count what each call does; Sessions has the orders in which the
--   stack may make its calls and deliver its replies, and Owners follows the buffer at one address
--   through one; Exchanges, Service and Closing have what a session gets from a whole exchange,
--   after which it goes on, and Failing what it gets from a command that the controller refuses.
--   Promises and Outcomes weigh the requests of a session against what the stack was told. Formats
--   follows the layout of the commands through a session.
-- - Uipc: libbt/include/uipc_msg.h. Layout has packed memory: `Layout` for a type, its size, the
--   values that it holds, and how they are written and read; its children have the bytes of a
--   number (Words), whole objects (Memory, Typing), fields at their offsets and unions. Types has
--   what the header takes from bt_types.h, which is not in the repository, as parameters; the
--   byte order is one too. Management, Slip, L2cap, Avdtp, Streams, Codecs, Routes, Outputs and
--   Mixer have the constants and the structures, under the source's names; Messages has all of
--   them together: Access on their memory, Tags on the unions, Opcodes and Settings on the
--   constants. No source file of the library includes this header.
-- - Tests: the theorems at concrete inputs.
--
-- Numbers are natural numbers; where the code keeps 8, 16 or 32 bits of a result that can be
-- larger, the definitions take the remainder. A file descriptor or a signed number of which only
-- the sign matters is an `Option`, with -1 as `none`.
--
-- Fuel: `hw_config_findpatch` calls itself with a shorter name, and the loop over rfkill nodes has
-- no bound of its own; both take fuel and return `none` when it runs out. The length of the name
-- plus one is enough for the first, and the number of the node plus one for the second. Within the
-- handler, the search gets the length of the name plus one.
--
-- Whole exchanges: each turn is one reply, and each theorem names their number, which is that of
-- the commands. A session delivers no more replies than there were commands.
--
-- Not modelled: debugging output; the A2DP offload opcodes, whose functions are not in the
-- repository; unit_test and mocks, which test another service; races between the timer's thread
-- and a call that is running; `closedir`; and the byte that is read in front of an empty patch
-- file path. Of a message with a number of streams the header
-- declares one stream, and the model has that one.
pub mod Common
pub mod Config
pub mod Platform
pub mod World
pub mod Ledger
pub mod Uipc
pub mod Userial
pub mod Upio
pub mod Hardware
pub mod Link
pub mod Conf
pub mod Vendor
pub mod Tests
