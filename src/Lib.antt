-- ===== src/Lib.antt =====
-- NimbleFIX is a FIX protocol engine in C++. This library models the session layer with its
-- protocol, the in-memory message store, the reconnect strategies, the failover controller and
-- the session schedule of its runtime core, and proves what makes them correct.
--
-- Parts and files:
-- - Common: shared names, Boolean tests, lists with native lengths, association lists
--   (std::unordered_map), signed integers with the division and the int32 conversion of C++.
-- - Status: base::ErrorCode, base::Result and base::Status (include/public/nimblefix/base). The
--   message texts are left out.
-- - Session.State, Session.Core: class SessionCore (src/session/session_core.cpp). The record
--   SessionCore holds its members, one function per method, named after it (BeginConnect is
--   begin_connect); a method that mutates returns the new record beside its status. Session.Core.Step
--   joins them to one step function over calls. Session.Core.DayCut has CheckDayCut and TriggerDayCut.
-- - Store.Record, Store.Memory: MemorySessionStore (src/store/memory_store.cpp) with the payload arena
--   of each session as a list of bytes and offsets into it. Views of a record are modelled by the
--   record, so lifetimes of spans are not modelled; reserve has no visible effect.
-- - Session.Replay: BuildReplayPlan, and Session.Recovery: RecoverSession
--   (src/session/resend_recovery.cpp), over the interface SessionStore of Store.Record, which the
--   memory store fills. Replay relies on records that are loaded in order, see
--   Store.Memory.InOrder.
-- - Connection: the reconnect strategies (src/runtime/connection_strategy.cpp). The number that the
--   random source draws is an argument.
-- - Ha: HaController and InMemoryHaTransport (src/runtime/ha.cpp). Ha.Step joins the methods to one
--   step function; the calls of the role callback are recorded in the controller.
-- - Schedule: SessionScheduleConfig with its validation and its windows (src/runtime/config.cpp).
--   Schedule.Window has the tests and searches of one window, with NextWindowClose of
--   src/runtime/session_schedule.cpp; what the C library does for a time zone is a parameter, with UTC
--   written out. Schedule.Search has the searches over all windows. Schedule.Calendar
--   is BlackoutCalendar, Schedule.Dates its dates as texts.
-- - Action: computations on a state whose result may be an error; what they changed before the error
--   stays changed, as in the source. Action.Keeps has one rule for each way to build one.
-- - Admin: class AdminProtocol (src/session/admin_protocol.cpp), over Session.Core. Admin.Data has its
--   messages, events, configuration and state, and the interfaces for the codec, the dictionary and
--   the store; Admin.Validate the checks; Admin.Stored what is kept of a session on the way;
--   Admin.Frames EncodeFrame, FinalizeEncodedFrame and the frames; Admin.Replay ReplayOutbound; Admin.Timer OnTimer and NextTimerDeadline. OnInbound for a
--   decoded message is read from its end: Admin.Logon and Admin.Dispatch (the handlers by type),
--   Admin.Sequence (the number), Admin.Inbound (the header, the Logon resets). Admin.Calls has the
--   other public calls with the deferred frames, Admin.Create the constructor.
--
-- Numbers: std::uint32_t and std::uint64_t values are natural numbers; the increments that can wrap
-- wrap explicitly. The loop of BuildReplayPlan runs on fuel: e - b + 2 rounds are enough for the
-- numbers b to e below the largest one, and no fuel is enough at the largest one. ReplayOutbound
-- has the count of the numbers as its fuel, and the loop over the deferred frames the count of frames.
--
-- Not modelled: sockets, threads, clocks, files, the codec, the engine and most of its
-- configuration, the profile tools. Times enter as arguments. Of the admin protocol:
-- ComputeBodyStartOffset and the scans of encoded bytes, the enumeration check over groups,
-- message extras, buffers, warnings to the callback, and the texts of decode errors.
pub mod Common
pub mod Status
pub mod Store
pub mod Session
pub mod Connection
pub mod Ha
pub mod Schedule
pub mod Action
pub mod Admin
