-- ===== src/Lib.antt =====
-- Verification of NScouter's transaction monitor, the TypeScript code under src/features/xlog.
--
-- The program shows the transactions (XLogs) that an APM collector sends. A stream and a backfill
-- fill a buffer, a chart draws a window of it, and tabs hold what each chart looks at. The parts
-- modelled here are the pure state machines behind the React components, which only dispatch to
-- them:
--
--   Xlog - the shared records (src/features/xlog/types/xlog.ts, types/timeRange.ts).
--   Store - the buffer (store/XLogDataStore.ts), one function for each method on a record of the
--   private fields. Store.Reach has its calls as steps of a relation.
--   Pause - freezing the window (hooks/pauseModel.ts); `prune_range_ms` feeds `prune` of Store.
--   Selection - which servers are looked at (hooks/groupSelection.ts), with the logical services
--   (components/instanceGroup.ts) in Selection.Service and Selection.Grouping, and the picking of
--   single servers (components/agentFilter.ts) in Selection.Picking.
--   Tabs - the chart tabs of a window and their panes (hooks/xlogTabs.ts). A tab holds a selection
--   and the set of hashes that Selection resolves from it. Tabs.Run runs sequences of operations.
--   Fetch - which ranges are still to be fetched (types/pastWindow.ts, types/backfill.ts); the
--   backfill asks Store for its oldest edges.
--   DetailTabs - the tabs of single transactions (hooks/useXLogDetailTabs.ts). A request and its
--   answer are two events, so that an answer may come after its tab was closed. DetailTabs.Saved is
--   the file that the open tabs are kept in (hooks/openDetails.ts).
--   Columns - the batches that the desktop shell sends (types/xlog.ts, and the sender,
--   src-tauri/src/scouter/xlog_columns.rs).
--   Filter - which transactions a chart shows (engine/rectSelect.ts, types/xlog.ts).
--   Objects - what was seen of the servers, and until when (hooks/objectTimeline.ts, agentNames.ts).
--   Search - the pieces of a wide search; Search/Workers is searchAll, one step for each answer
--     (hooks/wideSearchAll.ts).
--   PastLoad - reading a past range page by page (api/pastXLog.ts). Its slices run at the same time;
--   a step is what one of them does from one `await` to the next.
--   Alerts - the alerts on servers, grouped by service (utils/alertGroups.ts, alertWatch.ts), with
--   the history of Objects and the services of Selection.Service.
--   SqlBind - the values of a profiled statement put back into it (components/sqlBind.ts).
--   ConfigEdits - the settings table of an agent put back into its file (components/configEdits.ts).
--   Servers - the saved servers (components/serverProfiles.ts).
--   Windows - the registry of windows taken off the main one (detached/registry.ts).
--   PixelQuery - the point that a click means (engine/pixelQuery.ts).
--   SavedFilters - filter conditions under a name (components/savedFilters.ts), over the filter state
--     of Xlog.
--   Table - which transactions are listed, and in which order (components/xlogSort.ts).
--   Base - lists, sets, maps and texts over the native numbers, shared by all.
--
-- Paths in the list are relative to src/features/xlog. A camelCase name of the source is the
-- snake_case name here, with XLog spelled Xlog.
--
-- How the model stands to the code. An object that the code replaces is a record that a function
-- returns; a class that changes itself is a record that is passed on. A `Set` is a list without
-- repetition in insertion order, a `Map` an association list. The clock, local midnight, the
-- date of a time, `toLowerCase`, `localeCompare`, `Number` on the end of a window's label, adding one to a
-- number (a double), the
-- regular expression engine and the profile of a transaction are parameters. Times are natural
-- numbers of milliseconds; where the code compares with a difference that may be negative, the
-- comparison is written as a sum. A ratio is in thousandths. A text is a list of UTF-16 units.
-- `none` stands for null, for a missing key, and, as the result of a tab operation, for a
-- TypeError or for an undefined key. The pages of a past load and of a wide search come in
-- steps, one for each answer of the collector, in any order. Loops are structural recursion on a
-- list and need no fuel, but for the hexadecimal title, eight digits for a number below 2 ^ 32,
-- the decimal numeral of n, n digits at most, the pieces of a search, one at most for each
-- millisecond of its range, and the number after a name in use, of which one more is tried than
-- there are names.
--
-- Not modelled: rendering and the canvas, the calls of the desktop shell, the Rust side, dates in
-- local time, the titles of chart tabs, and the sharing of unchanged objects by which React skips a
-- redraw.
pub mod Base
pub mod Xlog
pub mod Store
pub mod Pause
pub mod Selection
pub mod Tabs
pub mod Fetch
pub mod DetailTabs
pub mod Columns
pub mod Filter
pub mod Objects
pub mod Search
pub mod Servers
pub mod PastLoad
pub mod Alerts
pub mod SqlBind
pub mod ConfigEdits
pub mod Table
pub mod SavedFilters
pub mod PixelQuery
pub mod Windows
