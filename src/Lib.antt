-- ===== src/Lib.antt =====
-- Verification of the Python services of ExecRelay: the path of a trading signal from the message
-- bus to the broker, and the trade store beside it.
--
-- The parts, and how they interact. The ingress publishes a Signal in protobuf wire format on the
-- message bus. The persist service (apps/persist/app.py) parses each one strictly, stores it, and
-- parks what it cannot parse as a dead letter; it stores fills and events too. The portal
-- (apps/portal-api/app.py) decodes a stored payload again, changes the trace id and the time, and
-- publishes the replay. The EA shim (scripts/ea_shim.py) receives signals from the bridge, sizes
-- and sends orders to a MetaTrader 5 terminal, reports a fill for each, and reacts when a position
-- closes. The trade store (scripts/_tradestore.py) keeps signals, orders, channels and operator
-- settings in SQLite; the shim asks it which orders belong to one signal, and the dashboard
-- (scripts/trade_dashboard.py) sets the dry-run switch and the symbol map in it, and reads from it
-- whether the shim is alive. The task service (apps/tasks/app.py)
-- closes signals without a fill, deletes old rows and runs tasks; the risk service
-- (apps/risk/app.py) keeps positions from fills and logs breaches of limits; the portal's routes
-- manage licenses; the backtester (apps/backtester) compares signals with and without the model's
-- filter on past candles.
--
-- The files.
--   Base          shared notation: tests, lists and updates of rows, Python's str (Base/Text), code that changes a state
--                 and may raise (Base/Exec), its invariants (Base/Exec/Keeps), what it returns
--                 (Base/Exec/Returns) and what it does when it cannot raise (Base/Exec/Runs)
--   Wire          _varint and parse_signal of apps/persist/app.py (Wire/Varint, Wire/Signal,
--                 Wire/Parse), the encoder, the decoder and the replay of apps/portal-api/app.py
--                 (Wire/Portal), and UTF-8 (Wire/Utf8). A position in a byte string is the list of
--                 the bytes from there on; a dict is a record whose absent keys are `none`.
--   TradeStore    scripts/_tradestore.py: the rows (TradeStore/Db), record_order and the other upserts
--                 (Orders), record_signal and append_signal_trace (Signals), the legs of one signal and
--                 the channel flags (Siblings), the dry-run switch and the symbol map (Settings). An
--                 argument `works` says whether the connection works.
--   Dashboard     scripts/trade_dashboard.py: set_dry_run_mode (Dashboard/DryRun), update_symbol_map
--                 (SymbolMap), the guards and routes of Handler (Http), build_test_signal_command,
--                 _redact and send_test_signal (Webhook), pipeline_status (Pipeline) and _group_closed
--                 (Closed)
--   Shim          scripts/ea_shim.py: the terminal (Shim/Terminal), fnum and the commands (Params),
--                 sized_volume (Sizing), send_market, send_pending, close_positions and
--                 modify_positions_sltp (Orders), execute (Execute) with what it returns and the fill of
--                 run_session (Outcome), the code that runs when a position closes (Close),
--                 position_monitor, which calls it (Monitor), with what it reads and keeps (Watched),
--                 and the messages of run_session (Session). `World` holds the state of the terminal
--                 and every request sent.
--   Persist       apps/persist/app.py: the tables (Persist/Tables), deadletter and persist_signal
--                 (Signals), persist_fill (Fills), the events (Events) and on_signal, on_fill and
--                 on_event (Handlers). `faults` says which of the next statements fail. What the portal can
--                 replay of the stored rows is in Handlers/Replayed.
--   Portal        apps/portal-api/app.py: the tables (Portal/Tables), the routes that change licenses and
--                 instances and the config export (Licenses), and the CSV of fills (Csv)
--   Tasks         apps/tasks/app.py: fill_timeout_check, data_retention, task_processor. Where a query
--                 with LIMIT names no order, the rows come in the order of the table.
--   Risk          apps/risk/app.py: the tables (Risk/Tables), on_fill, the position upsert, the exposure
--                 check, record_drawdown. What the exposure check has to find is in Exposed, without the
--                 functions of the code.
--   Backtester    run_comparison and BranchState of apps/backtester/backtest_ml.py, predict of
--                 xgb_predictor.py beside it (Decisions), and feature_builder.py: the bins of the higher
--                 time frames (Bins), the indicators (Indicators), the rows and how they are read
--                 (Rows) and the features (Features)
--
-- Parameters. MetaTrader 5 is a record of functions on a state of its own. Floats are a type with
-- the operations that the shim uses; a theorem that needs a law of them says so. JSON reading, the
-- binding of values by the database driver, SQLite's LIKE and the text of exceptions are functions
-- that are handed in, as are reading a UUID, drop_chunks of TimescaleDB, the amounts of the risk
-- service, the parts of a time stamp, and the test of the model's score; run_comparison takes the
-- features of a candle as a parameter.
--
-- Fuel. The loops of the wire code run on fuel, the number of bytes that are left; each round takes a
-- byte at least, and the strict parser is proved never to run out. The writer of varints runs on the
-- number itself and one more. resample_closes runs on the number of candles, of which each round takes
-- one at least. All other loops follow a list.
--
-- Not modelled: log lines, metrics, HTTP, start-up and connection handling, schema creation and
-- migrations, the dashboard's other reports and its page, the heartbeat task and the reconnection of the shim,
-- the statistics of the backtester, the portal's reading routes, accounts and sessions, the
-- analytics, report and machine-learning services, and the Go services.
-- Numbers read from events are natural numbers, and str.lower and str.upper act on ASCII letters.
--
-- Simplified: a time stamp is stored as its nanoseconds, without the rounding and the range of
-- to_timestamp, and amounts of the risk tables without the rounding and overflow of their DECIMAL
-- columns; acknowledging a message does not fail. Reading a float does not overflow, a division by zero
-- of floats does not raise, and a comment is a text. Of the terminal's calls only
-- history_deals_get may raise, so a run of the monitor that another call ends is not covered.
pub mod Base
pub mod Wire
pub mod TradeStore
pub mod Dashboard
pub mod Shim
pub mod Persist
pub mod Portal
pub mod Tasks
pub mod Risk
pub mod Backtester
