-- ===== src/Lib.antt =====
-- A verification library for qmt_trading, a local quantitative trading workbench. It models four parts
-- of the back end: the backtest engine, trade execution, background tasks and the data center.
--
-- The backtest engine (backend/services/backtest_center/backtest_engine.py) takes the signals of a
-- strategy and replays them on market bars. Backtest/Types.antt has its records, Backtest/Portfolio.antt
-- class Portfolio, Backtest/Matching.antt class MatchingEngine, Backtest/Broker.antt the loop of
-- BacktestBroker.execute_with_audit over the pending events, and Backtest/Exits.antt the exits that
-- the broker arranges when a buy is filled (_auto_exit_event, _controlled_exit_event), with the signal's
-- keys in Exits/Keys.antt, the minute rows of backend/repositories/backtest_center in Exits/Rows.antt
-- and the scan for a stop or a take in Exits/Scan.antt.
-- Backtest/Metrics.antt has the equity curve and the open positions of MetricsService, Metrics/Holding.antt
-- the holding days and Metrics/Summary.antt the numbers of the report. What a
-- strategy returns is validated by StrategyRunner._validate_signals (Backtest/Signals.antt): the six
-- normalised keys of a signal are fields, and its dict is kept for the others (Value.antt).
--
-- Trade execution keeps its state in the tables of backend/core/database.py, which Trading/Tables.antt
-- has as lists, newest row first. Trading/Monad.antt has calls that read and write them and may raise:
-- a transaction that raises changes nothing, and what was committed before an exception stays.
-- Trading/Repository.antt and Trading/Holdings.antt model TradingRepository
-- (backend/repositories/trading_center/trading_repository.py), with the unique indexes that the database
-- checks; Trading/Adapter.antt the two adapters of backend/adapters/qmt/qmt_trade_adapter.py;
-- Trading/Status.antt the order states (backend/models/trading_models.py) and the map from QMT's words
-- (backend/adapters/qmt/order_status_mapper.py); Trading/Service.antt, Service/Checks.antt and
-- Trading/Sync.antt TradingService (backend/services/trading_center/trading_service.py).
--
-- Background tasks are rows of runtime_task. System/Tasks.antt has the methods of SystemRepository on them
-- (backend/repositories/system/system_repository.py), System/Service.antt those of SystemService
-- (backend/services/system/system_service.py): workers report through a guarded update, users cancel, and
-- the start of the process marks what was interrupted. System/Service/Traces.antt has these as a step
-- relation. System/Cleanup.antt is the cleanup of old records, whose deletions are committed before the
-- archive is written.
--
-- The data center brings rows of QMT to one form (backend/adapters/qmt/data_standardizer.py):
-- Data/Fields.antt has the readers of fields, Data/Symbols.antt the stock codes, Data/Standard.antt with
-- Standard/Accounts.antt and Standard/Kline.antt the rows. Data/Coverage.antt, Data/Freshness.antt,
-- Data/Quality.antt, Data/Requests.antt and Requests/Plan.antt are the modules data_center_coverage.py,
-- data_center_freshness.py, data_center_quality.py, data_center_requests.py and data_center_sync_plan.py of
-- backend/services/data_center, Data/Windows.antt is _minute_date_windows of data_center_service.py, and
-- Data/Triggers.antt replay_minute_amount_triggers of
-- backend/repositories/data_center/data_center_repository.py.
-- Backtest/Context.antt is what a strategy reads of these tables on a day (BacktestStrategyContext), with
-- its scan of minute amounts in Context/Triggers.antt.
--
-- Numbers: Python's float is an interface (Float.antt), of which no law is used; Float/Fixed.antt is a
-- decimal instance to run the model on. Share counts are natural numbers. A text is a list of code
-- points, compared as Python compares texts; dates and times are texts. Log lines and skip reasons of
-- the backtest are constructors with what their text prints.
--
-- Fuel: the broker's loop runs on fuel of one more than twice the number of signals. Each signal is
-- taken once, and so is the one exit that its fill may arrange, so the fuel does not run out.
--
-- Given from outside: the new numbers, the time, the hash, the names of stocks, the system's
-- configuration as one call reads it, when a task is cancelled, strptime with strftime, the difference
-- of two dates, the texts that json.dumps gives, and whether the cleanup can write its archive. The
-- volumes of minute rows are taken to be finite. A call runs alone: two processes that write the
-- database at once are not modelled.
--
-- Not modelled: the process that runs a strategy, the paged lists,
-- the loops of DataCenterService over batches with the downloads from QMT, the configuration and the
-- backups of SystemService, the stages of the backtest service, the API, the front end and the scripts.
pub mod Base
pub mod Text
pub mod Dict
pub mod Float
pub mod Value
pub mod Backtest
pub mod Trading
pub mod System
pub mod Data
