-- ===== src/Lib.antt =====
-- Verification library of EveIndustryPlanner, a program that plans industry in the game EVE Online: from
-- the recipes of the game, the skills and assets of the player and the orders of the market it makes jobs
-- that turn resources into resources, and looks for the best mix of them with a linear program. A second
-- program keeps an archive of the orders of the market.
--
-- The parts and where they are modelled:
--   Pricing (apps/pricing)
--     Order, Codec    order.h: orders, changes, and their bytes (write_order, write_diff of
--                     json_writer_util.cpp, read_order, read_diff of json_reader.cpp)
--     Reader          OrderReader of json_reader.cpp: read_step, read_doc, step, finalize
--     Writer          JsonWriter of json_writer.cpp: the three branches of extract2 (write_new,
--                     write_changed, write_removed), check, and in Writer/Extract the merge of a view
--     Writer/Mirror   the market as an abstract map, and what writer and reader keep in step with it
--     Writer/Write    JsonWriter::write, over the archives of a directory
--     Json            convert of read_json_order.cpp and parse_datetime: an order from its JSON object
--     Paths           the names of files: file_system.cpp, parsePageNumber and parseFileName
--     Pages           convertOrders, filterOrders and readOrders of json_writer_util.cpp
--     Analysis        TritaniumBuyAnalysis of main.cpp, which compares two views
--   Catalog (libs/names, libs/groups, libs/assets, libs/industry_resources/types)
--     Names, Groups, Assets, and Types with its tests and the registration of blueprints
--   Industry (libs/industry_resources, libs/skills, libs/market_data)
--     Resource, Job   Resource_Base, Job, Buy and Sell
--     Stuff           resource_manager/stuff.cpp: getResource, getBPO, getBPC
--     Skills, Recipes, Products, Copies, Inventions, Schematics, Market: what can be done, the filters,
--                     and the generators of jobs, which ask Stuff for the resources
--     Values          inputValues and JobValues
--   Planning (apps/main/src)
--     Lp              what is used of SoPlex
--     Planner         planner.cpp: addJob, ensureResource, and in Planner/Solve solve
--     Feed            PlannerAndStuff of workspace.cpp, which gives the jobs of the generators to the planner
--     Workspace       the constructor of workspace and processBlueprints
--   Requests
--     Semaphore       libs/Semaphore: the operations, and the steps of any number of threads
--     Http            libs/HTTPSRequestHandler: handleRequest with redirects and cookies, postRequest
--     Group           the groups of HTTPSRequestHandler.cpp and QueryRunner.cpp
--   OrderReader (apps/order_reader.cpp)
--     Tables          OrderHandler3::SingleOrderHandler and the tables that it writes
--     Update          OrderHandler3: the thread that reads the pages and the thread of the database
--     Prices          OrderHandler: the best prices in a station, the transactions of a type, and in
--                     Prices/Save saveOrders, which waits for them
--   HistoryReader (apps/history_reader.cpp)
--     Queries         HistoryQuery and UpdateQuery, their statements and tables
--     Request         HistoryRequest: the thread of a handler and the thread of the database
--
-- JsonWriter::write reads the archives of a directory with Pages, Json and Paths and stores each with Writer.
-- OrderHandler3 is a step relation of two threads, which meet in a semaphore and in the queue of the
-- connection, and so is a request of HistoryHandler. The transactions of OrderHandler are the handlers of
-- requests of Requests/Http.
--
-- A record of C++ is a record; a map is an association list, in which a new key is added at the end; a
-- shared pointer to a resource is its place in a store. An exception, a failed assertion and undefined
-- behaviour are values of Result (Prelude/Results). Names of functions and members are those of the source,
-- in lower case with underscores.
--
-- Numbers are natural numbers. The reader and writer take members of w bits as their bit patterns, and a
-- sum of std::size_t that may wrap has its % 2 ^ 64 written out. A double is a type W with the operations
-- that the program uses (Double); a theorem that needs a law of it names the law.
--
-- Loops over lists are structural. The loop of read_doc runs on fuel, the length of the document, which is
-- enough, since every step takes a byte; the merge of extract2 recurses on its two lists. handleRedirect
-- runs on fuel, since the source follows redirects without a limit: a request whose fuel runs out has not
-- returned, and posting it gives no state. The vector of handlers of OrderHandler3 has room for 1,000,000;
-- beyond that the model may go to any state.
--
-- Outside the library: the solver and the sets of SoPlex, with the laws of their documentation for sets
-- from which nothing is removed (Planning/Lp); the files, databases and YAML, XML and JSON documents, which
-- are given as the entries that the code reads from them; the order in which an unordered map is gone
-- through, which is that of the list; the exchange of a message with a server; what rapidjson and JsonCpp
-- make of a text, and strptime of a date; what SQLite does with a statement, and which it fails. Not
-- modelled are the settings, the caches on disk, what is only printed, the opening of archives and
-- connections, the relay of market data, the server and the scripts.
pub mod Prelude
pub mod Text
pub mod Double
pub mod Catalog
pub mod Industry
pub mod Planning
pub mod Pricing
pub mod Requests
pub mod HistoryReader
pub mod OrderReader
