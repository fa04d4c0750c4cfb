-- ===== src/Lib.antt =====
-- FTS3, the file transfer service. A server (src/server) chooses how many transfers each link between
-- two storages may run, starts a process (src/url-copy) for each job or file, and follows the messages
-- that these processes send. This library models the parts of that program that decide.
--
-- Files and the code they model, with paths from the root of the repository:
--   Common            numbers, lists, tests, association lists for std::map, doubles, results.
--   Uri               src/common/Uri.cpp, Uri.h: the class (Uri/Types), Uri::parse (Uri/Parse) with
--                     its proof (Uri/RoundTrip), and isLanTransfer (Uri/Lan).
--   Optimizer         src/server/services/optimizer. Types holds the data of Optimizer.h and the
--                     interface of the data source; Decide the rules that only compute; Connections
--                     optimizeConnectionsForPair and setOptimizerDecision; Streams
--                     optimizeStreamsForPair; Run the run over the active pairs. Bounds, Values,
--                     Shares, Start and PairOrder hold the proofs, Examples one link on which they are
--                     applied.
--   UrlCopy           src/url-copy. Heuristics, Timeout and Redaction are heuristics.cpp; Types holds
--                     UrlCopyError.h, Transfer.h, the options and the interface of gfal2; Setup is
--                     setupTransferConfig and setupTokenConfig; Transfer is runTransfer; Process is run
--                     and archiveLogs. Guarantees, Reports and Completion hold the proofs.
--   ConcurrentQueue   src/common/ConcurrentQueue.cpp, .h: Queue the operations, Order the proofs.
--   Heartbeat         src/server/services/heartbeat. Service is HeartBeat.cpp, Alive the proof.
--   Transfers         src/server/services/transfers. Types holds the watched messages and the interface of
--                     the host; Watch is ThreadSafeList.cpp; Canceler and Rounds are CancelerService.cpp,
--                     Rounds its loop; VoShares is VoShares.cpp. Local, Watching, Stalled, Spares and
--                     Signals hold the proofs on the list and the canceler, Selection, Given and OnePerLink
--                     those on the shares, with their map in LinkMap.
--   CommandLine       The command line between the server and the process. Command and Setters are UrlCopyCmd.cpp
--                     of src/server/services/transfers, with the data of src/db/generic/TransferFile.h in
--                     Types; Arguments is getArgv of ExecuteProcess.cpp and the reading of the arguments;
--                     Table, Values, Options and Parse are src/url-copy/UrlCopyOpts.cpp. Words, Known and
--                     ReadBack hold the proof that the arguments are those that were written; Accepted, Good,
--                     Keeps and Handled the one that they are read without an error; Metadata and MetadataBack
--                     those on the metadata.
--   Executor          src/server/services/transfers/FileTransferExecutor.cpp: Build is the command of a
--                     transfer, Settings what the database and the configuration say, Protocol the
--                     parameters of src/db/generic/TransferFile.h, Run the run, on the tables of Jobs.
--                     Numbers, Steps, Transfers, Parameters and Accepts hold the proofs on the command,
--                     Claims and Once those on the run.
--   Jobs              src/db/mysql/MySqlAPI.cpp: Types holds the rows of t_file and t_job, Tables the SQL
--                     statements on lists of rows, Replicas the choice of the next replica or hop, Files
--                     updateTransferStatus and setRetryTransfer, Status updateJobStatus. Lifecycle is the
--                     automaton that a file follows; Follows, Updates, Closed, Sound and History hold the
--                     proofs that it is followed, Counting, Finished, Earned and Settles those on the jobs
--                     that are FINISHED, Accepted the one on the reports that are stored.
--   Scheduling        src/server/services/transfers: Types, Handler are TransferFileHandler.cpp, .h; Slots
--                     and Serve are getFiles of TransfersService.cpp, Service the round of it, with the
--                     shares of Transfers/VoShares. Ready, Turns, StaysReady, Amounts, Stock, Built, Building,
--                     Constructor, New and Handed hold the proofs on the handler; Keeps, Steps, Ends and
--                     Runs those that getFiles ends; Started and Once, Limits, Budget and Within, Given
--                     and OneVo those on what it starts.
--   Messages          src/server/services/transfers/MessageProcessingService.cpp: Process is handleOtherMessages
--                     and performOtherMessageDbChange; Retries is getRetry and getRetryTimes of
--                     src/db/mysql/Config.cpp, Terminate is terminateReuseProcess of MySqlAPI.cpp. Ended and
--                     Follows hold the proof that what has ended stays, Throws, Kept, Held, Tried, Stored
--                     and NotLost the one that no message is lost, Limit the one on the retries.
--
-- How the state corresponds. An object with fields is a record, and a method returns the new record. The
-- optimizer, the process and the services work over a state of the world, a type that is a parameter,
-- with the calls to the database, to gfal2, to the file system and to the host as the fields of an
-- interface. Of these a theorem assumes no law but what it names: that a stored value is read back
-- (Optimizer/Values, Remembers), that the clock does not go back (Transfers/Stalled, Clock), that a
-- distribution picks a positive weight (Transfers/Selection, PicksPositive). What one part passes to
-- another goes through these interfaces: the optimizer stores its values in the database, from which the
-- scheduler reads them. Code that may throw is an action on the state (Common/Effects), and what was
-- written before the exception stays written. Where messages are handled, which call throws what is a
-- function of the number of the call (Messages/Process, fails).
--
-- The database. In Jobs the two tables are lists of rows, in any order, and a transaction is a function
-- on them. Between the read and the write of a report, other sessions may change the tables (Session,
-- others): a theorem on sequences assumes of them only that they follow the life of a file as well.
-- A call that throws after its first transaction is the same call without what follows (Session,
-- breaks_off).
--
-- Numbers. An int is an integer without wrap-around, since overflow is undefined in C++ and the values
-- stay small; an unsigned number is a natural number, with the wrap-around written out for the counters
-- of a service that runs for ever (Transfers/Rounds). A double is an element of a type with the
-- operations that the code uses (Common/Floats), of which nothing is assumed; only the timeout for a
-- file size is computed exactly, which a double does below 2^53 bytes. Texts are strings of characters.
--
-- Loops are recursions on the list that the code walks, and so end without fuel. A service that runs for
-- ever is a step and the states that it reaches (Transfers/Rounds, IsReached), or a list of its passes
-- (Heartbeat/Service). The digits of a number n are written with fuel for n + 1 of them, which is enough
-- by read_digits-digits (Common/Decimal). The loop of getFiles has fuel for two rounds more than there are
-- files, which is enough by serve-Ends (Scheduling/Ends). A C++ int is an integer, since no count
-- comes near its bounds.
--
-- The command line. What gfal2, the JSON library and the file system answer are parameters. The texts of
-- boost::lexical_cast are those of Common/Decimal and Common/Casts; getopt_long_only of the C library is
-- CommandLine/Arguments, for long options, an argument that is no option being passed over.
--
-- Not modelled: logging; the SQL statements that choose transfers, stage, archive and delete, and
-- the other code whose effect is input and output; the exceptions of the data source, which end a
-- run of the optimizer; the exceptions of gfal2 calls that set a plain option, which end the
-- process; the interruption of a thread while it sleeps; of the messages of a process,
-- those on progress and logs.
pub mod Common
pub mod Uri
pub mod Optimizer
pub mod CommandLine
pub mod Executor
pub mod Jobs
pub mod ConcurrentQueue
pub mod Heartbeat
pub mod Transfers
pub mod UrlCopy
pub mod Scheduling
pub mod Messages
