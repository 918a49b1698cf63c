-- ===== src/Lib.antt =====
-- The monitoring pipeline of Radio-Broadcast-Analysis: the parts that decide what is kept, what is
-- delivered and what becomes a conversation.
--
-- A supervisor gives the stations their turns in a bounded number of sessions. A session keeps the
-- last minute of its station's audio in a ring buffer, classifies it window by window, and cuts the
-- segments that the rolling policy keeps from it; queues with the semantics of SQS FIFO carry the
-- segments from stage to stage, in order within a station; a transcriber attaches the text and the
-- keyword matches; the assembler folds the transcribed segments of a station into conversations,
-- and emits those with evidence of a keyword for analysis.
--
--   Queue.antt, Queue/         app/pipeline/queue.py. MemoryQueue is a record; each method is a
--       function from the queue and the clock's reading to the reply and the new queue. The lock is
--       held throughout each method, so an execution is a list of calls (Queue/History.antt).
--   RingBuffer.antt, RingBuffer/   app/services/ring_buffer.py. Bytes are numbers; the buffer is a
--       list of the size of the capacity. A raised RingBufferError, ValueError or ZeroDivisionError
--       is a value of Error. RingBuffer/Refinement.antt relates the buffer to the stream of all the
--       bytes that were appended since the last reset.
--   Audio.antt, Audio/         app/services/audio_classifier.py: the rolling policy. Audio/History.antt
--       says what its state is in terms of all the verdicts since the reset.
--   Stream.antt, Stream/       app/services/stream_supervisor.py: StationSession is Session. A step that
--       can raise returns the error beside the session; _classify_ready_windows runs on fuel, with
--       one unit more than the position in milliseconds, and each turn moves on by a window.
--       Stream/Run.antt is the loop of run over the connections, each with what the network does.
--   Supervisor.antt, Supervisor/   the same file: StreamSupervisor, its sessions by station.
--   Matching/                  app/services/keyword_matcher.py and app/pipeline/enums.py: a match
--       and the levels that need confirmation (Matching/Data.antt), with confidences in hundredths,
--       _deduplicate (Matching/Selection.antt), which compares the lengths of the matches without
--       subtracting, and _within_edit_distance (Matching/Fuzzy.antt), with texts as lists of code
--       points; a row of its table is the first value and the list of the others.
--   KeywordIndex.antt, KeywordIndex/   app/services/keyword_index.py: the index of a station and its
--       payload; a JSON value is a data type of its own (KeywordIndex/Json.antt).
--   Conversation.antt, Conversation/   app/services/conversation_assembler.py. StationState is
--       _StationState; observe_station is the body of observe, in the steps enter_session (a
--       reconnect), close_on_gap, record_sequence, take_in and close_if_exhausted; close_station is
--       _close; Conversation/Assembler.antt is the dict of stations.
--   Outbox.antt, Outbox/       app/pipeline/outbox.py. The table is a list of rows and each statement
--       a function on it; dispatch_once is the cycle of a dispatcher, whose queues and clock answer
--       by the event. A stored timestamp is the time it names, compared by its text (iso_leb), which
--       Prelude/IsoFormat.antt gives. Outbox/Fates.antt says what becomes of a row.
--   Inbox.antt, Inbox/         app/pipeline/idempotency.py and errors.py. process_one is a turn of the
--       loop of poll_once over the in-process queue; the handler is a parameter, and what the
--       theorems ask of it is its contract in the docstring of poll_once (IsDurable).
--   Heartbeat.antt, Heartbeat/ app/pipeline/heartbeat.py: the heartbeats of the workers and the
--       coverage of shards; Heartbeat/Jobs.antt is StaleJobSweeper.
--   Monitoring.antt, Monitoring/   app/db_catalog.py and app/services/monitoring.py: the references of
--       campaigns to stations, the stop timers and the station jobs; a Store is the tables they
--       use.
--   Planner.antt, Planner/     app/services/subscription_planner.py: the planning cycle; the table of
--       subscriptions is a dict by its primary key, and each statement a function on it.
--   Shards.antt                app/pipeline/ids.py: valid station ids and the owner of a station.
--   Prelude.antt, Prelude/     lists over native numbers, dicts as association lists in insertion
--       order, a stable sort, the order of texts.
--
-- The planner turns the keywords of the active campaigns into one subscription per station, in the
-- shard that listens to it. Producers record messages in the outbox with their business rows; the
-- dispatcher sends them to a queue; the consumer's inbox makes a redelivery a no-op; the sweeper
-- returns the jobs of workers whose lease has lapsed.
--
-- Times are natural numbers: seconds of the clock in the queue, milliseconds in the ring buffer and
-- the sessions, microseconds elsewhere. A comparison that subtracts in the source is written with
-- the addition on the other side where the difference could be negative. The code is in Python, so
-- integers have no width. Every loop but one runs over a list, and that one (the windows that are
-- ready) ends by its own test. Sets are lists without duplicates. A text is a list of code points
-- where the code cuts it, and a native string where it only compares it.
--
-- Taken as parameters: uuid5, str.isspace, the float product int(seconds * 1000), random.random,
-- BLAKE2b, and what str, int and float make of a JSON value of another kind, which are library code;
-- the replies of queues to the dispatcher and what each read of a connection gives, which are the
-- environment's; and new_id, the fingerprint of an index, the resolver of stream URLs, the
-- classifier of a window and the message handlers, which are code of the repository that the parts
-- modelled here only call.
--
-- Floats are exact: a confidence is a count of thousandths or hundredths, a mean is compared without
-- dividing, and the milliseconds of a buffer are rounded as rationals, which is what Python's floats
-- give below 2 ** 52; a mean of confidences at the limit itself may round to the other side. An
-- error of the database or of a cancelled task, which leaves a function as an exception and is the
-- caller's to handle, is no outcome of the model.
--
-- Not modelled: logging, the lock, statistics and age readings, the automaton of the keyword
-- matcher with its timeline and scans, the building of an index from keyword plans, and the parts
-- of the repository that are I/O around a database, SQS, S3, FFmpeg or a language model.
pub mod Prelude
pub mod Queue
pub mod RingBuffer
pub mod Audio
pub mod Stream
pub mod Supervisor
pub mod Matching
pub mod KeywordIndex
pub mod Conversation
pub mod Outbox
pub mod Heartbeat
pub mod Inbox
pub mod Shards
pub mod Monitoring
pub mod Planner
