-- ===== src/Lib.antt =====
-- Marvo keeps the notes of its users and runs an agent on schedules. The Go program has a hub that carries
-- the messages of collaborating clients, a calendar of schedules with its queue of runs, a scheduler that
-- works off these runs for all users, a feed of activities that ask the user or tell something, and a queue
-- of deliveries of these activities to outside connectors. This library models these parts and proves what
-- they promise.
--
-- The parts, and where they are:
--
-- Collab/Ring models internal/collab/hub.go's PollClient: the ring of the last messages of one client
-- (push, replaySince). Collab/Hub models the rest of that file, the Hub: the registered clients and the
-- subscriber sets of the notes. A client is an object on a heap and both maps hold pointers to it, so that
-- a change of the object is seen through both. Each method is one function on the hub, under its lock; an
-- id that the method draws is an argument.
--
-- Scheduling models internal/scheduling/schedule.go: Normalize for the four kinds of schedules, and
-- Scheduling/Calendar First, Next and ClampAdaptive. The cron library and the time zone database are the
-- parameter CronLibrary; IsDocumented states that an activation is later than the time asked for and on a
-- whole second, or the zero Time. Instants are natural numbers of nanoseconds from an origin before the
-- zero Time.
--
-- Sql holds how the stores use SQLite: a table is a list of rows, a transaction returns the new tables or
-- an error, and a rollback leaves the tables as they were. Failures of the driver itself are left out.
--
-- Schedules models internal/store/schedule.go over the tables schedules and schedule_runs: Tables (rows and
-- scanning), Edit (Create, Update, Pause, Resume, Complete, Delete), Listing (List, ListRuns), Queue
-- (RunNow, ClaimDue, NextWake), Progress (RenewLease, SetRun..., SetAdaptiveNext, InterruptRun,
-- ListActiveRuns), Finish (FinishSuccess, FinishCancelled, CancelPendingRun, pruning) and Failure
-- (FinishFailure). `clock` is the time.Now() inside a method. Its theorems are in Invariant, Inserts,
-- Steps, Changes, Claims, Notes, Advances, Closings and Reach (the tables at all times), Claimed, Counted
-- and Fencing (claims), Retries, Waits and Moves (the end of a run), Revisions, Wake, Newest (the listing)
-- and Pruned.
--
-- Deliveries models the delivery queue of internal/store/connector.go (ClaimDue, NextDue, MarkSent,
-- MarkFailed, RetryFailed, RetryConnectorFailures), Deliveries/Attempts what
-- internal/delivery/dispatcher.go does with one attempt, and Deliveries/Loop a round of its loop over the
-- users, with the limit of workers; its theorems are in Loop/Capacity and Loop/Attended. Whether the stored
-- configuration of a connector can be decrypted is a parameter.
--
-- Scheduler/WakeQueue models internal/scheduler/wake_queue.go, one wake time for each user in a binary
-- heap; the loops of container/heap (up, down, Fix) are written out. An index out of range is `none`, a
-- panic. Scheduler/Loop models the loop of internal/scheduler/manager.go (Wake, Close, and in run
-- drainWakeups, dispatch, resetTimer and the two branches for a claim that comes back and a run that ends),
-- one event at a time; the claims that run in goroutines are a list. Its theorems are in WakeQueue/Order,
-- Sift, Sink, Content and Valid (the heap), Hasten (SetEarlier) and Popped (PopNext), and in Loop/Kept (no
-- panic), Sound, Limit and Overrun (the limit of workers), Served and Woken (wake-ups), Timer.
-- Scheduler/Worker is the end of a worker in the same file (startWorker after Execute, finishFailure,
-- publishFallbackActivity): it closes the run in the store of schedules and publishes the activities of
-- Scheduler/Notices. Its theorems are in Fenced, Attempts and Once. Scheduler/Active is the map of the runs
-- in progress, with Stop and StopUser; a run is an object with an address, and its context keeps the first
-- cause of its cancellation. Its theorems are in Stops.
--
-- Activities models internal/store/activity.go: the rows and Get, Input (what is accepted), Publish
-- (Publish and its deliveries, HasSourceMessage), Reply (BeginReply, CompleteReply, CancelReply,
-- DetachReplySession) and Feed (List, Counts, MarkRead, Delete). SHA-256, the drawn ids, and Base64 with
-- JSON are parameters. Its theorems are in Choices, Fanout, Lasting, Coherent, Calls and Replies (the
-- states of a reply), Newest and Paging (the cursors), Posted (what is published).
--
-- Base/Partial has the steps that may panic, Base/Order the order of texts, and Flights the goroutines in
-- flight of both loops.
--
-- Recursion is structural throughout, with these bounds. A replay walks over the numbers from the oldest
-- message that the ring still holds to the newest, and their distance is the fuel, which is therefore
-- enough. In the heap an item rises at most as often as its index says and sinks at most as often as there
-- are items, and the fuel is one more. A client that follows the cursors of the feed is given one request
-- more than there are activities.
--
-- The scheduler calls the store of schedules, which calls Scheduling for the next run of a schedule, and
-- publishes activities; publishing an activity queues its deliveries, which the dispatcher takes from the
-- delivery queue.
--
-- Not modelled: the opening of a user's databases, the executor of a run and the renewal of its lease while
-- it executes, the timer of the dispatcher, the stores of notes, memories and devices, the control
-- database, the runtime gateway with its containers, the handlers, and the front end. They are file system,
-- network and process input and output around the parts above, or are still to come.
pub mod Base
pub mod Collab
pub mod Scheduling
pub mod Sql
pub mod Schedules
pub mod Deliveries
pub mod Activities
pub mod Flights
pub mod Scheduler
pub mod Tests
