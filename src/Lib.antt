-- ===== src/Lib.antt =====
-- Sealvo: vocabulary learning with spaced repetition. The parts modelled here and where they are:
--
-- - Base: the names that the models share, Boolean tests, lists.
-- - Accounts: apps/api/src/auth. Reset is password-reset.service.ts, Verification is
--   email-verification.service.ts and email-change.service.ts, SignIn is auth.service.ts,
--   token.service.ts and create-user.ts, Google is google-auth.service.ts; Profile is
--   apps/api/src/account/account.service.ts and the clean-up of
--   apps/api/src/maintenance/maintenance.service.ts. All of them work on the tables of Table, the
--   users, pending links and reset tokens, and on the sessions (Session). Life has the statements
--   as steps, Requests the services as sequences of them, between which other requests do any
--   steps. bcrypt, SHA-256, the random secrets, the mail queue and Google are parameters. The
--   other files are proofs.
-- - Activities: apps/api/src/activity/activity-log.service.ts, the journal of a user.
-- - Levels: packages/shared/src/constants/index.ts, the levels `x`, `level_0` .. `v` (spelled
--   `level_x` .. `level_v`), their intervals, and the games of each level.
-- - SpacedRepetition: apps/api/src/common/domain/spaced-repetition.ts, when a word is due.
--   JavaScript's Date and the time zone are the record `Calendar`; `Utc` is an instance.
-- - Cache: the hash operations of apps/api/src/redis/cache.service.ts. Each Redis call is met with
--   one of three fates: answered, not carried out, carried out with the answer lost.
-- - Learning: apps/api/src/learning/learning.service.ts. `trackGameCompletion` stores the game in
--   the hash of the user and package (Cache), asks for the due words (SpacedRepetition) and moves
--   them to the next level (Levels). `checkAndUpdateStreak` counts days.
-- - Resilience: packages/shared/src/resilience/index.ts. `withTimeout`, `withRetry`, the circuit
--   breaker and their composition; a call is given by when and how it settles. The breaker's
--   transitions are a step relation, for calls that overlap.
-- - Session: apps/api/src/auth/session.service.ts. Refresh tokens are created, rotated and revoked
--   on the table of sessions. SHA-256, the random secrets, the clock and what other requests write
--   in between are parameters. Owner has what every write keeps of a session's user.
-- - Throttle: apps/api/src/common/throttler/redis-throttler.storage.ts, the request limits. The
--   script is one step on the two keys of a caller.
-- - Vocabulary: apps/api/src/words (words.service.ts, words-enrichment.service.ts,
--   orphan-details.ts), apps/api/src/packages/packages.service.ts and apps/api/src/prisma/deadlock.ts,
--   on the tables of apps/api/prisma/schema.prisma. Tables has the tables and the statements, Words
--   and Enrichment add words, Editing changes and deletes them, Packages has the packages. The other
--   files are proofs. `Learning.Row` is the row of `learning` in both. Gemini, the collation of the
--   unique key of `words` and the order of strings are parameters; a transaction that InnoDB chose
--   as a deadlock victim is tried three times, and any other error ends the request.
-- - Imports: apps/api/src/rabbitmq/retry-queue.ts and the worker of
--   apps/api/src/import/import-queue.service.ts, which saves a job's words (Vocabulary). Life
--   follows a message from delivery to delivery; its fuel is the number of deliveries, and one that
--   has two of them that are not cut short is enough. The broker is the record `Broker`. Outbox is import-outbox.service.ts beside it, and Bulk
--   is bulk-words.service.ts, which opens a job in the outbox and the journal
--   (Activities), or saves the words in the request.
-- - JobTracker: apps/api/src/import/job-tracker.service.ts, the state of the jobs in Redis, each call of which
--   meets one of the fates of Cache. Imports has a job as the worker sees it.
-- - Games: apps/api/src/games/games.service.ts. The words of a game are the due words of its level
--   (SpacedRepetition, Learning); Racing interleaves the statements of `saveScore`.
-- - Flashcards: apps/web/src/components/learn. Flashcards, State and Events are use-flashcard-session.ts
--   and deck.ts, with the timers and redraws of React as events that come in any order; Storage is
--   progress-storage.ts and apps/web/src/lib/flashcard-progress.ts, over a map for localStorage. The
--   other files are proofs.
-- - WordSearch: apps/web/src/components/games/word-search/grid.ts. The grid is a function of row and
--   column, 0 is the empty cell; a word is tried 100 times.
-- - Reminders: apps/api/src/reminder/reminder.service.ts, the scheduled run: the due words of the
--   active packages (SpacedRepetition) by user, one email each, one run an hour; and the reminder
--   that a user asks for.
-- - Rabbitmq: apps/api/src/rabbitmq/rabbitmq.service.ts, the connection, its channel and its
--   reconnection as a state machine over the events of the client library, whose answers are given.
--
-- Not modelled: controllers and guards, the connections to Redis and MySQL, the templates and the
-- sending of email, the timers of the scheduler, and the pages of the web application, which are
-- glue or I/O; the messages in flight of a RabbitMQ consumer; the events of the job tracker, the
-- queries of the journal and of the dashboard, and the import of files.
--
-- Instants are numbers of milliseconds and are stored as they are given: the rounding of the
-- columns to whole seconds is not modelled; the outbox and the job tracker count
-- in seconds. Identifiers are numbers. No operation here wraps.
pub mod Base
pub mod Accounts
pub mod Activities
pub mod Levels
pub mod Cache
pub mod SpacedRepetition
pub mod Learning
pub mod Resilience
pub mod Session
pub mod Throttle
pub mod WordSearch
pub mod Vocabulary
pub mod Games
pub mod Flashcards
pub mod Imports
pub mod JobTracker
pub mod Reminders
pub mod Rabbitmq
