-- ===== src/Lib.antt =====
-- The server of a football-transfer community: a NestJS program over PostgreSQL, through Prisma, and
-- Redis. Requests pass guards (src/common/guards) that check the token and the state of its account;
-- services change the database; reactions, comments and notifications are written to an outbox, which
-- a dispatcher hands to a queue, whose jobs the reaction processor runs; a pipeline ranks the feed.
--
-- Effects: a call takes the store and returns a result (a value, or the class of the exception) and
--   the store as the call left it. What is written before an exception stays written, except under
--   `$transaction`. All calls run one after another; two requests interleave only between calls.
--   A query fails only where a constraint, a missing row or the range of a column makes it fail.
-- Db, Redis: the clients, which are third-party packages, as interfaces with laws, each with an
--   implementation over lists that meets them (Db.Reference, Redis.Reference).
-- Doubles: the operations on IEEE doubles, an argument of all that computes scores.
-- Auth (src/auth): Tokens is token.service.ts, Passwords is password.service.ts, Verification is
--   email-verification.service.ts, Service is auth.service.ts, Google its `google`; Types has the rows.
--   Rotation, Replay, Reset, Sessions, Accounts, Registration, Names and GoogleLogin
--   are the proofs.
-- Guards (src/common/auth, src/common/guards): StatusCache is user-status.cache.ts, Requests the guards
--   for tokens, roles and API keys, after passport's answer; Admission is the proofs.
-- Users (src/users/users.service.ts): Service has every operation that changes an account, the others
--   are the proofs. The listings are not modelled.
-- Board: the rows and the store of posts, comments, reactions, notifications and the outbox.
-- Scoring (src/common/scoring): the hot score and its update.
-- Notifications (src/notifications): Service has the generation and the reading of notifications;
--   Notices, Telling and Inbox are the proofs.
-- Messaging (src/messaging): Outbox is outbox.service.ts and outbox.dispatcher.ts, Reactions the
--   handlers and Processor the job of reaction.processor.ts; LikeCounts, Likes, Frames, Delivery and
--   Dispatch are the proofs.
-- Votes (src/posts/prisma-post.repository.ts): Service is `vote`, Tally the proofs.
-- Posts (src/posts): Percent is vote-math.ts, Shape post-shape.ts and Service posts.service.ts without
--   its listings, on Votes and on the cascades of Comments; VoteResult, Percentages, Told and Bounds,
--   and Shapes, Keys, Shapely, Processing and Runs are the proofs.
-- Comments (src/comments): Removal is what the foreign keys of prisma/schema.prisma cascade to, Service
--   is comments.service.ts and Tree buildCommentTree of comment.mapper.ts; Threads and Completeness,
--   and Cascade, Links and Runs are the proofs.
-- TransferComments (src/transfer-comments): the rows and the service, which the reports use.
-- Reports (src/reports/reports.service.ts): World joins the stores that a review reaches, Service is
--   the service, Review the proofs.
-- Common: Idempotency is src/common/interceptors/idempotency.interceptor.ts, Cache is
--   src/common/redis/cache.service.ts and Sort is src/common/sort.ts; Once, Freshness and SortKeys are
--   the proofs.
-- Relations (src/blocks, src/follows, src/favourites): Blocks, Follows and Favourites are the services
--   with their repositories, Signals is what they tell the feed; Hidden is the proofs.
-- Transfers (src/transfers): Repository is the writes of prisma-transfer.repository.ts under
--   src/common/prisma/soft-delete.extension.ts, Admin is admin-transfers.service.ts, Rumours is
--   rumour-write.service.ts; Announced and Rights are the proofs.
-- Pagination (src/common/pagination.ts).
-- Feed (src/feed): Types, Filters, Scorers (with the selector), Runner, Sources (with the queries) and
--   Service (with the store of served posts); Filtering, Pool, Completeness, Lasting and Served
--   are the proofs.
-- Samples and the modules named Tests run the definitions at concrete inputs.
--
-- Identifiers are numbers, as they are only compared, and times are milliseconds. The clock, the random
-- source, the hashes, the signer, the mail provider and whether Redis answers are fields of an
-- environment. Recursion is structural, but for two loops on fuel. `walk` of Comments.Tree has the time
-- at which the comment was made, enough since each step goes to an older comment. `search_name` of
-- Auth.Google has one more than the number of users, enough as long as the drawn names differ; the
-- source draws on. A table is a list of rows; which of several matching rows a query returns is left
-- open. Scores are doubles that no law restricts but those that hold of NaN too. A count of likes
-- keeps to the range of its column (SmallInt), out of which the database refuses the update; the other
-- counters are integers without a bound.
--
-- Not modelled: the listings and other queries that change nothing, the statistics of transfers, the
-- ingestion service, throttling, the jobs that call the football API, the record keeping
-- (leagues, teams, players, news, search, profile), and the wiring of the framework. In Feed, what
-- favourites, follows and blocks answer is an argument, which Relations.Signals gives.
pub mod Prelude
pub mod Db
pub mod Redis
pub mod Effects
pub mod Samples
pub mod Auth
pub mod Guards
pub mod Users
pub mod Doubles
pub mod Board
pub mod Scoring
pub mod Notifications
pub mod Messaging
pub mod Pagination
pub mod Votes
pub mod Feed
pub mod Comments
pub mod Posts
pub mod Reports
pub mod TransferComments
pub mod Common
pub mod Relations
pub mod Transfers
