-- ===== src/Lib.antt =====
-- A model of the CrewIM server (server/internal of this repository, written in Go) and the theorems
-- about it. A manager sends a command as text, audio or images; the server stores it as a task, lets
-- a language model read it and plan it, asks for a confirmation where the plan wants one, carries
-- the plan out with an agent that calls tools, and pushes every stage to the manager's devices.
--
-- The parts, with the files that model them:
--   Prelude        names and lemmas that all parts share: tests on numbers, lists, byte strings, texts,
--                  results.
--   Sms            sms/sms.go: `CodeStore` with `CheckRateLimit`, `Generate`, `Verify` and one tick of
--                  `cleanup`, each done before the next. Maps are functions to an option; the
--                  clock and `rand.Intn` are arguments.
--                  Below it Sms/Codes and Sms/Cleanup prove what the codes are good for.
--   Auth           handler/auth.go: `SendCode`. Auth/SendCode/Runs has the runs of the server as lists
--                  of requests, Auth/SendCode/Pacing the rate of codes over such a run, and
--                  Auth/SendCode/Cleanups compares it with the run without cleanups, by the
--                  simulation of Auth/SendCode/Alike; Auth/SendCode/Once follows a code that was used.
--                  Auth/Login has `Login` and `RefreshToken`, Auth/Login/Grants who gets a token.
--                  Auth/DeleteAccount has `DeleteAccount`, and Auth/DeleteAccount/Rest what it leaves.
--   Middleware     middleware/auth.go: `SignToken` and `JWTAuth`; Middleware/Tokens has the laws of a
--                  token. Middleware/Cors is middleware/cors.go.
--   Crypto         crypto/encrypt.go: `Encrypt` and `Decrypt`; Crypto/Laws has the laws of a cipher.
--   Accounts       handler/accounts.go: creating, listing and deleting the accounts of other
--                  services, whose credentials Accounts/Credentials follows to the email tool.
--   Users          handler/users.go: the profile and the rules of a user.
--   Model          model/*.go: tasks, statuses, plans, push events as records and data types.
--   Claude         ai/claude.go: the client of the language model. Claude/Model has the requests and
--                  answers, Claude/Client `NewClaudeClient`, `Call`, both requests and the helpers.
--   World          db/db.go and what the handlers reach: the tables as lists of rows, the pushes that
--                  were sent, the jobs that were enqueued, the routines that were started. `Io` is a
--                  state monad over it. World/Table has lookups and updates by primary key, World/Foreign
--                  says what leaves alone the rows of other users.
--   Tools          tool/registry.go: `Register`, `Get`, `Execute` (Tools/Registry), and the tools of
--                  memory.go, task_item.go, reminder.go, document.go and email.go, one module each;
--                  Tools/Box puts them together.
--   Runner         service/runner.go: `AgentRunner.Run`. Runner/Frames says, for any relation of worlds that
--                  the tools respect, when a run respects it.
--   Orchestrator   service/orchestrator.go: `Execute`, `failTask`, `generateFailSuggestion`.
--                  Orchestrator/Frames is the same for an execution, Orchestrator/Foreign uses it
--                  with the tools of Tools/Box, Orchestrator/Jobs is about the jobs.
--   Understanding  service/understanding.go and ai/prompts.go: `Understand`; Understanding/Context has
--                  its queries, Understanding/Prompt the prompt, Understanding/Title
--                  `autoTitleSession`, Understanding/Foreign what a reading leaves alone.
--   Tasks          handler/tasks.go: `ConfirmTask`, `CancelTask`, `RetryTask`, `PauseTask`,
--                  `ResumeTask` and `BatchConfirm`; Tasks/Listing `ListTasks` and `GetTask`, where the
--                  order that a query gives tasks of one time is a parameter.
--   Commands       handler/commands.go: `CreateCommand`, `routeViaOpenClaw`, `FollowUp`, and
--                  `GetGatewayURL` of openclaw/client.go; Commands/Body reads the request.
--   Queue          queue/worker.go: the two channels and the workers as a system of steps. A worker that
--                  returns after `Stop` stays at its place, without a move. Queue/Ledger keeps
--                  the books of a task in it, Queue/Bounds, Drain and Progress are about its states,
--                  its end and that it never stops before.
--   Hub            ws/hub.go: the map of connections, `HandleWS` and `Send`; Hub/Handshake has the server
--                  with all its connections as a system of events.
--   Sessions       handler/sessions.go: creating, listing, renaming and deleting sessions; Sessions/Owners
--                  has the requests of several users.
--   Scheduler      queue/scheduler.go: `processDueJobs`, `executeJob`, `parseCronNext` and `loop`;
--                  Scheduler/Times, Steps and Pass follow a time, a job and a pass, and
--                  Scheduler/Reminders a reminder from its tool on.
--   Server         all of these at work on one world: a list of moves, each of which is a request, a
--                  command, a job of a worker, a routine or a tick, done to its end. Server/Waiting
--                  is about the jobs that wait, Server/Workers about the workers, Server/Pending
--                  about the moves, Server/Drain about the end of the jobs,
--                  Server/Spared about tasks that no move is about,
--                  Server/Owners the same with the other requests of users,
--                  Server/Foreign about what a job leaves alone.
--   OpenClaw       openclaw/client.go: the connections to the gateways and the goroutines around them
--                  as a system of events; OpenClaw/Sound has its invariant, OpenClaw/Registered the
--                  states that are reached.
--   Push           push/apns.go: `Push`, `RegisterToken`, `NewPusher`.
--   Tencent        the senders of sms/sms.go with the signature of their requests.
--   Speech         asr/tencent.go and ai/whisper.go: the transcribers; Speech/Signatures compares the
--                  two signatures.
--   Database       db/db.go: `Connect`, `Close` and `Migrate`.
--   Config         config/config.go. Uploads: service/upload.go.
--   Checks         the theorems at concrete inputs, and runs of the code.
--
-- How they interact: a handler (Auth, Tasks, Commands) is a function of the request and of the world;
-- it replies, changes rows, pushes events and leaves jobs. The jobs are the names of tasks for the
-- workers of Queue, which run `understand` and `execute`, each a function of the world too;
-- `execute` runs the agent of Runner for each step of the plan, which asks the client of Claude and
-- calls tools by their names in a registry. The scheduler runs the reminders that a tool has stored.
-- Server puts them together, since the package main of the server is not in the repository; what
-- several moves do at the same time is in Queue, Hub and OpenClaw only, where steps interleave.
--
-- What comes from outside: `Services` has, by the number of the request made, whether a statement of
-- the database succeeds, the clock, the next identifier, and what the two model services answer.
-- Constraints of the schema that are not written out, most foreign keys, are among the reasons for
-- which a statement may fail. `json.Unmarshal` of the plan is a parameter of the reading, and the
-- outcomes of uploads, transcription, SMS and gateway come with the request. Identifiers are numbers;
-- where a text from outside goes into a UUID column, `TaskRef` keeps the texts that are none. Phone
-- numbers and codes are lists of bytes.
--
-- Bounds and fuel: the agent's loop runs on the rounds that are left, of which `maxRounds` gives ten,
-- so its fuel is the source's own bound. The other loops are recursion on the list that the source
-- ranges over. The queue has no loop but steps; the load of a state bounds how many of them the
-- workers can make.
--
-- Not modelled: the texts of the migrations, HTTP routing and most headers, the bytes on the
-- sockets of hub and gateway, logging and the health check, which are input and output or text only;
-- and the Flutter client. What the server leaves to libraries and to other services is a parameter:
-- golang-jwt, the ciphers and hashes, RFC 3339 and `time.Date`, `json.Marshal`, `fmt.Sscanf`,
-- `smtp.SendMail`, the file system, and the answers of Tencent Cloud, Whisper and Apple. Where a
-- theorem relies on one of them, a record of laws says what for.
mod Prelude
pub mod Sms
pub mod Auth
pub mod Model
pub mod Claude
pub mod World
pub mod Tools
pub mod Runner
pub mod Orchestrator
pub mod Understanding
pub mod Commands
pub mod Tasks
mod Checks
pub mod Queue
pub mod Hub
pub mod Sessions
pub mod Middleware
pub mod Crypto
pub mod Accounts
pub mod Scheduler
pub mod OpenClaw
pub mod Users
pub mod Push
pub mod Tencent
pub mod Speech
pub mod Config
pub mod Database
pub mod Uploads
pub mod Server
