-- ===== src/Lib.antt =====
-- Verification of ai-agentic-english, an English learning application: a Next.js web
-- application, TypeScript services for users, learning materials and notifications, and Python
-- agents.
--
-- The parts and how they interact. The web application holds a spoken conversation over a
-- socket (Speaking), takes the learner through the placement test (Assessment) and turns its
-- result into a request for a learning path (Onboarding), which its own API route checks and
-- passes on. The learning-materials service scores the placement test (Scoring), keeps the
-- learning paths and answers the review center (ReviewCenter) with flashcards and grammar sections
-- (Materials). The web application shows exercises, the active path and past conversations
-- (Practice), whose audio, like that of the placement test, comes by presigned URLs that it
-- caches (Audio). It also retries its requests (Client) and queues reviews while it is offline
-- (Offline). The user service keeps users and settings, follows Clerk's webhook and publishes
-- what happened (Users). The notification service consumes those events, keeps push
-- subscriptions and runs the hourly reminders (Notify); a deleted account is followed from the
-- one service to the other, and a push subscription from the web application's route to the service (Pipeline). All
-- services share errors and types (Shared).
--
-- Which file models which code:
--   Speaking/Types: apps/web/app/main/practice-center/_types/speaking-realtime.ts.
--   Speaking/Words, Session, Speech, Turns, Recording, Connection: the text helpers, the state and
--     refs, the reveal of a spoken reply, sendText and the transcript, the microphone, and the
--     socket of apps/web/app/main/practice-center/_hooks/useSpeakingRealtimeSession.ts. Each
--     callback and event listener is one function on `Session`; Speaking/Run collects them as the
--     steps of a run, and Speaking/Waiting those that can come while a turn waits for its answer.
--   Notify/Consumers: services/notification-service/src/kafka; Notify/Push: src/lib/webPush.ts;
--     Notify/Scheduler: src/scheduler; Notify/Subscriptions: src/routes/pushSubscriptions.ts.
--   Users/Settings, Time: services/user-service/src/lib/validateSettingsUpdate.ts; Users/Clerk:
--     src/lib/clerkWebhookEvent.ts; Users/Accounts, Routes: src/routes, src/events and
--     src/lib/userMapper.ts.
--   Scoring/Score: services/learning-materials-service/src/scoring/assessmentScorer.ts and POST
--     /score of src/routes/assessment.ts.
--   Onboarding/Request: apps/web/app/onboarding/_utils/onboarding-request.ts; Onboarding/Route:
--     apps/web/app/api/orchestrate/onboarding/route.ts.
--   Assessment/Prompt, Test, Player: apps/web/app/onboarding/_components/AssessmentQuestion.tsx: the
--     choice and the prompts of the questions, the state of the page with its handlers and buttons,
--     and the locked audio player. Assessment/Flow collects the handlers as inputs of a run.
--   Audio/Cache, Hook: apps/web/lib/audio.ts: the cache of URLs, and usePresignedAudioUrl.
--   Practice/Catalog, ActivePath, History: practice-catalog.ts, active-path.ts and
--     speaking-history.ts of apps/web/app/main/practice-center/_lib; Practice/Panel:
--     _components/QuestionPanel.tsx beside it; Practice/Decimal: `String` of a whole number.
--   Client/Fetch: apps/web/lib/api/client.ts. Offline/Reviews: apps/web/lib/offline/reviews.ts.
--   Materials/Paths, Catalog: the learning paths and the catalogue summary of
--     services/learning-materials-service/src/routes/internal.ts; Materials/Titles, Mappers:
--     src/lib/mappers.ts of that service; Materials/Review: its src/routes/review.ts.
--     Of the routes of that file GET /grammar/lessons/:id is modelled whole, with `requireAuth` and a
--     query that may fail; the others are their handlers, as they run for a user whose queries succeed.
--   ReviewCenter/Api, Cards: apps/web/app/main/review-center/_lib/review-api.ts. ReviewCenter/ApiLaws
--     joins the page of a grammar lesson with that route, over a gateway that may not be reached.
--   Pipeline/Deleted: an event of services/user-service/src/events as the consumer of
--     services/notification-service/src/kafka reads it.
--   Pipeline/PushProxy: apps/web/app/api/push/subscribe/route.ts.
--   Shared: packages/shared/src (errors, types, and the guards in Shared/Auth), JSON values, and
--     handlers that may throw.
--   Prelude: lists, texts, JavaScript's Map, Booleans and integers over the native numbers.
--   The files named Examples hold concrete runs.
--
-- State and errors. A handler is a function from the state to a result and the state; what was
-- written before a throw stays written. Database rows are lists; uniqueness of a column
-- that the code writes is proved, not assumed. Fresh ids, times, and the answers of Clerk, svix, Novu,
-- the push services, the time-zone library and the other services are arguments. The delete that
-- follows a push to a subscription that is gone may fail, which is swallowed. The onboarding route takes
-- an empty user id or token for a missing one.
--
-- Bounds and modelling choices. The fuel of `chunk` is the length of the list, which is enough
-- for every size above 0; that of `digits` is the number that is printed, which has no more
-- digits. A request and its answer are two steps, between which other steps may come. Positions
-- of audio and ages of URLs are whole milliseconds. `sort` is a stable insertion sort. Question
-- ids are no names of JavaScript's own object properties. React's state is updated when a
-- handler returns, and a callback reads the state of the latest render. The requests of one
-- `Promise.all` run in their order. Texts that the code walks are lists of UTF-16 code units in
-- Speaking, and texts of the library elsewhere, measured in characters. `localeCompare`, the
-- case mappings of Unicode, the formats of dates and `JSON.parse` are arguments. A quotient
-- compared with 0.6 and the rounding of a mean of at most three scores are in exact arithmetic,
-- with which JavaScript's agrees at those values.
--
-- Not modelled: the Python agents, the React components but for the placement test and the
-- question panel, what components only render, the paged lists and mappers for internal use of
-- the learning-materials service, the offline package, the Next.js proxies that only forward,
-- tests, seeds, generated clients, infrastructure, and the libraries that the source calls.
pub mod Prelude
pub mod Speaking
pub mod Shared
pub mod Notify
pub mod Users
pub mod Scoring
pub mod Onboarding
pub mod Client
pub mod Materials
pub mod Offline
pub mod Audio
pub mod Assessment
pub mod Practice
pub mod Pipeline
pub mod ReviewCenter
