-- ===== src/Lib.antt =====
-- vlessvmorectl is a panel for several vlessvmore nodes. This library models its web client, in
-- web/src: what the panel concludes from the answers of the nodes, and what it keeps in its cache.
--
-- How the parts interact. A request goes through a dispatcher to a transport (api/dispatcher.ts). An
-- answer with an error status becomes a failure (api/errors.ts), which decides whether its query is
-- retried and how it is polled (queries/client.ts). Answers are kept in a query cache under a hierarchy of keys (queries/keys.ts). Mutations send bodies (api/patch.ts),
-- change the cache ahead of the answer, roll back where it is an error, and record a change that was
-- saved but did not go live (queries/hooks.ts, queries/reloadWatch.ts). The screens show what is
-- derived from the cache: the status and quota of a user (lib/format.ts), a subscriber's entries
-- joined with the nodes' lists (features/subscribers/resolve.ts), and the usage charts
-- (lib/range.ts, features/usage/series.ts).
--
-- Which file models which part:
--   Base         shared names, tests on numbers, lists, JavaScript's string operations and Map
--   Json         JSON values, and the JavaScript operations that the client applies to them
--   Types        web/src/api/types.ts: the wire types
--   Errors       web/src/api/errors.ts: VlessFailure, classify, describeFailure, isTransient,
--                isTerminal (Classify: what a response becomes; Policy: retried or final)
--   Transport    web/src/api/request.ts and web/src/api/transport.ts: requests, and a transport as an
--                interface
--   Dispatcher   web/src/api/dispatcher.ts: call, parse, withSignal (Calls)
--   Client       web/src/queries/client.ts: pollWithBackoff and retry (Backoff)
--   Patch        web/src/api/patch.ts: Tri, UserPatch.toBody, UserCreate.toBody (Body: the keys;
--                Decode: the node's reading of a body)
--   Format       web/src/lib/format.ts: userState, quotaState, serverLabel (Status),
--                formatRelative (Relative)
--   Resolve      web/src/features/subscribers/resolve.ts: resolveEntries (Entries, States),
--                summariseEntries (Summary)
--   Range        web/src/lib/range.ts: PRESETS, snapRange (Snap)
--   Bytes        web/src/lib/format.ts: formatBytes, parseBytes (Digits, Clean, RoundTrip, Exact)
--   Series       web/src/features/usage/series.ts: zeroFill (Grid, Traffic), groupByHours (Group),
--                peakOf (Peak), dayBoundaries, byteTicks (Ticks, with Steps and Honest)
--   Keys         web/src/queries/keys.ts: qk (Ownership)
--   ReloadWatch  web/src/queries/reloadWatch.ts: ReloadWatch, useReloadProblem (Store)
--   Hooks        web/src/queries/hooks.ts: useReloadAware, usePatchUser, useDeleteUser,
--                usePatchSubscriber (Users), over the query client's interface (Client);
--                Optimistic and Reloads are about the cache and about the reload watch; Identity:
--                the hooks of the session, of passkeys, of subscribers, and useReloadNode
--   Ceremony     web/src/features/passkeys/webauthn.ts: exclusive and abortPendingCeremony as steps
--                (InFlight)
--   CreateUser   web/src/features/users/CreateUserDialog.tsx with useCreateUserOnServers of
--                web/src/queries/hooks.ts: one user on several nodes (Retry)
--   Actions      web/src/api/actions: the request of each action (Paths; Passkeys: passkeys.ts)
--   UserDetails  web/src/features/users/UserDrawer.tsx: the Details form (Save: its patch; Quota: the
--                quota that it shows)
--   AttachEntry  web/src/features/subscribers/AttachEntryDialog.tsx: the picked accounts and their
--                submission (Keys, Picks, Submission, Retry)
--   ErrorState   web/src/components/ErrorState.tsx: explain, unreachableBody (Message)
--   NodeLists    web/src/queries/hooks.ts: useUsersByServer (Isolation), useServerNames (Names)
--   Boundary     web/src/components/Boundary.tsx: ErrorBoundary as steps (Latch)
--   Session      web/src/App.tsx: the epoch and the screen of the panel (SignIn)
--   Sorting      Array.prototype.sort with the comparators of the screens (Laws, Unique, Keep, Chain)
--   Tables       web/src/routes/ServerPage.tsx: the table of users (Users);
--                web/src/routes/SubscribersPage.tsx: the rows of the subscribers (Subscribers)
--   QrMatrix     web/src/components/QrMatrix.tsx: the runs of dark modules (Paint)
--   Base64Url    web/src/lib/base64url.ts: toBase64Url, fromBase64Url (Groups, Alphabet, Written,
--                RoundTrip)
--   Access       web/src/access/copy.ts: entryStatus, with the tone of a row of
--                web/src/routes/ServerPage.tsx (Agreement)
--   AccessToken  web/src/access/token.ts: tokenFromPath (Links)
--   Passkeys     web/src/features/passkeys/webauthn.ts: passkeysSupported, passkeyFailure
--   WebAuthn     web/src/features/passkeys/webauthn.ts: the conversions of the options and of what
--                createPasskey and getPasskeyAssertion get from the browser (Options, Answers)
--   ConditionalPasskey  web/src/features/passkeys/useConditionalPasskey.ts: a run of the effect as
--                steps (Stops: after a stop or the cleanup; Late: a stop that comes too early)
--   Notices      loginMessage, passkeyMessage, accountMessage, message and registerMessage of
--                web/src/routes and web/src/features/passkeys/PasskeysCard.tsx (Disclosure)
--   AccountForms web/src/routes/AccountPage.tsx: the forms for password and username (Password)
--   Holders      web/src/features/users/UserSubscribersSection.tsx: who holds an account (Partition)
--   SubscriberDrawer  web/src/features/subscribers/SubscriberDrawer.tsx: Details (Save), and what a row
--                says of its account (Rows)
--   Dialogs      web/src/components/ui.tsx: Dialog (Escape) and ConfirmDelete (Delete)
--   CopyButton   web/src/components/ui.tsx: CopyButton (Timer), SecretField, cx
--   AccessCard   web/src/access/AccessEntryCard.tsx: the card of an account (Credentials)
--   AccessPage   web/src/access/AccessPage.tsx and fetchAccess.ts: the share page over its requests
--                (Requests)
--   Urls         web/src/api/transport.ts: what ProxyTransport hands to fetch (Target), and the drawer
--                in the address of web/src/routes/ServerPage.tsx; Plain is an instance of URL
--   Queries      web/src/queries/hooks.ts: the options of every query hook (Requests, Polling)
--   Theme        web/src/lib/theme.ts: the theme of a page and what is kept of it (Kept)
--   UsageChart   web/src/features/usage/UsageChart.tsx, with the columns that UserDrawer.tsx feeds it
--                (Figures)
--   UserDrawer   web/src/features/users/UserDrawer.tsx: the tiles and buttons, the expiry (Expiry), the
--                connection and its rotation (Connection)
--   PasskeysCard web/src/features/passkeys/PasskeysCard.tsx: the card, its rows and its confirmation (Rows)
--   PasskeySteps web/src/queries/hooks.ts: the steps of useRegisterPasskey and usePasskeyLogin (Order)
--   Overview     web/src/routes/OverviewPage.tsx: the card of a node (Figures)
--
-- How the state is modelled. A store is a record and a method is a function from it to the new one,
-- with the listeners it calls beside it where there are any. What throws returns a result. A mutation
-- is one function from the cache and the watch, and from what its request came to, to the cache and
-- the watch after it has settled: runs of two mutations that overlap are not modelled. The
-- passkey slot and the conditional request, where overlapping is the point, are step relations; what the
-- browser promises, to reject a ceremony that was aborted, is a condition of a step. A name in
-- camel case in the source is the same name in snake case here; patch_entry and delete_entry are
-- patchSubscribersByIdEntriesByEntryId and deleteSubscribersByIdEntriesByEntryId.
--
-- What is a parameter: the exponent that formatBytes takes from a rounded logarithm and the step that
-- byteTicks takes from one (a power of two), localeCompare with the law that its signs agree,
-- toLowerCase, JSON.parse, Date.parse, toISOString, Intl.RelativeTimeFormat, the local
-- calendar of Date, the printing of a number, slice, encodeURIComponent,
-- decodeURIComponent, URL with its searchParams and the law that a printed address reads back, JSON.stringify, localStorage, matchMedia, navigator.onLine, the transport, AbortSignal.any with the law of its documentation, and the query
-- client, with the laws of reading back what was written, of no change by cancelling and
-- invalidating, and of no entry after clearing.
--
-- Bounds. Numbers are natural numbers of any size: byte counts, milliseconds since 1970 and statuses
-- are whole and not negative where these files read them. JavaScript's numbers are exact up to
-- 2 ^ 53, far above the milliseconds of any date and the bytes of any quota that a node reports. A
-- range that would begin before 1970 begins at 0. Three loops are on fuel. The second loop of
-- zeroFill has one more round than the last instant has buckets since 1970, which is enough
-- for any start, since each round moves on by a bucket. Those of byteTicks and ticksUpTo have one more
-- round than the peak has bytes: each round of the one doubles the step, which stops it when the step
-- reaches the peak, and each round of the other moves on by at least a byte. A printed number has fuel
-- above itself, since each digit divides it by ten.
--
-- Not modelled: the rounding of decimal numbers of more than 15 digits in a size, the chart's axis for
-- a peak of less than four bytes, the locale's formatters, what the browser does
-- in a passkey ceremony, the rendering of the screens, and the Go backend.
mod Base
pub mod Json
pub mod Errors
pub mod Transport
pub mod Dispatcher
pub mod Client
pub mod Patch
pub mod Types
pub mod Format
pub mod Bytes
pub mod UserDetails
pub mod Session
pub mod Boundary
pub mod NodeLists
pub mod ErrorState
pub mod AttachEntry
pub mod Tables
pub mod Sorting
pub mod Base64Url
pub mod QrMatrix
pub mod Resolve
pub mod Range
pub mod Series
pub mod Keys
pub mod ReloadWatch
pub mod Hooks
pub mod Ceremony
pub mod CreateUser
pub mod Actions
pub mod Access
pub mod Overview
pub mod Theme
pub mod PasskeysCard
pub mod PasskeySteps
pub mod UsageChart
pub mod UserDrawer
pub mod Queries
pub mod Urls
pub mod AccessCard
pub mod AccessPage
pub mod CopyButton
pub mod Dialogs
pub mod AccountForms
pub mod SubscriberDrawer
pub mod Holders
pub mod WebAuthn
pub mod Notices
pub mod ConditionalPasskey
pub mod Passkeys
pub mod AccessToken
