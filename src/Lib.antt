-- ===== src/Lib.antt =====
-- GuardPipe runs seven security engines over a project (a repository, documents, an attested pentest
-- target) and charges an organisation tokens for each scan. This library models the parts of its Go
-- code that decide who may act, what is scanned, what that costs, how a scan ends, and what its findings
-- come to.
--
-- How the parts interact: the service resolves a scan's engines (Orchestrator), prices them
-- (Billing.Pricing) and charges the organisation before any row exists (Billing.Charge); workers run
-- the jobs, record each result in one transaction, and ask for a refund where the work was not done
-- (Orchestrator.Worker, Orchestrator.Rows); the last result closes the scan and hands it to scoring.
-- Schedules ask the same service for scans (Orchestrator.Scheduled). A pentest needs a target that the
-- project registered (Project.Targets), which resolves its host first (Validate).
--
-- Which file models what:
--   Prelude      lists, tests and signed integers over the native numbers
--   Errors       internal/platform/errors/errors.go; Go's (value, error) is Result
--   Domain       internal/domain: vocabularies, and ClampPentestScanConfig in Domain.Pentest
--   Billing      internal/modules/billing and internal/store/repo/billing_repo.go:
--     Catalog, Pricing    catalog.go, pricing.go
--     Store               the rows of one organisation and the queries of billing_repo.go
--     Tokens              addBucket, moveTokens, expireBucket, grantPlanTokens, withOrg
--     Charge              Estimate, Charge, ChargeAI, RefundJob, AdminAdjust and the plan gates
--     Checkout            StartCheckout, GetCheckout, ConfirmDemo, fulfil, SetCancelAtPeriodEnd
--     Renewal             renewLocked, RenewDue, AdminAdvanceCycle
--     History             those operations as one type, and their histories
--     Conserved, Audit, Take, Spend, Exact, Frame, Retry, Refunds, Paid, Granted, Cycle,
--     Replaced   proofs
--   Orchestrator internal/modules/orchestrator and the repositories of scans, jobs and results:
--     Rows                job_result_repo.go, scan_repo.go, scan_job_repo.go
--     Worker              worker.go and cancel.go
--     Engines, Create     resolveEngines, CreateScan and PreviewScan in service.go
--     Progress            progress_store.go and GetProgress
--     Workspace           workspace.go, as a step relation on one shared workspace
--     Schedules, Scheduling   schedule.go, scheduler.go and scan_schedule_repo.go, over a ScanService
--     Scheduled           CreateScan as that service
--     Once, Finish, Refund, Choice, Created, Spaced, Ticks   proofs
--   Project      internal/modules/project, and its repositories:
--     Crypto              internal/platform/crypto/aesgcm.go
--     Store               the rows and queries
--     Service             getOwnedProject, SetCredential, RemoveCredential, GetCloneInfo
--     Targets             RegisterTarget, AttestTarget, RevokeTarget, AdminRevokeTarget, GetAttestedTarget
--     Collaborators       InviteCollaborator, RevokeCollaboratorInvite, RemoveCollaborator
--     Requests            the operations of a project's owner as one type, and their histories
--     Credential, Frame, Elsewhere, Writes, Confined, Public   proofs
--   Scoring      internal/modules/scoring:
--     Floats              what the score takes from float64 and math
--     Compute             scorer.go and types.go
--     Counts, Floor       proofs
--   Pentest      internal/engines/pentest/correlation:
--     Confidence          confidence.go
--     Correlator          correlator.go and dedupscope.go
--     Groups, Grouping    proofs
--   Gemini       internal/adapters/gemini, with the request to the API as a parameter:
--     Rotation            rotation.go, and Complete in client.go
--     Tried               proofs
--   Identity     internal/modules/identity, and the repositories of users and refresh tokens:
--     Store               the rows and queries
--     Service, Sessions   Register; Login, Refresh, Logout, CheckSuspension and the two switches
--     Requests            those operations as one type, and their histories
--     Moves               the abstract view of the table of refresh tokens
--     Refines, Live, Ended, Widened, Lockout   proofs
--   Organization internal/modules/organization, and the repositories of memberships and invitations:
--     Store               the rows and queries
--     Service             UpdateMemberRole, RemoveMember, SwitchOrg and their checks
--     Invites             CreateInvite, RevokeInvite, AcceptInvite, DeclineInvite, ListMyInvites
--     Requests            those operations as one type, and their histories
--     Steps, Answers      what an operation may do to the table of invitations
--     Sums, Admins, Grows, Kept, Keys, Closed, Once   proofs
--   Validate     internal/platform/validate/target.go:
--     Address             isBlockedRange, and the classifiers of package net
--     Target              ResolveTarget, normalizeTargetHost and hostDenied
--     Ranges, Allowed     proofs
--   Middleware   internal/transport/http/middleware/ratelimit.go
--   Tests        the theorems at concrete inputs
--
-- Conventions: identifiers and times are natural numbers, times in nanoseconds; an idempotency key
-- is a constructor with the values that its text is built from, which that text determines; a Go
-- int that can be negative is an integer of Prelude, or is written so that it stays at or above 0.
-- In billing one Store holds the rows of one organisation, and every operation is a transaction on
-- it: it returns new rows, or an error and no change. A CHECK that refuses a write is an internal
-- error. The loop of a renewal keeps the thirteen rounds of the source as fuel: how far they reach
-- is a result below. A call of Gemini tries as many keys as the pool has, which is a result below.
-- Go's calendar arithmetic is a parameter, a record of functions of which only stated laws are
-- used. Signing in and the operations on organisations are no transactions: what one wrote stays
-- when it fails later. Each call is one step all the same, so results on histories speak of
-- requests one after another; where the source leaves room for two at the same time, as Refresh
-- does, they say nothing of them. Texts are folded and trimmed, and tokens and passwords hashed and
-- signed, by the functions of a record Env, of which nothing is assumed. Floating-point numbers are
-- the functions of a record Floats in scoring, of which only the laws of FloatLaws are used; they
-- hold of finite numbers whose rounded value is a Go int. The order in which Go visits the map of
-- the engines that ran, and so adds their weights, is an argument of the score. What the name
-- server answers is an argument of each call, and Go's functions on texts and URLs a record
-- Network, of which nothing is assumed. Cron expressions are parsed by a record Cron; the library
-- gives an expression that never comes round the zero time, and a result that needs it to come
-- round says so. AES-GCM is a record Aead, of which only that it opens what it sealed is used.
--
-- Not modelled: failures of the database and of other services inside a transaction (they roll it
-- back) and, where no argument of the model stands for them, outside one; audit rows, texts of errors, views and pages, and the components that run external tools or
-- only move data. A price's factors (0.6, 2, 0.5) are exact fractions: at every catalogue price the
-- floating-point product of the source is the same number.
pub mod Prelude
pub mod Errors
pub mod Domain
pub mod Billing
pub mod Orchestrator
pub mod Pentest
pub mod Gemini
pub mod Identity
pub mod Organization
pub mod Project
pub mod Scoring
pub mod Middleware
pub mod Tests
pub mod Validate
