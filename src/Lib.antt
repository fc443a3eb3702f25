-- ===== src/Lib.antt =====
-- The verification library of tenant_trust, a multi-tenant service that scores the trust of a subject,
-- authorizes its requests, and acts on its access and its certificate. It models the parts that
-- decide: what is read from the request and from the store is an argument, and what is written back
-- is the result.
--
-- The parts, in the order in which a request passes them.
--   Access: who asks. Access.Context is packages/tenant-context/src/index.mjs, with the set of resolved
--     contexts as a Store of references that each call takes and returns. Access.Roles is
--     packages/authorization/src/index.mjs, which takes a resolved context. Access.Isolation,
--     Access.Claims, Access.Matrix and Access.Modes hold what they guarantee.
--   Certificates: packages/certificate-status/src/index.mjs, whether the certificate of a request is
--     accepted (Status), when it is (Acceptance) and what a client is told (Responses). The repository
--     that loads a record, with its race against the timeout, is a parameter.
--   Trust: how far the subject is trusted. Trust.Model is packages/trust-model/src/index.mjs.
--     Trust.Score is services/trust/src/weighted-score.mjs, Trust.Smoothing is
--     services/trust/src/temporal-smoothing.mjs (Decode: the arguments, Advance: a step), and
--     Trust.Controls is services/trust/src/trust-transition-controls.mjs (Decode: the configuration and
--     the arguments, Apply: an evaluation). The score of the first is the observation of the second,
--     and the score of the second the candidate of the third. Trust.Rounding is roundScore.
--   Policy: services/policy/src/adaptive-authorization-policy.mjs, the data that the policy engine
--     gets for a tenant (Policy.Rules, Policy.Configuration). Accepted and Guarantees hold what it
--     guarantees. apps/api/src/policy-enforcement.mjs asks the policy engine: Input is what it is
--     asked with, Canonical the text of an input that is hashed, as the list of its parts, Client the
--     exchange with the engine, and Enforcement the service; Answered and Enforced hold what an
--     enforced decision rests on. The schemas, the hash, the exchange, the lookups and the two
--     readings of the monotonic clock are parameters.
--   Orchestrator: services/orchestrator/src/index.mjs, what is done to the subject. State and
--     Actions are the state machine of the security actions, Evidence the arguments with Kinds, the
--     set of the kinds of evidence, Triggers the rules that turn a policy outcome, a trust
--     transition and severe evidence into actions, and Recovery the rules that end them.
--     services/orchestrator/src/action-orchestration.mjs carries a claimed action out: Execution is
--     its executor, whose services are parameters, and Worker a run of the worker, which takes the
--     executor and the repository and notes its calls in their order. Lifecycle, Sequences,
--     Outcomes, Eligibility, Delivery and Retries hold the guarantees.
--   Orchestrator.Invalidation: services/orchestrator/src/security-state-invalidation.mjs, which ends the
--     sessions of a subject. Redis is the interface of the commands that the scripts call, with their
--     documented effect, and Memory a Redis in memory that has it; Scripts are the two Lua scripts,
--     Keys the keys of a tenant, Store the methods of the store, and Worker a run of the worker. Effect,
--     Applied, Purge, Once, Registered, Delivery and Completion hold the guarantees.
--   Orchestrator.Governed: services/orchestrator/src/governed-recovery.mjs, an administrator asks
--     for the end of an action. Request holds the checks of the request, of the loaded context and
--     of the confirming row, and Service the service, which takes a resolved context of Access and
--     the recovery rules of Orchestrator; Evaluated, Steps and Guarantees hold the guarantees.
--     The database, the hash, the identifiers and the clock are parameters.
--   Js: the values that the sources test at run time, and the tests that each file repeats
--     (isPlainObject, hasExactKeys, validScore, canonicalUtc, the regular expressions of identifiers).
--   Common: tests, lists, results, signed numbers, and sets of texts.
--
-- How the code is read.
--   A function that throws an error with a reason code returns `err` with that code; where several
--   tests of one condition have the same code, their order is not visible. The RangeError of the
--   weighted score is the code WEIGHTED_SCORE_OUTSIDE_RANGE.
--   A name in camelCase is the same name in snake_case here. A part of a function that has a name of
--   its own here is mapped to its lines. A property that is left out reads as `undefined`.
--   A finite number is a whole number of units of 10^-12, a product of two of them of 10^-24:
--   arithmetic is exact here, where the code computes with doubles; roundScore adds 2^-52, as it does
--   there. Weights, scores and influences with more than 12 decimals are left out.
--   An instant is its number of milliseconds since the start of the year 0000; the years that print
--   with a sign are left out.
--   `2 ** (-elapsed / halfLife)` is the parameter Exponential of Trust.Smoothing, with two laws: it is at
--   most 1, and it does not rise with the elapsed time.
--   A regular expression is tested on texts: a value of another type, which JavaScript turns into a
--   text first, is refused here, except where a source tests `value ?? ""` (Js.Patterns, for
--   Certificates and Orchestrator.Governed), where an array of one text reads as that text; a number
--   or a boolean as an idempotency key or a reference is left out there. An index of a table of
--   rules by an array of one text finds the rule of that text. Such a table has no names but its
--   own: those of Object.prototype, which an index of an object also finds, are left out.
--   The keys of an object are sorted by code points in Policy.Canonical; the code compares UTF-16 units,
--   which differ only beyond the basic plane.
--   How `new Date(text)` reads a text that no `Date` prints is left to the engine: in
--   Orchestrator.Invalidation it is a parameter, and elsewhere such a text is refused here, as the
--   code does itself where it tests for a canonical instant.
--   The texts in Redis are lists of character codes, and its time passes in seconds.
--   Recursion is structural throughout, so no bound on steps is needed.
--
-- Not modelled: constant fields of results (policies, configurations, method names), the functions
-- that turn an error into one constant denial, the SQL behind the repositories and most of their rows, the
-- lifecycle of policy bundles, the audit chain, the evidence service, the other certificate packages, and
-- the HTTP application, which move data between the parts above and a database or a broker; the
-- demonstration, the evaluation, SQL, Rego and the scripts.
pub mod Common
pub mod Js
pub mod Trust
pub mod Orchestrator
pub mod Access
pub mod Certificates
pub mod Policy
