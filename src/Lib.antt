-- ===== src/Lib.antt =====
-- The HR booking server: clients book consultations with HR consultants, who publish a schedule; admins
-- review profiles, resolve reports and manage accounts. This library models the services and states
-- what makes them correct.
--
-- Parts, in the order in which they build on each other:
-- - Base: tests, lists under tests (find, filter, update by query), membership lemmas.
-- - DateTime: src/utils/datetime.ts. A date is a number of milliseconds. luxon is the record Luxon of its
--   operations; what the theorems need of it are named hypotheses (Advances, HasMidnights, KeepsDate).
-- - Constants, Errors, Models: src/config/constants.ts, src/utils/http-errors.ts, src/models. An ObjectId is
--   a number, in the order of its hexadecimal text; createdAt and updatedAt are left out. The text of a
--   slot key is the pair that it encodes.
-- - Store: the collections, the next id, and the effects (queue jobs and emails) in the order in which a
--   call hands them on. A call is a function of the state that returns or throws; a throw keeps what was
--   written before it. The database and the queues are assumed to be reachable. A call reads the clock
--   once, as its argument `now`.
-- - Slot: src/services/slot.service.ts. generateSlots is folded over days, intervals and offsets as in the
--   source; Slot.Offsets to Slot.Generate relate the loops to an independent description of the offered
--   slots, and Slot.Public concerns isOfferedSlot and getAvailableSlots.
-- - Paging and Listings: the pages of src/utils/response.ts, and the listings of src/services with their filters;
--   the server's sorts and searches are the record Mongo, and each page is a query of its own, whose sort may order
--   entries of the same key otherwise.
-- - Availability: src/services/availability.service.ts, and in Validator, Disjoint and Admitted
--   src/validators/availability.validator.ts.
-- - Booking: src/services/booking.service.ts. Checks holds what a call reads and refuses before it
--   writes, Service the calls, Invariant what holds of the bookings between calls, Frame the effects, Free
--   the searches for overlaps, Create, Cancel and Reschedule one call each,
--   Race the single writes of concurrent calls in any order, and Contention two calls that have both
--   passed their checks and drawn their ids, and insert and sweep in any order.
-- - Lifecycle: src/jobs/lifecycle.job.ts. History: sequences of the calls above. Diary: an abstract
--   diary of appointments, which these calls refine.
-- - Specializations: src/services/specialization.service.ts.
-- - Auth: src/services/auth.service.ts. argon2, SHA-256, jsonwebtoken and toLowerCase are the record
--   Crypto. Login, Session and Account.
-- - Profile: src/services/hr-profile.service.ts. Admin: src/services/admin-user.service.ts.
-- - Meetings: src/services/meeting.service.ts and src/jobs/meeting.job.ts, with the provider as the record
--   Provider. Reports: src/services/report.service.ts.
-- - Reminder: src/jobs/reminder.job.ts.
-- - Oauth: src/services/oauth.service.ts, and in Client src/integrations/google/google-oauth.client.ts, with Google
--   and the cipher as the record Google.
-- - Conference: src/integrations/google/google-calendar.client.ts and src/integrations/meeting, on the accounts of
--   Oauth; Google's calendar is a state that answers requests.
-- - Lookup: the calls of src/services that only read, and what they answer with. Http: src/middlewares,
--   src/controllers and src/routes/v1, where a router is its guards in order before its handlers; what
--   a handler takes from the platform is the record Platform.
-- - Scenarios: concrete states on which the theorems are applied.
--
-- How they interact: a creation reads the published profile, the schedule and the offered slots, searches
-- both people's bookings for overlaps, inserts under the unique slot key, and hands on jobs; the sweep
-- completes what is over and releases the key; a deletion of an account cancels its bookings first.
--
-- Bounds and fuel: the loop over offsets has the end of its interval plus one as fuel, since with a slot
-- duration that is not zero each round moves on by at least a minute; the loop over days has the
-- last instant plus one, since a day moves on. Numbers are unbounded; the source's stay below 2 ^ 53.
--
-- How requests reach the services: a router authenticates the token, loads the account from the
-- database, checks its role, validates the input and runs the handler, which calls one service or two.
--
-- Not modelled: overlaps that more than two concurrent calls leave, the populated names and the dates in
-- answers, the lengths and patterns of the other validators, the rate limiters, uploads, the emails'
-- texts, the job that hands a booking's conference to its provider's client, seeding, settings, and
-- logging. Names are taken as stored, trimmed.
pub mod Base
pub mod DateTime
pub mod Constants
pub mod Errors
pub mod Models
pub mod Store
pub mod Paging
pub mod Listings
pub mod Lookup
pub mod Oauth
pub mod Http
pub mod Slot
pub mod Availability
pub mod Booking
pub mod Lifecycle
pub mod Diary
pub mod History
pub mod Specializations
pub mod Auth
pub mod Admin
pub mod Profile
pub mod Meetings
pub mod Conference
pub mod Reports
pub mod Reminder
pub mod Scenarios
