-- ===== src/Lib.antt =====
-- Verification of the core of the clock backend: what it owes to affiliates, who holds which minute of
-- the agenda, which slots it offers, and how a conversation with a customer proceeds.
--
-- The program is a NestJS service over MongoDB. A controller calls a service, a service does its work in
-- DatabaseService.withTransaction (src/database/database.service.ts), and the schemas of
-- src/database/models carry the unique indexes on which the services rely. An operation is modelled as a
-- function from the store to a result and a store: it may throw, and the store it returns is then the one
-- at the throw, which the transaction undoes. Concurrent transactions are modelled by the order in which
-- they commit: a history is a list of calls, and what other transactions commit between two attempts of a
-- call is an argument. The clock and the ids of new documents are arguments too.
--
-- Base: what the parts share. Base/Effects has the exceptions, the actions with their do blocks,
-- transactions, try/catch and inserts under a unique index; Base/Preservation and Base/Outcomes have
-- rules for what an action keeps and what it leaves behind when it ends well; Base/Int has the integers,
-- Base/Text the string methods of JavaScript (trim, the UTF-16 length and slice, a lower case that is
-- exact on ASCII and on the Kelvin sign, the only characters whose lower case is ASCII, and an upper case
-- that is exact on ASCII), Base/Dates has Date.prototype.toISOString.
--
-- Affiliate: the affiliate programme (src/affiliates).
--   Affiliate/Economics: normalizeAffiliateTerms, calculateAffiliateEconomics and
--     assertAffiliateCodeUsable (affiliate-economics.ts). Economics/Quotes has an independent
--     description of a quote by natural numbers, Economics/Terms of well-formed terms; Economics/Reference
--     compares the code with them.
--   Affiliate/Store: the collections and the save of a ledger entry (src/database/models/affiliate*.ts).
--   Affiliate/Ledger, Affiliate/Balance: earnCompletedCommission, reverseCommission, balances
--     (affiliate-ledger.service.ts) and the available balance (affiliate-payout.store.ts).
--   Affiliate/Payout, Affiliate/Settlement: create, markPaid, markUnpaid and their transition
--     (affiliate-payout.service.ts, affiliate-payout.store.ts, affiliate-payout.policy.ts).
--   Affiliate/Commands: these calls as data. Affiliate/Solvency and Affiliate/Replay are about the calls.
--   Affiliate/Codes: the codes of a customer (affiliate-code.service.ts): Codes/Create has create with its
--     loop over generated codes and the unique indexes, Codes/Changes has updateTerms, activate,
--     deactivate, retire and their mutate. Codes/Orderly says when a collection of codes is in order,
--     Codes/Current is about histories of these calls, Codes/Attempts about the loop.
--   Affiliate/Referrals: resolveForBooking (referral.service.ts) and prepare, record, findReceipt
--     (referral-attribution.service.ts), which a booking with a code calls.
--
-- Booking: the agenda of the staff.
--   Booking/Locks: acquire, release and replace (src/appointments/appointment-interval-lock.service.ts).
--     Locks/Agenda is the abstract agenda that the locks stand for, Locks/Amounts has
--     the list of them.
--   Booking/Appointments: the documents of an appointment (src/database/models/booking.models.ts,
--     appointment-lifecycle.models.ts).
--   Booking/Lifecycle: start, complete and noShow (src/appointments/appointment-lifecycle.service.ts and
--     recordStatusTransition of appointment-effects.service.ts), which release the locks of an
--     appointment and earn the affiliate's commission. The fingerprint of a request is a function that
--     the definitions take.
--   Booking/Availability: buildAvailabilitySlots (src/availability/availability-calculator.ts). luxon's
--     functions and localeCompare are the fields of a record that the definitions take.
--   Booking/Catalog: the documents a booking reads (src/database/models/core.models.ts,
--     account.models.ts) and whether an account is open to the public
--     (src/accounts/account-public-access.service.ts).
--   Booking/Openings: what the availability service reads of the store, Openings/Requests its calls, with
--     assertSlotAvailable (src/availability/availability.service.ts).
--   Booking/Intents: what a request to create an appointment is normalized to
--     (src/appointments/appointment-create-input.ts and createTenant, createPublic of
--     appointments.service.ts).
--   Booking/Creation: replay, customer and relations (appointment-creation.store.ts), Creation/Writes what
--     a creation writes (appointment-effects.service.ts, appointment-result.service.ts), Creation/Create
--     the transaction and its recovery from duplicate keys (appointments.service.ts).
--   Booking/Management: access and load (appointment-management-access.service.ts), Management/Effects
--     what is recorded, Management/Cancel and Management/Reschedule the two calls
--     (appointment-management.service.ts, appointment-reschedule-relation.service.ts);
--     Management/Returns is about a change back and there again.
--   Booking/Diary: the abstract specification of the agenda. A diary says of each active appointment which
--     slot it has; a store stands for a diary where its locks hold the minutes of the slots. A creation
--     books a slot, a cancellation or a closing frees one, a change moves one, and all else leaves the
--     diary. Diary/Views and Diary/Moves have the diary and its steps, Diary/Writes and Diary/Frames the
--     rules for one write, Diary/Grants, Bookings, Loading, Changes, Events and Closings one operation
--     each, Diary/Histories the sequences of calls, Diary/Apart what a diary means for the intervals;
--     Diary/Registered is about what an answered creation leaves behind, Diary/Twice about its
--     repetition, Diary/Tokens about its management token.
--
-- Conversation: the dialogue over the channels (src/conversations).
--   Conversation/Machine: transitionConversation (conversation-state-machine.ts).
--   Conversation/Engine, Conversation/Inbound: processInbound and the store behind it
--     (conversation-engine.service.ts, conversation-engine.store.ts). The command handler that the module
--     injects is an argument, which sees the bookings and nothing else of the store.
--   Conversation/Handoff: request, claim, reassign and release (handoff.service.ts).
--   Conversation/Track, Conversation/Orders, Conversation/Flow are about the machine: a trail is what a
--     customer has said so far, each with the state it was said in. Conversation/Once and
--     Conversation/Waiting are about processInbound, Conversation/Control about the engine and the handoff
--     together.
--
-- Bounds and fuel. Amounts are natural numbers and sums are exact: the schemas bound one amount by
-- Number.MAX_SAFE_INTEGER, and MongoDB adds in 64-bit integers or doubles, whose rounding is not modelled.
-- The loops over time run on fuel: the length of the interval for the minutes of a lock, one more for the
-- starts of a working interval; each step of the code advances by a minute or a quarter of an hour, so
-- this is enough, which the proofs use. The retry loop of processInbound has three attempts, the loop over
-- generated codes eight, as in the code; a duplicate customer is retried once. The clock is read once in a
-- call. A date is its number of milliseconds after the epoch, so dates before it are left out.
--
-- Left out: the HTTP layer, authentication and sessions, the delivery of notifications and messages, the
-- administrative services, the audit reads, and of the appointments their lists, evidence, surveys and the
-- access codes of customers. Hashes, tokens and luxon are fields of records that the definitions take. Of
-- the documents, timestamps, the type of an actor, audit metadata and the regular expressions of the schemas
-- are left out; a save writes back the document that the transaction has loaded.
pub mod Base
pub mod Affiliate
pub mod Conversation
pub mod Booking
