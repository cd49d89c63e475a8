-- ===== src/Lib.antt =====
-- LifeOS, a personal secretary: the Mac service that plans days, gates conversations and guards
-- what may act on the calendar. The sources stand in mac/secretary_service/src/secretary_service/;
-- the paths below are relative to it.
--
-- The parts and how they interact. The planner takes a snapshot of the canonical state and proposes a
-- day or a week; nothing is changed by a proposal. A proposal that is to act outside is approved by a
-- device-signed proof, is claimed once in a consumption store, and is executed under a lease, which the
-- commander verifies before a worker runs. The
-- conversation journal orders the events that devices send, also those of the voice sessions. The
-- ledger chains an audit record to every change.
--
-- Planner. Planner/Models is planner_models.py and planner_results.py (`PlanActivity`,
-- `DayPlanRequest` and their validators); Planner/Scoring is planner_scoring.py (`score_activity`);
-- Planner/Reservation, Fixed, Search, Flexible and Dependencies are planner_placement.py
-- (`Placement`, `place_fixed`, `best_placement`, `place_flexible`, `invalid_dependencies`);
-- Planner/Blocks is `build_internal_plan` of planner_explanation.py; Planner/Projection is
-- planner_projection.py (`project_calendar`, `build_diff`); Planner/Day is planner.py
-- (`propose_day`, `propose_week`). A datetime is its UTC minute, an integer: the validators require
-- whole minutes, and the code compares and adds in UTC. The time zone enters as a record of two
-- functions, the wall clock and the ISO text. The fingerprint of a request is a parameter. Dicts and
-- sets are lists in the order of insertion.
--
-- Bounds and fuel. `while flexible` runs on fuel, as many rounds as there are flexible activities at
-- its start; a theorem below shows that this leaves none over. The scan of `best_placement` runs over
-- the number of minutes from its lower to its upper bound, which is the loop's own count. Integers
-- are unbounded in Python and here.
--
-- Conversation. Conversation/Events and Conversation are conversation_api.py: the records of the
-- contract and `ConversationJournal`; `accept` takes a journal and returns the next one with the
-- acceptance.
--
-- Authority. Authority/Devices is enrollment.py (`DeviceRegistry` without persistence);
-- Authority/Consumption is `MemoryConsumptionStore` of authority_consumption.py; Authority/Matrix,
-- Facts and Lifecycle are authority.py (`ApprovalMatrix`, the payload-bound facts,
-- `ProposalLifecycle`); Authority/Leases is leases.py (`SigningKeyRing`, `LeaseIssuer`). A method that
-- raises returns a `Result`; the clock's time is an argument. SHA-256, HMAC, Ed25519, JSON and the
-- texts of numbers and times are parameters, since they are library code.
--
-- Commander. Commander is the records of commander/contracts.py, Commander/Dispatch is
-- commander/dispatch.py (`Commander.dispatch`). The runtime's outcome of each attempt, the credential
-- broker and the JSON text of a request are parameters. The retry loop recurses on the attempts that
-- are left of the budget.
--
-- Energy. Energy is energy/checkins.py with the records of energy/models.py that it uses. The wall clock
-- of a time zone is an argument; times are UTC microseconds.
--
-- Ledger. Ledger is audit.py and ledger.py (`AuditLedger`): the table of entries is the list of its rows
-- in the order of their key, and the row of the anchor may be missing.
--
-- Voice. Voice/Models is voice/models.py and voice/errors.py; Voice/Privacy is voice/privacy.py and
-- voice/provider.py (`ConsentRegistry`, `start_provider_session`, `KeyRotationCoordinator`);
-- Voice/Tokens is voice/tokens.py (`SessionTokenManager`); Voice/Transcripts is the table of
-- voice/journal.py; Voice/Emitter is voice/state.py (`VoiceSessionState`, `ConversationVoiceEmitter`,
-- which feeds the conversation journal); Voice/Session with Start, Speech, Output and Reconnect is
-- voice/session.py (`VoiceSessionService`), and Operations, Follows, Steps and Performed say how its
-- methods change the sessions. A method returns the service as it leaves it, also when it raises. The
-- times of this part are UTC microseconds; each reading of the clock is an argument.
--
-- Relay. Relay is relay_store.py (`ConversationRelayStore`): `append`, `events` and `conversation`, with
-- the tables of devices, conversations and events as lists of rows. A batch goes through a new
-- conversation journal that has replayed the history, and each event of it through the ledger.
-- Relay/Conversations is `create`, `delete` and `expire`.
--
-- Not modelled: the texts of explanations; SQL itself; HTTP layers and adapters of external
-- services; the relay's provisioning and agent turns; the bridges of the
-- voice session; the energy patterns; goals and learning.
pub mod Prelude
pub mod Authority
pub mod Commander
pub mod Conversation
pub mod Energy
pub mod Ledger
pub mod Planner
pub mod Relay
pub mod Sets
pub mod Voice
