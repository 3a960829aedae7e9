-- ===== src/Lib.antt =====
-- Certus: models of the identity provider's grants and credentials, with what makes them correct.
--
-- Certus is an authentication centre in Go: users log in with a password and a second factor, and
-- applications get OAuth tokens or CAS tickets for them. Its HTTP handlers call services, and a service
-- calls a repository, which is in memory or in PostgreSQL. The files here model the services and the
-- memory repositories, which are the reference for the contracts of the others:
--
--   Oauth      internal/oauth/store.go: MemoryRepository, with authorization codes (Tokens), access and
--              refresh tokens (Tokens, Revocation), device codes and OIDC client sessions (Devices) and
--              consents (Consents). Operations has the methods as the steps of a history; History shows
--              what no step takes back, and Grants what each grant type promises.
--   Cas        internal/cas/ticket.go: service tickets, proxy-granting tickets, proxy tickets and
--              service sessions (Tickets), with their histories (Operations).
--   Session    internal/session: the memory repository of login sessions (Repository) and the Service
--              over it (Service).
--   RateLimit  internal/ratelimit/ratelimit.go: policies, Service.Allow and MemoryRepository.Take
--              (Limiter, Policies), sequences of attempts (Window, Burst) and the limit on buckets
--              (Eviction).
--   Mfa        internal/mfa: the memory repository (Repository, Devices) and its histories (History,
--              Preserved, Separate), with the single use of TOTP steps (Replay), of recovery codes
--              (Recovery) and of trusted devices (Rotation), and their number (Limit); the codes
--              (Codes), Verify with its lock (Service, Guesses, Misses, Lockout), enrolment (Enrolment)
--              and recovery codes as they are issued and read (Issued, Accepted).
--              Protection has the encryption of TOTP secrets and RewrapSecrets, whose result is the
--              subject of Rewrapped.
--   Secrets    internal/secrets/keyring.go: the key ring and its parser (Keyring), what the
--              parser answers (Parsed), envelopes with Encrypt and Decrypt (Envelope), what is read
--              back from them (Sealed), and a stand-in for the ciphers on which the examples run
--              (Standin).
--   Access     internal/access: definitions and grants (Definitions, Grants), the memory repository
--              (Repository, Operations), the references that it keeps (Integrity, References,
--              Consistent), the codes that it keeps different (Codes, CodesKept) and a user's
--              entitlements (Entitled, Effective).
--   Client     internal/client/client.go: the policies of a client (Policy), Validate in the order of
--              the source (Validate), what a valid client is (Valid), the words of that beside the
--              tests of the source (Words, ValidParts, Accepts), New and Replace (Define, Defined), the
--              registry (Repository, Operations) and what its calls may change (Change), with the
--              invariants over that (Ordered, Kept, Consistent, Stored, AllValid, Owned) and the life
--              of an archived client (Archived, Deleted).
--   Authorize  internal/oauth/authorize.go: ParseAuthorizationRequest (Request), on the clients of
--              Client, and which requests it accepts (Accepted, Exact).
--   Administration
--              internal/administration: the table of roles (Roles), the memory repository
--              (Repository), the permissions that roles give (Granted) and the last super
--              administrator (LastAdmin).
--   Common     the notation, tests, lists, maps and lemmas that the parts share.
--
-- How code and model correspond. A method of a repository holds its lock throughout, so it is one
-- function from the state to the state and an answer; a history is a list of calls, and stands for any
-- interleaving of concurrent ones. A method of a service that calls its repository several times is
-- modelled as if no other call came in between; only Effective takes the two states that it reads. A
-- struct is a record with its fields, and an embedded struct is a
-- field whose own fields are opened. A Go function keeps its name in snake_case: consume_code is the
-- loop body of ConsumeAuthorizationCode. A pair (value, error) is a Result, whose errors are the
-- sentinel errors of the package. A nil pointer to a time is `none`. A slice is a list; where the source
-- tells a nil slice from an empty one, it is an Option of a list. Clones of slices leave no trace, since
-- values are never written in place. A Go map is a list of entries whose order stands for the order of
-- a `range` loop: theorems hold for every order. sort.Slice and slices.SortFunc are an insertion sort.
--
-- Time is a number of nanoseconds since Go's zero time, so a zero time is 0, and time.Time.Add is
-- addition: its overflow, some centuries ahead, is not modelled, and durations that Go could have
-- negative are integers where they come from a configuration and natural numbers elsewhere. Counters
-- are far from the bounds of Go's int; the TOTP's step is written as 64 bits with its wrap-around.
-- Clock readings, random draws, SHA-256, HMAC, ciphers, url.Parse, net.ParseIP, strings.EqualFold,
-- strings.ToUpper and strings.ToLower are arguments of the functions that use them; so is the
-- protection of TOTP secrets in Verify and Setup, where Protection has the functions that the service
-- uses. Strings are sequences of code points, so bytes that are not UTF-8 have no model. AES-GCM and
-- base64 are the record Crypto of Keyring, and IsCrypto in Sealed says what is relied on: what was
-- sealed is opened, what was encoded is decoded, and a dot is no base64 character.
-- Every loop is structural recursion on the list that the source ranges over, so no fuel is needed.
--
-- Not modelled: the context arguments, which the memory repositories ignore; the checks for a missing
-- repository; the HTTP layer and its templates, PostgreSQL, LDAP and OIDC clients, mail and telemetry,
-- which are input and output; the registry of users; and the texts that errors are wrapped in.
pub mod Common
pub mod Oauth
pub mod Cas
pub mod Session
pub mod RateLimit
pub mod Mfa
pub mod Access
pub mod Client
pub mod Authorize
pub mod Administration
pub mod Secrets
