-- ===== src/Lib.antt =====
-- A verification library for otomatik, which obtains, caches, renews and serves TLS certificates.
--
-- The parts of the program and their files. The rate limiter (ratelimiter.go) spaces requests to
-- the certificate authority; the job manager and the retry loop (async.go) run the work in the
-- background; the cache (cache.go) holds the certificates (certificates.go) and finds them by
-- name; the handshake (handshake.go) chooses from the cache for a client; the storage (storage.go)
-- keeps everything under safe keys. The configuration (config.go) obtains, renews and revokes
-- certificates with the issuer (acmemanager.go, acmeclient.go) under the locks of the storage,
-- saves them as resources (crypto.go), and ocsp.go staples their status.
--
-- RateLimiter.antt models ratelimiter.go: `Limiter` is RingBufferRateLimiter with a program
-- counter for the goroutine, `loop_head` one pass of loop up to its wait, `permit`, `advance`,
-- `set_max_events` and `set_window` the methods of these names. RateLimiter/Machine.antt is the
-- goroutine among its callers, as steps of one world with a clock and the times of past events;
-- There nobody changes the limit or the window; RateLimiter/Reads.antt has the reads of the head
-- of loop one by one, which such changes may come between. RateLimiter/Window.antt and
-- Reconfigure.antt have what follows, and Resize.antt the arithmetic of the ring. Times are
-- natural numbers of nanoseconds since Go's zero time, and windows are not negative.
--
-- JobManager.antt models Submit and worker of async.go, each as what it does under the lock; Step
-- interleaves them. The invariant is in JobManager/Invariant.antt. Jobs are numbers, what they do
-- is not modelled.
--
-- Retry.antt models doWithRetry of async.go. The operation, the timer and the clock are a record
-- of functions on a state; the loop takes fuel, one for each round. Every round but the first
-- waits at least a minute and the loop ends after thirty days, which is 43,200 minutes, so 43,202
-- rounds are enough: Retry/Termination.antt. Retry/Outcomes.antt says where results come from.
--
-- Certificate.antt is the record of certificates.go with the fields that the models read.
-- Cache.antt models cache.go: the two maps, and the removal of a key from a list with the in-place
-- append of Go and its panic. Cache/Removal.antt, Invariant.antt, Matching.antt and Wildcards.antt
-- are about it. Names.antt models SubjectQualifiesForCert, SubjectQualifiesForPublicCert and
-- MatchWildcard of certificates.go and NormalizedName of handshake.go; net.ParseIP is a parameter.
--
-- Handshake.antt models selectCert, DefaultCertificateSelector and getCertificate of handshake.go.
-- Handshake/Selection.antt is about the selection and a hello with a name, Unnamed.antt about one
-- without. What crypto/tls says of a certificate, the address of the connection and the
-- CertSelection of the configuration are parameters.
--
-- OnDemand.antt models the goroutines of obtainOnDemandCertificate and renewDynamicCertificate of
-- handshake.go that share obtainCertWaitChans: Step interleaves them, AnyStep has the denial of a
-- renewal besides. OnDemand/Waiting.antt has what holds in both, Served.antt and Denied.antt what
-- holds without and after a denial. OnDemand/Decision.antt is about checkIfCertShouldBeObtained;
-- the texts of its errors are without the name.
--
-- Storage.antt models storeTx and KeyBuilder.Safe of storage.go, Keys.antt the keys of KeyBuilder
-- with path.Join, whose reading of a path by its parts is written out, and NamesKey of
-- otomatik.go. The storage is a record of functions on a state; that it behaves like a map, where
-- Store and Delete without an error do what they say and leave other keys alone, is a hypothesis,
-- MapLike, of Storage/Transaction.antt.
--
-- Crypto.antt models crypto.go: private keys and PEM, bundles of certificates on fuel of a round
-- for each byte, the names of a request; Resources.antt its saveCertResource and loadCertResource.
-- crypto/x509, encoding/pem and encoding/json are records of functions, Codec and Json; what they
-- document is a hypothesis, IsCodec in Crypto/KeyPem.antt and IsJson in Resources/RoundTrip.antt.
-- Certificate/Making.antt models makeCertificate, fillCertFromLeaf and the renewal window of
-- certificates.go; the product of a lifetime and the ratio, in floating point, is a parameter.
--
-- Config.antt and Config/Issuance.antt model config.go from ObtainCert to emit, and obtainLock,
-- releaseLock and CleanUpOwnLocks of storage.go. `Config` is what a Config calls, on a state of
-- the storage, the authority, the clock and the randomness; World adds the own locks and the calls
-- of OnEvent. obtainWithIssuer and renewWithIssuer, which differ in the function that they run and
-- in the event, are with_issuer. Not interactive, they run it by the loop of Retry.antt with its
-- fuel; an attempt that panics ends that loop, and `halted` keeps it from being taken for a
-- success. Config/Locks.antt, Stored.antt, Failing.antt and Revoked.antt are about them.
--
-- Manage.antt models the loading of certificates into the cache of certificates.go, and manageAll
-- and manageOne of config.go. Instance is the state of a configuration: its world, its cache, its
-- OnDemand and the jobs that it has submitted, which are listed and not run. Manage/Loaded.antt
-- and Manage/Whitelist.antt are about it.
--
-- Ocsp.antt models ocsp.go; the responses of the responder, their parser and net/http are the
-- record Ocsp. Acme.antt and Acme/Issue.antt model acmemanager.go and acmeclient.go from Issue to
-- the attempts with each challenge: as many rounds as there are challenges. The account, the
-- client of lego and the registration are one parameter, `connect`.
--
-- HttpChallenge.antt models httphandler.go and the distributed solver of solvers.go, which meet in
-- the storage; the embedded solver is a parameter. HttpChallenge/Answered.antt is about the two.
--
-- Maintain.antt models deleteOldOCSPStaples of maintain.go, Maintain/Expired.antt
-- deleteExpiredCerts and CleanStorage; Maintain/Staples.antt and Current.antt are about them.
-- Maintain/Renew.antt models RenewManagedCertificates, queueRenewalTask and getConfig of cache.go,
-- where each certificate has a configuration of its own; Queued.antt is about it; a submitted task
-- has the name and the certificate and not the configuration that its closure captures.
-- Maintain/OcspUpdates.antt models updateOCSPStaples, and Removed.antt is about its updates. A
-- loop over the cache takes the certificates in a given order.
--
-- FileStorage.antt models filestorage.go over a record of functions, Files, for packages os,
-- filepath and json. FileStorage/Freshness.antt has keepLockfileFresh and FileStorage/Locks.antt
-- has Lock and Unlock as program counters, Keeper and Pc, where `keep` and `turn` make the next
-- call of the system; Step of Locks.antt interleaves any number of processes and goroutines over
-- one lock file, as long as nobody takes it for stale. FileStorage/Mutex.antt is about them, with
-- what a file system does in Mutex/FileSystem.antt; Contents.antt is about Store and Load.
--
-- Users.antt models user.go, accounts and their keys in the storage, and Users/Email.antt
-- getEmail, where the loop of mostRecentUserEmail has the array of Go that it changes in place.
-- Users/Saved.antt and Users/Recent.antt are about it. Solvers.antt models the listeners of
-- httpSolver and tlsALPNSolver of solvers.go with package net as the record Network;
-- Solvers/Counted.antt is about their counts.
--
-- Base.antt passes on the library names and the shared helpers: tests on numbers, lists over the
-- native numbers, Go strings as lists of code points, Go maps as association lists, errors, calls
-- that may panic. Tests.antt has runs at concrete inputs.
--
-- Not modelled: logging, servers and connections, the ACME protocol and the cryptography, which
-- are libraries or I/O; and, so far, getCertDuringHandshake and handshakeMaintenance of
-- handshake.go, Wait of the rate limiter, the defaults of newWithCache in config.go, Revoke of
-- acmemanager.go, and the rest of otomatik.go. Case mapping and white space are those of ASCII.

pub mod Base
pub mod RateLimiter
pub mod Retry
pub mod JobManager
pub mod Certificate
pub mod Cache
pub mod Names
pub mod Storage
pub mod Keys
pub mod Crypto
pub mod Resources
pub mod Config
pub mod Ocsp
pub mod Acme
pub mod Handshake
pub mod OnDemand
pub mod Manage
pub mod Maintain
pub mod HttpChallenge
pub mod FileStorage
pub mod Users
pub mod Solvers
pub mod Tests
