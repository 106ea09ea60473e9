-- ===== src/Tests.antt =====
-- Runs of the models at concrete inputs.
mod RateLimiter
mod Retry
mod JobManager
mod Cache
mod Names
mod Storage
mod Crypto
mod Config
mod Ocsp
mod Acme
mod Manage
mod Maintain
mod HttpChallenge
mod Handshake
mod OnDemand
mod FileStorage
mod Renew
mod Users
mod Solvers
