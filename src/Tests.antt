-- ===== src/Tests.antt =====
-- Concrete runs of the model, and instances of the theorems.
mod Registry
mod Auth
mod Protocol
mod Broker
mod Server
mod Host
mod Proxy
mod Admin
mod Client
mod RateLimiter
mod Config
mod Session
mod EndToEnd
mod Alive
mod Gateway
