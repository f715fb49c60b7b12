-- ===== src/Tests.antt =====
-- Runs at fixed inputs, and the properties at inputs that meet their hypotheses.
mod Inputs
mod Xtea
mod Hex
mod Embedded
mod Load
mod Config
mod Bouncer
mod Makeconf
mod Memory
mod Client
mod Server
mod Run
