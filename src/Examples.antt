-- ===== src/Examples.antt =====
-- The theorems at concrete inputs, and tests of the definitions.
mod Retrying
mod Errors
mod Http
mod Db
mod Likes
mod Workers
mod Metrics
mod Dns
mod Server
mod Otel
mod Exporters
mod Dialling
mod Senders
mod Slots
mod Releases
mod Releasers
mod Compilers
mod Systems
mod Datadogs
mod Downloads
mod Rabbits
mod Honeycombs
mod Baggages
mod Propagations
