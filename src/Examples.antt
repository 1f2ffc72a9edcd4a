-- ===== src/Examples.antt =====
-- The properties at concrete inputs: a module for each group of components.
mod Circuits
mod Responses
mod Requests
mod Workers
mod Streams
mod Options
mod Tokens
mod Flights
mod Subscriptions
mod Handlers
mod Launches
mod Calls
mod Outages
mod Clients
mod LiveWorkers
