-- ===== src/Examples.antt =====
-- Concrete runs of the development: one small system per part, and the theorems applied to it.
mod Provider
mod Registration
mod Account
mod EventContext
mod Netevent
mod Context
mod Driver
mod Buffers
mod Load
mod EventLoad
mod Notify
mod Parameters
mod PushEvent
mod Drain
