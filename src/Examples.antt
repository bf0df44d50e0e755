-- ===== src/Examples.antt =====
-- Tests on concrete inputs, and for each result an input at which its hypotheses hold.
mod Postfix
mod Notary
mod Certificates
mod Messages
mod Settings
mod CommandLines
mod Servers
mod Services
mod Shutdowns
mod Losses
mod Limits
mod Endings
mod Clients
