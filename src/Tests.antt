-- ===== src/Tests.antt =====
-- The theorems at concrete inputs, and runs of the definitions, part by part.
mod Cards
mod Profiles
mod Packages
mod Frames
mod Tlv
mod Libraries
mod Trust
mod Download
mod Lifecycle
mod Dispatch
mod Keys
mod Chains
mod Tables
mod Instances
mod Server
