-- ===== src/Tests.antt =====
-- Runs of the development's definitions on concrete data, and its theorems applied to them.
mod Plain
mod Flags
mod VmRules
mod VmObjects
mod VmWorld
mod VmSecrets
mod VmRuns
mod VmRelease
mod Fleet
mod Goroutines
mod BucketRules
mod BucketWorld
mod BucketRuns
mod Keys
mod CommandLines
mod Programs
mod Verifier
mod VerifierRuns
mod VerifierStart
