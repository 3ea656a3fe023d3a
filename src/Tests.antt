-- ===== src/Tests.antt =====
-- The theorems at concrete inputs.
mod Pricing
mod Charging
mod Paying
mod Scanning
mod Creating
mod SigningIn
mod Teams
mod Risk
mod Merging
mod Vault
mod Rotating
mod Timing
