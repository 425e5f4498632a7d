-- ===== src/Examples.antt =====
-- The theorems at concrete inputs.
mod Fields
mod Closing
mod Disk
mod Comparison
mod Plain
mod Files
mod Monio
mod Reader
mod NetCdf
mod Writer
mod Times
mod Values
