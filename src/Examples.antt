-- ===== src/Examples.antt =====
-- The theorems at concrete inputs: the chunk engine (kamara/internal/chunk, crypto, engine), the file
-- and file services (kamara/internal/file, store, wopi, api), the control plane and the shared libraries.
pub mod Base
pub mod Engine
pub mod Files
pub mod Zip
pub mod Api
pub mod Transfer
pub mod Erasure
pub mod Tenants
pub mod Tasks
pub mod Shared
