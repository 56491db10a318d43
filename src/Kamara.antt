-- ===== src/Kamara.antt =====
-- Kamara, the file app (kamara/internal): the chunk engine, its database and the file service.
pub mod Chunk
pub mod Blob
pub mod Crypto
pub mod Engine
pub mod Tables
pub mod Store
pub mod ContentType
pub mod Files
pub mod FolderStore
pub mod Folders
pub mod Wopi
pub mod FolderTree
pub mod Listings
pub mod Zip
pub mod Transfer
pub mod Api
pub mod WopiHost
pub mod SubjectData
