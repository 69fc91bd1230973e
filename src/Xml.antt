-- ===== src/Xml.antt =====
-- The reader of channel files in blconfd/blconf-backend-perchannel-xml.c. GMarkup, which is not part of
-- the program, gives the elements of a file in order; the handlers are the code's.
pub mod Types
pub mod TypeNames
pub mod Attributes
pub mod Element
pub mod Handlers
pub mod Load
pub mod Locks
pub mod Policy
pub mod Merge
pub mod Unsaved
