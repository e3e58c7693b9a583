-- ===== src/Http.antt =====
-- src/http: HTTP messages as objects, and their text.
pub mod Refused
pub mod Uri
pub mod Method
pub mod Version
pub mod Status
pub mod Message
pub mod Headers
pub mod Request
pub mod Accepted
pub mod Trim
pub mod Fields
pub mod StartLine
pub mod RoundTrip
pub mod Response
mod Examples
