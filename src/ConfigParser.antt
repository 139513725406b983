-- ===== src/ConfigParser.antt =====
-- `NginxConfigParser` of src/NginxConfigParser.cc.
pub mod Tokens
pub mod Ports
pub mod Statements
pub mod Locations
pub mod Handlers
pub mod Loop
pub mod Fuel
pub mod Owed
pub mod Members
pub mod Marks
pub mod Named
pub mod Result
mod Tests
