-- ===== src/Client.antt =====
-- The command-line client tools/fx5_client. A C string is the list of its bytes before the
-- terminating 0; `get_or s 0 0` is then its first character.
pub mod Text
pub mod Numbers
pub mod Device
pub mod Command
pub mod Format
pub mod Lines
pub mod Config
pub mod Commands
pub mod Transport
pub mod App
pub mod Session
pub mod Options
pub mod Main
