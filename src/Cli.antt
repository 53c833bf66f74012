-- ===== src/Cli.antt =====
-- src/cli.rs: the command line and the interactive terminal, on a Unix system.
pub mod Calm
pub mod Respect
pub mod Guided
pub mod Opening
pub mod Safe
pub mod Prints
pub mod Shown
pub mod Overall
pub mod Promises
pub mod Takes
pub mod Ends
pub mod Chosen
pub mod Sent
pub mod Arguments
pub mod Accepted
pub mod Streams
pub mod Lines
pub mod Typed
pub mod Untouched
pub mod Settings
pub mod Effects
pub mod Picking
pub mod Terminal
pub mod Style
pub mod Options
pub mod Text
pub mod Home
pub mod Prompts
pub mod Picker
pub mod Commands
pub mod Wizards
pub mod Run
