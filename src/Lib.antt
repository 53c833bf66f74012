-- ===== src/Lib.antt =====
-- Sealed: a command-line program that keeps an identity, pins the public profiles of contacts, and
-- seals messages to them as padded, signed and encrypted letters. This library models the Rust code
-- under `src/` of the repository, file by file, and states what makes it correct.
--
-- The parts, and where each is modelled:
--
--   Protocol.antt            `src/protocol.rs`: constants, `padded_blob_len`, `valid_blob_len`
--   Error.antt               `src/error.rs`: `Error`, `Result` and the `?` operator as a bind
--   Exec.antt                functions that take `&mut` state or touch the system: state passing with
--                            results, where an error keeps the state that was reached
--   Format/Hex.antt          `src/format.rs`: `hex_encode`, `hex_decode`, `hex_nibble`
--   Format/Reader.antt       `src/format.rs`: `Reader`, whose offset is the state
--   Format/Lines.antt        `str::lines` of the standard library, for the two text formats
--   Primitives.antt          the cryptographic crates and `getrandom`: parameters, and their laws
--   Primitives/Toy.antt      concrete primitives that satisfy those laws, for runs
--   Entropy.antt             `src/entropy.rs`
--   Identity.antt            `src/identity.rs`: profiles, fingerprints, unlock keys, decryption at rest
--   Identity/Private.antt    `src/identity.rs`: generation, and encryption at rest
--   Contact.antt             `src/contact.rs`
--   Crypto.antt              `src/crypto.rs`: key derivation, associated data, signatures
--   Message/Serialize.antt, Message/Parse.antt, Message/Seal.antt, Message/Open.antt
--                            `src/message.rs`: `serialize_internal`, `parse_internal`, `seal`, `open`
--                            (here `open_letter`)
--   System/Paths.antt        `std::path`: a path is its list of components
--   System/Files.antt        `std::fs` on Unix: a tree of named entries and one step per system call
--   Storage/Access.antt      `src/storage.rs`: the free functions that guard access to single paths
--   Storage/State.antt       `src/storage.rs`: `StatePaths` and its methods
--
--   System/Directories.antt  `fs::create_dir_all` of the standard library
--   Cli/Terminal.antt        the terminal, the standard streams, `stty` and the environment
--   Cli/Options.antt         `src/cli.rs`: `parse_options`, `parse_open_options`
--   Cli/Text.antt            what `src/cli.rs` uses of `str`: `trim`, `parse::<usize>`
--   Cli/Style.antt, Cli/Home.antt, Cli/Prompts.antt, Cli/Picker.antt
--                            `src/cli.rs`: `TerminalStyle`, paths, questions, the arrow-key picker
--   Cli/Commands.antt, Cli/Wizards.antt, Cli/Run.antt
--                            `src/cli.rs`: the commands, the wizards, `interactive` and `run`, and
--                            `main` of `src/main.rs`
--
-- `seal` and `open` call the key derivation and signatures of Crypto, which call Identity for the
-- owner's profile; all of them take the primitives as a parameter. Storage reads and writes the text
-- formats of Identity through System. The command line works on a session, which holds the tree, and
-- calls Storage and Message; `Exec/Always.antt` holds the rules for relations between the state before
-- and the state after that hold however the code ends, and `Cli/Respect.antt`, `Cli/Guided.antt`,
-- `Cli/Opening.antt` and `Cli/Overall.antt` carry such a relation through the commands, the wizards
-- and a whole run. The remaining files below a part hold the theorems about it.
--
-- Bytes are numbers on lists; that each is below 256, and the sizes that Rust's array types fix, are
-- stated where a theorem needs them (`AllBytes`, `IsArray`). Lengths are natural numbers; `usize` is
-- 64 bits wide, and the checked operations of the source are checked here. The loop of
-- `padded_blob_len` and the test for a power of two run on fuel 64, which is enough since a `usize`
-- doubles at most 64 times before it overflows. Opening a path follows at most 40 symbolic links.
--
-- The system is `Os`: for each call, by its number, whether it fails, and what other processes did to
-- the tree before it. A theorem for every `Os` holds under any interleaving with other processes.
-- Symbolic links are followed as the last component of a path; directories on the way are taken to be
-- real, and permissions are recorded but not enforced. A call fails before it has an effect.
--
-- The terminal and the streams are `Console`: for each call, by its number, whether it fails, and what
-- `stty` does. A call on them that fails has no effect, a terminal hands out a line at a time, writing
-- to the standard error succeeds, and so does printing the usage. The loops that read the terminal run
-- on fuel, one round more than the bytes that it can give, since every round that goes on has read a
-- byte. A path is displayed as its components.
--
-- Not modelled: the traits of `src/stego.rs`, which have no implementation, the erasure of secrets
-- from memory, and the code for systems other than Unix. The crates under `vendor/` are other
-- projects.
pub mod Base
pub mod Error
pub mod Exec
pub mod Primitives
pub mod Protocol
pub mod Format
pub mod Entropy
pub mod Identity
pub mod Contact
pub mod Crypto
pub mod Message
pub mod System
pub mod Storage
pub mod Cli
mod Tests
