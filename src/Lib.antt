-- ===== src/Lib.antt =====
-- Verification library of kiss-bdk: a coordinator for silent payments and for payments that two
-- wallets make together ("shared sends"), with hardware signers.
--
-- The program. src/shared.rs is its core: two coordinators, who do not trust one another, build one
-- PSBTv2, pass it back and forth in messages, and let their signers add BIP-375 ECDH shares and then
-- signatures. It calls src/dleq.rs for the BIP-374 proof beside each share, src/sp.rs for the
-- BIP-352 script that a silent payment must pay, and src/spsend.rs for the bytes of a PSBTv2.
-- src/spverify.rs
-- checks what a signer returns for a silent payment and src/spspend.rs spends what was received, which
-- src/spscan.rs finds with the keys that src/spreceive.rs imports, and src/spstore.rs keeps.
-- src/sharedflow.rs runs a shared send over its session file, a channel, a wallet and a signer;
-- src/dirtransport.rs is the channel that is a folder. src/qr.rs makes and reads the payload of the QR
-- codes that go to a signer and come back. The other files ask index servers, carry messages over
-- Marmot and make up the command line; they are not modelled, and neither are cameras, networks and
-- the engine of the database.
--
-- Which file models what:
-- - Common: lists, byte strings, maps, and `Result` with the errors of `bail!` and `context`.
-- - Psbt, Bitcoin: the data of rust-bitcoin and psbt-v2, and a record of the functions of
--   rust-bitcoin, secp256k1 and psbt-v2 that the code calls. They are parameters: no theorem assumes
--   more of them than its statement says.
-- - Dleq: src/dleq.rs, `verify` and the tagged hashes. Sp, Sp.Derive and Sp.Address: src/sp.rs,
--   `sp_v0_info`, `input_hash`, `output_script`, and `decode` with `from_base32`.
-- - Shared.Message, Input, Shares, Scripts, Signatures, Absorb: src/shared.rs from `Message` to
--   `absorb`, one function for each, and one for each loop.
-- - Shared.Terms, Fee, Join, Finish: `share_of` to `adopt_join`, `check_fee`, `signer_request` and
--   `finalize`.
-- - Shared.Wire, Session, Session.Steps: `encode`, `decode`, and the `Session` with its operations.
--   `&mut self` is state passing; `receive` returns the outcome together with the session after it.
-- - Shared.Half, Proposal, Session.Start: `half_as_v2`, `propose`, `read_proposal`, `join` (`add_half`),
--   and `Session::propose` and `Session::join`.
-- - SpSend.Cursor, Strip: src/spsend.rs, `Cursor`, `copy_map` and `strip_empty_output_scripts`.
--   SpSend.Placeholder, Build: `resolve_sp_outputs`, `build_v2`, `to_v0` and what they call.
-- - SpVerify: src/spverify.rs, `verify` and `same_transaction`. SpSpend: src/spspend.rs, from
--   `SpCoin::checked` and `select` to `verify_signatures` and `finalize`.
-- - SpReceive: src/spreceive.rs, `parse_scan_export` and `parse_scan_hex` with what they call.
-- - SpScan: src/spscan.rs, the scans over the scanner of bdk_sp. SpStore: src/spstore.rs, a table as
--   the list of its rows, a statement as what it does to them.
-- - SharedFlow.Run, Start, Step: src/sharedflow.rs: the traits as a record over a state of the outside
--   world, `begin` and `join`, and `Flow::step` with a function for each of its stages.
-- - DirTransport: src/dirtransport.rs, the names of message files, `pending` and the numbering of `send`.
-- - Shared.Recipients, Proved, View, SignatureView, Absorb.View, Half.Laws, Proposal.Removed and
--   Session.Handled, and SharedFlow.Step.Moves, Joining and Acting hold what the theorems are made of:
--   their predicates, and lemmas on what a later step can still see of an earlier check.
-- - Qr.Cbor, Qr.Decoder: src/qr.rs, `cbor_byte_string`, `unwrap_cbor_byte_string`,
--   `parse_crypto_psbt_cbor`, `validate_fountain_part` and `SignedPsbtDecoder`.
-- - Examples: tests, and the theorems at concrete inputs.
--
-- Choices. Amounts are natural numbers; `Amount::checked_add` has the bound of 64 bits, and the
-- products and sums of `check_fee` wrap as in a release build. Error texts are constructors that keep
-- the position they name; a `context` that only says where an error came from is not kept. The report
-- of `absorb` is a list of `Line`s. A loop over positions is recursion on the list with its position,
-- and an index that Rust would panic on is the error `index_out_of_range`. A `BTreeMap` is the list of
-- its pairs in key order, a set of positions the list of them. `copy_map` and `strip_maps` recurse on
-- fuel: each round passes a byte at least, and the fuel is the number of bytes left.
--
-- The visits to the signer in `Flow::step` go on for as long as the signer asks for more, so they
-- recurse on the number of visits allowed, and one more than that is the error `out_of_attempts`.
--
-- Not modelled in these files: `describe`, `Flow::say` and other printing; reading and writing the
-- session file and the message files, which is the file system's part: a write succeeds or leaves the
-- old file; the waiting of `receive`, and its retries when two processes send under one name.
pub mod Common
pub mod Psbt
pub mod Bitcoin
pub mod Dleq
pub mod Sp
pub mod Shared
pub mod SpReceive
pub mod SpScan
pub mod SpSend
pub mod SpVerify
pub mod SpSpend
pub mod SpStore
pub mod SharedFlow
pub mod DirTransport
pub mod Qr
pub mod Examples
