-- ===== src/Lib.antt =====
-- arduino-dsmr parses the telegrams that smart meters send over their P1 port. Its parts, all
-- in headers under src/dsmr_parser:
--
--   * PacketAccumulator (packet_accumulator.h) takes the bytes of the port one by one and
--     returns a telegram once it has one whole. File Accumulator.antt; `process_byte` is its
--     only operation, with one definition for each part of it, and the record of the same name
--     is its state. The caller's memory is the field `buffer`, and a write outside it is the
--     reply `none`. `receive` is a caller's loop.
--   * DlmsPacketDecryptor (dlms_packet_decryptor.h) takes an encrypted packet and returns the
--     telegram in it. File Dlms.antt: the layout of a packet with its checks, and
--     `decrypt_inplace`. The AES-GCM decryptor, a virtual class that three libraries implement,
--     is a parameter: it says whether nonce, text and tag fit, and what it leaves in the text's
--     place. File TfPsa.antt: the one of the three classes that is modelled, over the functions of
--     the PSA library. File Key.antt: `from_hex` and the authentication data (decryption/aes128gcm.h).
--   * DsmrUnencryptedTelegram (util.h) is what both return: `from_bytes` finds the telegram in
--     the bytes and compares its checksum. Files Telegram.antt and Crc.antt.
--   * DsmrParser and ParsedData (parser.h) read a telegram into the fields that a user has
--     picked. File Parser.antt: the loops over the ID line and the data lines, and `parse_line`.
--     File ParsedData.antt: the fields, a list in the order of the base classes, and the
--     dispatch of a line by its OBIS id. Files ParseObis.antt, ParseString.antt and
--     ParseNum.antt: the parsers of the parts of a line, under their own names.
--   * The field classes and their instances (fields.h). File Fields.antt: `parse_field` and
--     one function for each class. Files under Table: every DEFINE_FIELD of the header, with
--     the units and the bus numbers that a build may set.
--
-- File Pipeline.antt puts the parts together, as a user of the library does: bytes to telegrams
-- to fields. The files below each of these hold the proofs, named for what they prove; those
-- under Tests hold concrete inputs. Base has what the parts share.
--
-- Correspondence. A `std::string_view` is the list of its bytes, and a position in it is the
-- text from there on, or a number where the code computes with it. A reference parameter is a
-- part of the result. A missing `std::optional` is `none` or `failed`; the third outcome,
-- `undefined`, is `int32_t` arithmetic out of range. `size_t` has 64 bits and wraps, in
-- `sub_size`; `uint8_t` and `uint16_t` wrap in `u8`, `u16` and the remainders written out. A
-- character is its code. Where a view is compared by its address, both are tails of one line, so
-- that their lengths are compared.
--
-- Loops are recursion on the text, but for `last_group`, on fuel: the length of the line, of
-- which each round takes at least two bytes.
--
-- Not modelled: the log (Logger, LogLevel and log_span_as_hex), the templates that forbid
-- copies, the float view of FixedValue, the unit accessors of the fields, and the AES-GCM
-- backends for BearSSL and Mbed TLS under decryption, which only call their libraries.
pub mod Base
pub mod Crc
pub mod Telegram
pub mod Accumulator
pub mod ParseString
pub mod ParseNum
pub mod ParseObis
pub mod Fields
pub mod ParsedData
pub mod Parser
pub mod Table
pub mod Dlms
pub mod Key
pub mod TfPsa
pub mod Pipeline
pub mod Tests
