-- ===== src/Protocol/Schema.antt =====
-- `RequestProtocol` and `ResponseProtocol` of src/services/io_board/protocol.py.
use crk_io_board.Base.{ℕ, ◌-◌, Option, some, List, [], ◌∷◌, ◌++◌, Bytes, Text, codes}
use crk_io_board.Protocol.Checksum.{calculate_checksum, seek_and_read}
use crk_io_board.Protocol.Format.{
  command, subcommand, deadbolt, product_id, sw_version, loadcells, door, errors, Value, text,
  Fields, Item, padded_string, enum, array, Field, const, item, switch, tell, checksum, pass, error,
  lookup,
}

abbrev pub stx : Bytes
stx = 0x02 ∷ []

abbrev pub etx : Bytes
etx = 0x03 ∷ []

abbrev pub text_of : Option Value → Text
text_of (some (text s)) = s
text_of _ = []

-- lambda ctx: ctx.COMMAND + ctx.SUBCOMMAND
abbrev pub command_key : Fields → Text
command_key c = text_of (lookup command c) ++ text_of (lookup subcommand c)

-- lambda ctx: seek_and_read(ctx._io, 1, ctx._length - 1)
abbrev pub checked_region : Bytes → ℕ → Bytes
checked_region io length_mark = seek_and_read io 1 (length_mark - 1)

abbrev pub request_cases : List (Text × List Item)
request_cases =
    (codes "MCPD", [])
    ∷ (codes "MCDC", enum deadbolt ((codes "OPEN", b'O') ∷ (codes "CLOSE", b'C') ∷ []) ∷ [])
    ∷ (codes "MCLZ", [])
    ∷ (codes "MCWP", padded_string product_id 11 ∷ [])
    ∷ (codes "MCEZ", [])
    ∷ (codes "MCRT", [])
    ∷ (codes "RQMI", [])
    ∷ (codes "RQIW", [])
    ∷ (codes "RQID", [])
    ∷ (codes "RQER", [])
    ∷ []

abbrev pub response_cases : List (Text × List Item)
response_cases =
    (codes "MCPD", [])
    ∷ (codes "MCDC", enum deadbolt ((codes "UNLOCK", b'O') ∷ (codes "LOCKED", b'C') ∷ []) ∷ [])
    ∷ (codes "MCLZ", [])
    ∷ (codes "MCWP", padded_string product_id 11 ∷ [])
    ∷ (codes "MCEZ", [])
    ∷ (codes "MCRT", [])
    ∷ (codes "RQMI", padded_string product_id 11 ∷ padded_string sw_version 2 ∷ [])
    ∷ (codes "RQIW", array loadcells 10 6 ∷ [])
    ∷ (codes "RQID", padded_string door 6 ∷ padded_string deadbolt 6 ∷ [])
    ∷ (codes "RQER", array errors 4 4 ∷ [])
    ∷ []

abbrev pub request_protocol : List Field
request_protocol =
    const stx
    ∷ item (padded_string command 2)
    ∷ item (padded_string subcommand 2)
    ∷ switch command_key request_cases error
    ∷ const etx
    ∷ tell
    ∷ checksum calculate_checksum checked_region
    ∷ []

abbrev pub response_protocol : List Field
response_protocol =
    const stx
    ∷ item (padded_string command 2)
    ∷ item (padded_string subcommand 2)
    ∷ switch command_key response_cases pass
    ∷ const etx
    ∷ tell
    ∷ checksum calculate_checksum checked_region
    ∷ []
