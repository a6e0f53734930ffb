-- ===== src/Lib.antt =====
-- lzip, a lossless compressor: a model of its LZMA coder and of its file format, with their proofs.
--
-- The program has these parts. The records of the format (lzip.h) are the state of the coder, the
-- adaptive bit models, the CRC, and the header and the trailer of a member. The range decoder
-- (decoder.h, decoder.cc) takes bytes from a file by blocks and gives bits to LZ_decoder, which
-- rebuilds the data in a buffer of the size of the dictionary and writes it out. The range encoder
-- (encoder_base.h, encoder_base.cc) takes bits from the encoders and gives bytes to a file by blocks.
-- Lzip_index (lzip_index.h, lzip_index.cc) finds the members of a file from its end, by their trailers
-- and headers; main takes its options with Arg_parser (arg_parser.h, arg_parser.cc), and runs the coders; list and the
-- encoders stand on these too.
--
-- Base is for all: lists, casts to fixed widths, bit laws, and a monad of state and of the exception
-- `Error`. Lzip models lzip.h: Lzip/State `class State`, Lzip/Model the constants, Bit_model and
-- Len_model, Lzip/Crc `class CRC32`, Lzip/Header and Lzip/Trailer the two structs, by the bytes of
-- their `data`. Io models readblock and writeblock of decoder.cc; a file is the list of its bytes and
-- of the answers of the next system calls. Decoder/Input is the buffer of Range_decoder, Decoder/Range
-- and Decoder/Symbols its decoding functions, Decoder/Lz the buffer of LZ_decoder and Decoder/Lz/Member
-- decode_member. Index models lzip_index.h and the small functions of lzip_index.cc, Index/Scan its
-- skip_trailing_data and constructor; Index/Blocks and Index/Members are about the blocks of its members. Encoder/Output is the buffer of Range_encoder, Encoder/Range and Encoder/Symbols its
-- coding functions; Encoder/Slots and Encoder/Packets are Dis_slots and the coding of packets of
-- LZ_encoder_base, Encoder/Prices the price functions. Encoder/Finder is Matchfinder_base, with its two arrays
-- of positions in one list as in the source, and Encoder/Fast the class FLZ_encoder, its encode_member in
-- Encoder/Fast/Member on fuel, one for each packet. A function of the source keeps its name; one that changes its object is a
-- computation of the monad, one that is given an array of models returns the array as it is afterwards.
--
-- Args models the class Arg_parser of arg_parser.h and arg_parser.cc; a text is the list of its bytes, and
-- Args/Spelling names the ways to spell an option. Program models parts of main.cc: Program/Numbers its
-- numbers (strtol and strtoull are functions of a text), Program/Names the names of the output files,
-- Program/Options the options of main.
--
-- Coder joins the two sides. Coder/Interval is the specification, an interval of unbounded numbers that
-- each bit narrows. Coder/Emit relates the encoder to it: what was sent, with the digits held back in
-- `cache`, `ff_count` and `low`, is the low end. Coder/Follow relates the decoder to it: `code` is how
-- far the stream lies above the low end. Coder/Stream runs sequences of bits on both. Coder/Codes pairs a
-- computation of the encoder with the one of the decoder that reads it, from bits up to symbols, and
-- Coder/Objects one of LZ_encoder_base with one of LZ_decoder, up to the four kinds of packets.
--
-- Widths: uint8_t, uint32_t and uint64_t are numbers with the remainder written where the source can
-- wrap. Loops over a fixed count recurse on that count: real_bits goes at most 32 rounds on an unsigned,
-- read_data at most one round for each byte wanted. decode_member has fuel, one for each packet; the
-- scans of Lzip_index have a round for each byte, or block, that is left below.
-- A file's descriptor is open or, for testing, not `connected`; the memory that `new` brings is zeros.
--
-- Not modelled: messages on stderr and progress reports; the process around the coder (the signals of
-- main.cc, files and their attributes); the normal encoder LZ_encoder with its sequence optimizer; lists of files.
pub mod Base
pub mod Lzip
pub mod Io
pub mod Decoder
pub mod Encoder
pub mod Coder
pub mod Index
pub mod Args
pub mod Program
mod Tests
