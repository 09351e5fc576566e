-- ===== src/Lib.antt =====
-- A model of shrinkler-gba, a packer of programs for the Game Boy Advance, and what it is shown to do.
-- The program loads an ARM executable (ELF), has one or all of its packers compress it and wrap it in a
-- cartridge that depacks itself, and writes the smallest cartridge to a file.
--
-- The parts, with the files of src/shrinkler_gba they model:
--  * Base: what the others share: tests, lists, the exceptions as values and their monad, the words of
--    C++ and the checked conversions of the GSL. Format: numbers as std::format writes them.
--  * Gba (gba.cppm), Options (options.cppm), Cartridge (struct cartridge of packer.cppm): constants and
--    plain data.
--  * Complement (complement.cpp), Utility (utility.cpp, utility.cppm): the header's checksum and Adler-32.
--  * Elf, InputFile (input_file.cpp): the constructor of input_file. Elf holds the part of ELFIO's data
--    that is read. std::ranges::sort is the parameter SectionSort: a sorted permutation.
--  * Assembler, CartridgeAssembler (cartridge_assembler.cpp): the base class of both assemblers. The
--    library lzasm is a parameter: its state is the list of calls made, current_lc and link are
--    functions of it, and IsAssembler says what the code relies on. A method that emits code is the
--    list of its statements, and run executes such a list, the checks of the location counter
--    included. Assembler.Sample is an assembler that satisfies the hypotheses.
--  * ShrinklerPacker (shrinkler_packer.cpp), LzssPacker (lzss_packer.cpp): the depackers, the
--    constructors, the packers. libshrinkler (Encoder) and agbpack (Codecs) are parameters.
--  * Thumb: the processor that runs what is emitted, for the instructions of the debug checks and of
--    the range decoder: the registers, the carry and zero flags and the bytes in memory; a state has
--    the code that is left, and a return address is the number of calls left there. The carry after a
--    multiplication, which is unpredictable, is a function of the machine. Memory has what is written
--    and read. The children Reduce, Checksum, Checked and DebugChecks of ShrinklerPacker run the checks
--    on it; BitBuffer, Stream, ReadBit, Normalise and Interval the loop of getbit; BitContract, Decode
--    and BitRoutine the routine getbit, against the range decoder that RangeDecoder and Range specify, and Calls its
--    calls; NumberLoops and NumberRoutine the routine getnumber, against the numbers that Number
--    specifies; LiteralRoutine the literals that Literal specifies; Kind the routine getkind.
--    DepackerBits, DepackerLiteral and Kind have them within the program.
--  * Console (console.cpp), TablePrinter (table_printer.cpp), ElfInfo (elf_info.cpp): messages and the
--    tables of headers. What is printed is a list of lines with their streams.
--  * Packer (packer.cpp), Pack (pack.cpp): the registry, the choice of the smallest cartridge, reading
--    and writing files. The environment is a parameter, with an error number for each operation that can
--    fail, the closing of a file included; Pack.Effects has the monad of code that prints,
--    acts on files and may throw: a list of actions and a result.
--  * CommandLine (command_line.cpp), Main (src/shrinkler_gba_console/main.cpp): the handlers of the
--    options, the program and its exit status. The libraries argpppp, which gives the occurrences of
--    the options and may end the program itself, with a status, and libshrinkler (Shrinkler), with the
--    setters and their limits, are parameters.
--
-- Numbers are natural numbers; the arithmetic of uint32_t, size_t and unsigned char is reduced
-- explicitly, and an int32_t literal is its bit pattern. Loops are recursions on lists. The digits of a
-- number take fuel, 64 digits, which is enough for 64 bits. A number of the Shrinkler format has up to
-- 31 bits behind the first, which a register holds. A run of the processor is a number of steps. The
-- cartridge is assembled from rom_start, as in the source.
--
-- Not modelled: the texts of the help, which are given to argpppp; the texts of exceptions, which are
-- values instead; the BIOS; what the references and the initialisation of the Shrinkler depacker, and
-- the LZSS depacker, do when they run.
pub mod Assembler
pub mod Base
pub mod Cartridge
pub mod CartridgeAssembler
pub mod CommandLine
pub mod Complement
pub mod Console
pub mod Elf
pub mod ElfInfo
pub mod Format
pub mod Gba
pub mod InputFile
pub mod LzssPacker
pub mod Main
pub mod Options
pub mod Pack
pub mod Packer
pub mod ShrinklerPacker
pub mod TablePrinter
pub mod Thumb
pub mod Utility
