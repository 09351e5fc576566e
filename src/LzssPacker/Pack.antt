-- ===== src/LzssPacker/Pack.antt =====
-- `lzss_packer::pack`: the cartridge stores data that decode to the program.
use mathlib.Core.Path.{subst}
use shrinkler_gba.Assembler.{Assembler}
use shrinkler_gba.Assembler.Laws.{IsAssembler}
use shrinkler_gba.Gba.{ewram_start, ewram_size, gba_header_size, ofs_game_title, rom_start}
use shrinkler_gba.CartridgeAssembler.Layout.{calls_of}
use shrinkler_gba.LzssPacker.{
  PackerOptions, Codecs, lzss_compress, huffman_compress, pack, statements, assemble_cartridge,
  depack_buffer, Bool, InputFile, List, ℕ, Cartridge, Options, narrow_u32, lzss_cartridge_assembler,
}
use shrinkler_gba.LzssPacker.Layout.{FitsInt32}
use shrinkler_gba.LzssPacker.Correct.{lzss_cartridge_assembler_lem, lzss_cartridge_assembler_ok}
use shrinkler_gba.Base.{
  ◌≤◌, Error, ◌≡◌, ok, throw_if, >>=-eq-ok, false, ◌<◌, Bool-cases, length, ok_ne_err, ◌^◌, get_or,
  ltb, not, sym, text_eq, inl, true, ◌%◌, ◌+◌, ok-injective, refl, ◌==◌, ap, arith, drop, internal,
  inr, lzss_buffer_not_aligned, ◌∙◌, eq-of-text_eq, ==_iff, [], text_eq_refl, ltb-of_lt, codes,
}
use shrinkler_gba.Complement.Laws.{IsAccepted}
use mathlib.Core.Path.{subst}

-- The compressed program in the cartridge decodes, by the Huffman decoder and then the LZSS decoder of
-- agbpack, to the bytes of the input file; the buffer for the LZSS data is a multiple of four and, for
-- data that are not larger than EWRAM, lies in EWRAM and ends with it; the console accepts the header.
pub record IsPacked (codecs : Codecs) (file : InputFile) (c : Cartridge) : Type 0 where
  pub lzss_data : List ℕ
  pub compressed_binary : List ℕ
  pub huffman : codecs.huffman_decode compressed_binary ≡ ok lzss_data
  pub lzss : codecs.lzss_decode lzss_data ≡ ok file.bytes
  pub stored :
      (i : ℕ)
      → i < length compressed_binary
      → get_or c.bytes (gba_header_size + c.depacker_size + i) 0 ≡ get_or compressed_binary i 0
  pub size : c.compressed_size ≡ length compressed_binary
  pub small : length lzss_data < 2 ^ 32
  pub buffer_aligned : depack_buffer (length lzss_data) % 4 ≡ 0
  pub buffer_in_ewram :
      length lzss_data ≤ ewram_size
      → (ewram_start ≤ depack_buffer (length lzss_data))
        × (depack_buffer (length lzss_data) + length lzss_data ≡ ewram_start + ewram_size)
  pub accepted : IsAccepted (drop ofs_game_title c.bytes)

module _ (codecs : Codecs) where
  lzss_compress_lem :
      (input output : List ℕ)
      → lzss_compress codecs input ≡ ok output
      → codecs.lzss_decode output ≡ ok input
  unfolding lzss_compress
  lzss_compress_lem input output h =
      let (out, _, rest) = >>=-eq-ok (codecs.lzss_encode input) _ h in
      let (verified, decoded, rest') = >>=-eq-ok (codecs.lzss_decode out) _ rest in
      elim (Bool-cases (text_eq verified input)) [
        | inl same ↦
            (let e : out ≡ output = ok-injective (rw same at rest') in
              ap codecs.lzss_decode (sym e) ∙ decoded ∙ ap ok (eq-of-text_eq verified input same))
        | inr other ↦ absurd (ok_ne_err (sym (rw other at rest')))
      ]

  huffman_compress_lem :
      (input output : List ℕ)
      → huffman_compress codecs input ≡ ok output
      → codecs.huffman_decode output ≡ ok input
  unfolding huffman_compress
  huffman_compress_lem input output h =
      let (out, _, rest) = >>=-eq-ok (codecs.huffman_encode input) _ h in
      let (verified, decoded, rest') = >>=-eq-ok (codecs.huffman_decode out) _ rest in
      elim (Bool-cases (text_eq verified input)) [
        | inl same ↦
            (let e : out ≡ output = ok-injective (rw same at rest') in
              ap codecs.huffman_decode (sym e)
              ∙ decoded
              ∙ ap ok (eq-of-text_eq verified input same))
        | inr other ↦ absurd (ok_ne_err (sym (rw other at rest')))
      ]

throw_if-ok : (b : Bool) (e : Error) (u : Unit {0}) → throw_if b e ≡ ok u → b ≡ false
throw_if-ok true e u h = absurd (ok_ne_err (sym h))
throw_if-ok false e u h = refl

is_zero : (n : ℕ) → not (n == 0) ≡ false → n ≡ 0
is_zero n h = ground arith

narrow_u32-ok : (n m : ℕ) → narrow_u32 n ≡ ok m → (m ≡ n) × (n < 2 ^ 32)
narrow_u32-ok n m h = elim (Bool-cases (ltb n (2 ^ 32))) [
  | inl small ↦ (sym (ok-injective (rw small at h)), ground arith)
  | inr large ↦ absurd (ok_ne_err (sym (rw large at h)))
]

depack_buffer_aligned : (n : ℕ) → n < 2 ^ 32 → n % 4 ≡ 0 → (depack_buffer n % 4 == 0) ≡ true
depack_buffer_aligned n small aligned =
    let e : depack_buffer n % 4 ≡ 0 = omega arith in (==_iff _ 0).1 e

module _ {P : Type 0} (a : Assembler) (w : IsAssembler a) (codecs : Codecs) (file : InputFile)
    (options : Options P) where
  abbrev packer_options : PackerOptions
  packer_options = record { code_in_header = options.code_in_header }

  -- Whatever `pack` returns stores data that agbpack's Huffman decoder and then its LZSS decoder
  -- decode to the program, and the console accepts its header. The buffer that is set aside for the
  -- LZSS data is a multiple of four; it lies in EWRAM if the data are not larger than EWRAM. Neither
  -- that they are not, nor that the buffer leaves the program's own memory alone, is checked or
  -- shown.
  pub pack-IsPacked : (c : Cartridge) → pack codecs a file options ≡ ok c → IsPacked codecs file c
  unfolding pack assemble_cartridge
  pack-IsPacked c h =
      let (lzss_data, lzss, h1) = >>=-eq-ok (lzss_compress codecs file.bytes) _ h in
      let (compressed, huffman, h2) = >>=-eq-ok (huffman_compress codecs lzss_data) _ h1 in
      let (size, narrowed, h3) = >>=-eq-ok (narrow_u32 (length lzss_data)) _ h2 in
      let (unit, checked, h4) =
        >>=-eq-ok (throw_if (not (depack_buffer size % 4 == 0)) (internal lzss_buffer_not_aligned))
          _ h3 in
      let (assembled, done, h5) =
        >>=-eq-ok (lzss_cartridge_assembler a file compressed packer_options (depack_buffer size)) _
          h4 in
      let (image, linked, good) =
        lzss_cartridge_assembler_ok a w file compressed packer_options (depack_buffer size)
          assembled done in
      let (same, small) = narrow_u32-ok (length lzss_data) size narrowed in
      let aligned = throw_if-ok _ _ unit checked in
      subst (λ (x : Cartridge). IsPacked codecs file x) (ok-injective h5)
        (record {
          lzss_data = lzss_data;
          compressed_binary = compressed;
          huffman = huffman_compress_lem codecs lzss_data compressed huffman;
          lzss = lzss_compress_lem codecs file.bytes lzss_data lzss;
          stored = good.packed;
          size = refl;
          small = small;
          buffer_aligned = ap (λ (n : ℕ). depack_buffer n % 4) (sym same) ∙ is_zero _ aligned;
          buffer_in_ewram = λ fits. (omega arith, omega arith);
          accepted = good.patched.accepted;
        })

  -- If the codecs give back what they encode, the LZSS data have a size that is a multiple of four
  -- and fits 32 bits, the addresses fit an `int32_t`, and the assembler behaves as documented and
  -- can link the program, then `pack` returns a cartridge that stores data which agbpack's decoders
  -- decode to the program, with a header that the console accepts and a buffer for the LZSS data
  -- that is a multiple of four, and in EWRAM if they are not larger than EWRAM.
  pub pack_lem :
      (lzss_data compressed_binary image : List ℕ)
      → codecs.lzss_encode file.bytes ≡ ok lzss_data
      → codecs.lzss_decode lzss_data ≡ ok file.bytes
      → codecs.huffman_encode lzss_data ≡ ok compressed_binary
      → codecs.huffman_decode compressed_binary ≡ ok lzss_data
      → length lzss_data < 2 ^ 32
      → length lzss_data % 4 ≡ 0
      → FitsInt32 file
      → a.link rom_start (
          calls_of
            (statements options.code_in_header
              (depack_buffer (length lzss_data))
              file
              compressed_binary)
            [])
        ≡ ok image
      → (c : Cartridge) × (pack codecs a file options ≡ ok c) × IsPacked codecs file c
  unfolding pack assemble_cartridge lzss_compress huffman_compress
  pack_lem lzss_data compressed_binary image e1 d1 e2 d2 small aligned f linked =
      let (assembled, built, _) =
        lzss_cartridge_assembler_lem a w file compressed_binary packer_options
          (depack_buffer (length lzss_data)) image f linked in
      let c : Cartridge = record {
        packer = codes "LZSS-H4";
        bytes = assembled.bytes;
        compressed_size = length compressed_binary;
        depacker_size = assembled.depacker_size;
        info = [];
      } in
      let returned : pack codecs a file options ≡ ok c = rw e1 (
        rw d1 (
          rw (text_eq_refl file.bytes) (
            rw e2 (
              rw d2 (
                rw (text_eq_refl lzss_data) (
                  rw (ltb-of_lt _ _ small) (
                    rw (depack_buffer_aligned (length lzss_data) small aligned)
                      (rw built refl)))))))) in
      (c, returned, pack-IsPacked c returned)
