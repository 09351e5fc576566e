-- ===== src/CartridgeAssembler/Finish.antt =====
-- What the constructors of both cartridge assemblers do with the linked bytes: write the complement
-- and check the result.
use shrinkler_gba.Gba.{
  ofs_game_title, ofs_fixed_byte, ofs_complement, fixed_byte_value, gba_header_size,
}
use shrinkler_gba.Complement.{checksum_area_size, complement_index}
use shrinkler_gba.Complement.Laws.{
  IsAccepted, HasComplement, HasComplement-iff_IsAccepted, calculate_complement_unique,
  calculate_complement_lem,
}
use shrinkler_gba.CartridgeAssembler.{
  write_complement, throw_if_fixed_byte_wrong, throw_if_complement_wrong,
}
use shrinkler_gba.Base.{
  ◌-◌, ◌+◌, List, ℕ, IsByte, ◌≤◌, length, ◌≡◌, get_or, set, drop, ◌≢◌, arith, get_or-drop, ok,
  length-drop, length-set, ltb-of_lt, read_at_lem, get_or-set_ne, ◌∙◌, ap, sym, drop-set, refl,
  ==_refl, IsByte-get_or-set,
}

-- One byte is replaced, and then the console accepts the header and the two checks pass.
pub record IsPatched (offset : ℕ) (image bytes : List ℕ) : Type 0 where
  pub value : ℕ
  pub value_lt : IsByte value
  pub bytes_eq : bytes ≡ set image offset value
  pub accepted : IsAccepted (drop ofs_game_title bytes)
  pub fixed_byte : get_or bytes ofs_fixed_byte 0 ≡ fixed_byte_value

throw_if_fixed_byte_wrong_lem :
    (bytes : List ℕ)
    → gba_header_size ≤ length bytes
    → get_or bytes ofs_fixed_byte 0 ≡ fixed_byte_value
    → throw_if_fixed_byte_wrong bytes ≡ ok tt
unfolding throw_if_fixed_byte_wrong
throw_if_fixed_byte_wrong_lem bytes long e =
    rw (read_at_lem bytes ofs_fixed_byte (omega arith)) (rw e)

throw_if_complement_wrong_lem :
    (bytes : List ℕ)
    → gba_header_size ≤ length bytes
    → HasComplement (drop ofs_game_title bytes)
    → throw_if_complement_wrong bytes ≡ ok tt
unfolding throw_if_complement_wrong
throw_if_complement_wrong_lem bytes long h =
    let same = get_or-drop ofs_game_title bytes complement_index 0 in
    rw h (
      rw (read_at_lem bytes ofs_complement (omega arith))
        (rw same (rw (==_refl (get_or bytes (ofs_game_title + complement_index) 0)) refl)))

module _ (image : List ℕ) (offset : ℕ) (long : gba_header_size ≤ length image)
    (all_bytes : (i : ℕ) → IsByte (get_or image i 0))
    (fixed : get_or image ofs_fixed_byte 0 ≡ fixed_byte_value) (from : ofs_game_title ≤ offset)
    (to : offset ≤ ofs_complement) (ne : offset ≢ ofs_fixed_byte) where
  abbrev area : List ℕ
  area = drop ofs_game_title image

  abbrev index : ℕ
  index = offset - ofs_game_title

  area_long : checksum_area_size ≤ length area
  area_long = omega (arith, length-drop ofs_game_title image)

  area-IsByte : (i : ℕ) → IsByte (get_or area i 0)
  area-IsByte i = rw (get_or-drop ofs_game_title image i 0) (all_bytes (ofs_game_title + i))

  write_complement_lem :
      (c : ℕ) × (write_complement image offset ≡ ok (set image offset c))
      × IsByte c
      × IsAccepted (set area index c)
  unfolding write_complement
  write_complement_lem =
      let (c, returns, byte, total) = calculate_complement_lem area index area_long (omega arith) in
      let back : ofs_game_title + index ≡ offset = omega arith in
      let inside = ltb-of_lt offset (length image) (omega arith) in
      (
        c,
        rw returns (rw back (rw inside)),
        byte,
        (calculate_complement_unique area index c area_long (omega arith) (area-IsByte index)
              byte).1
            returns,
      )

  pub finish_lem :
      (bytes : List ℕ) × (write_complement image offset ≡ ok bytes)
      × (throw_if_fixed_byte_wrong bytes ≡ ok tt)
      × (throw_if_complement_wrong bytes ≡ ok tt)
      × IsPatched offset image bytes
  finish_lem =
      let (c, returns, byte, accepted) = write_complement_lem in
      let bytes : List ℕ = set image offset c in
      let size : length bytes ≡ length image = length-set image offset c in
      let fixed' : get_or bytes ofs_fixed_byte 0 ≡ fixed_byte_value =
        get_or-set_ne image offset ofs_fixed_byte c 0 ne ∙ fixed in
      let back : ofs_game_title + index ≡ offset = omega arith in
      let moved : drop ofs_game_title bytes ≡ set area index c =
        ap (λ (i : ℕ). drop ofs_game_title (set image i c)) (sym back)
        ∙ drop-set ofs_game_title image index c in
      let accepted' : IsAccepted (drop ofs_game_title bytes) = rw moved accepted in
      let correct : HasComplement (drop ofs_game_title bytes) =
        (HasComplement-iff_IsAccepted (drop ofs_game_title bytes)
            (omega (arith, length-drop ofs_game_title bytes, size))
            (rw moved (
              IsByte-get_or-set area index c complement_index byte
                (area-IsByte complement_index)))).1
          accepted' in
      (
        bytes,
        returns,
        throw_if_fixed_byte_wrong_lem bytes (omega (arith, size)) fixed',
        throw_if_complement_wrong_lem bytes (omega (arith, size)) correct,
        record {
          value = c;
          value_lt = byte;
          bytes_eq = refl;
          accepted = accepted';
          fixed_byte = fixed';
        },
      )
