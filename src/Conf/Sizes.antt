-- ===== src/Conf/Sizes.antt =====
-- src/conf/conf_file.c, `parse_size` on a decimal number with a unit.
use hpulogc.Prelude.{
  ℕ, ◌+◌, ◌-◌, ◌*◌, ◌%◌, ◌^◌, ◌≤◌, ◌≡◌, refl, true, false, [], ◌∷◌, ◌++◌, some, if◌then◌else◌, leb,
  ◌==◌, arith, Bytes,
}
use hpulogc.Conf.Declared.{is_digit}
use hpulogc.Conf.Values.{
  space, skip_spaces, digits, starts_digit, scan_number, strtoull, suffix_factor, parse_size,
}

abbrev pub IsDigit : ℕ → Type 0
IsDigit c = (48 ≤ c) × (c ≤ 57)

abbrev pub AllDigits : Bytes → Type 0
AllDigits [] = Unit
AllDigits (c ∷ s) = IsDigit c × AllDigits s

-- The number of which these are the decimal digits, behind those of `v`.
unfoldable pub number_from : ℕ → Bytes → ℕ
number_from v [] = v
number_from v (c ∷ s) = number_from (v * 10 + (c - 48)) s

-- The units in the letters of the table, and their factors.
pub data UnitOf : Bytes → ℕ → Type 0 where
  bytes : UnitOf [] 1
  thousand : UnitOf (b'k' ∷ []) 1000
  million : UnitOf (b'm' ∷ []) 1000000
  billion : UnitOf (b'g' ∷ []) 1000000000
  kib : UnitOf (b'k' ∷ b'b' ∷ []) 1024
  mib : UnitOf (b'm' ∷ b'b' ∷ []) 1048576
  gib : UnitOf (b'g' ∷ b'b' ∷ []) 1073741824

digits-number_from :
    (v : ℕ) (ds rest : Bytes)
    → AllDigits ds
    → starts_digit rest ≡ false
    → digits v (ds ++ rest) ≡ (number_from v ds, rest)
unfolding digits number_from
digits-number_from v [] [] a h = refl
digits-number_from v [] (c ∷ rest) a h = rw h refl
digits-number_from v (c ∷ ds) rest a h =
    let d : is_digit c ≡ true = ground (arith, a.0) in
    rw (d, digits-number_from (v * 10 + (c - 48)) ds rest a.1 h) refl

unit-no_digit : (unit : Bytes) (f : ℕ) → UnitOf unit f → starts_digit unit ≡ false
unit-no_digit unit f bytes = refl
unit-no_digit unit f thousand = refl
unit-no_digit unit f million = refl
unit-no_digit unit f billion = refl
unit-no_digit unit f kib = refl
unit-no_digit unit f mib = refl
unit-no_digit unit f gib = refl

unit-factor : (unit : Bytes) (f : ℕ) → UnitOf unit f → suffix_factor unit ≡ some f
unfolding suffix_factor
unit-factor unit f bytes = refl
unit-factor unit f thousand = refl
unit-factor unit f million = refl
unit-factor unit f billion = refl
unit-factor unit f kib = refl
unit-factor unit f mib = refl
unit-factor unit f gib = refl

scan_number-digits :
    (c : ℕ) (ds unit : Bytes)
    → AllDigits (c ∷ ds)
    → starts_digit unit ≡ false
    → scan_number (c ∷ ds ++ unit) ≡ some (false, number_from 0 (c ∷ ds), unit)
unfolding scan_number skip_spaces
scan_number-digits c ds unit a h =
    let not_space : space c ≡ false = ground (arith, a.0) in
    let not_minus : (c == b'-') ≡ false = ground (arith, a.0) in
    let not_plus : (c == b'+') ≡ false = ground (arith, a.0) in
    let d : is_digit c ≡ true = ground (arith, a.0) in
    rw (not_space, not_minus, not_plus, d, digits-number_from 0 (c ∷ ds) unit a h) refl

-- Decimal digits with a unit behind them are parsed as the number, or the greatest of 64 bits where
-- it is beyond them, times the unit's factor modulo 2^64.
pub parse_size-digits :
    (c : ℕ) (ds unit : Bytes) (f : ℕ)
    → AllDigits (c ∷ ds)
    → UnitOf unit f
    → parse_size (c ∷ ds ++ unit)
      ≡ some (
          (if leb (2 ^ 64) (number_from 0 (c ∷ ds)) then 2 ^ 64 - 1 else number_from 0 (c ∷ ds))
          * f
          % 2 ^ 64)
unfolding parse_size strtoull
parse_size-digits c ds unit f a u =
    rw
      (
        parse_size,
        strtoull,
        scan_number-digits c ds unit a (unit-no_digit unit f u),
        unit-factor unit f u,
      )
      refl
